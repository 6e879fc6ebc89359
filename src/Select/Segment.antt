-- ===== src/Select/Segment.antt =====
-- Exchanges inside a segment of a slice, seen through the entries at each index.
use mathlib.Core.List.Perm
use native.Mathlib.Decide.{ℕ_discrete}
use priority_service_poc.Base.{
  ℕ, ◌≤◌, ◌<◌, ◌≡◌, refl, ◌∙◌, ◌⊎◌, List, Perm, arith, length, length-set, length-perm, get_or, set,
  get_elem?-get_or, get_or-set, set-perm, ◌==◌, if◌then◌else◌,
}
use priority_service_poc.Base.Int.{ℤ, pos}
use priority_service_poc.Base.Run.{ok, load, load-ok, store-ok}
use priority_service_poc.Types.{ScoreEntry}
use priority_service_poc.Select.{swap}

abbrev pub no_entry : ScoreEntry
no_entry = record { score = pos 0; order_id = pos 0 }

abbrev pub entry : List ScoreEntry → ℕ → ScoreEntry
entry e i = get_or e i no_entry

abbrev pub key : List ScoreEntry → ℕ → ℤ
key e i = (entry e i).score

pub load-entry : (e : List ScoreEntry) (i : ℕ) → i < length e → load e i ≡ ok (entry e i)
load-entry e i h = load-ok e i (get_elem?-get_or e i no_entry h)

pub swapped : List ScoreEntry → ℕ → ℕ → List ScoreEntry
swapped e i j = set (set e i (entry e j)) j (entry e i)

pub length-swapped : (e : List ScoreEntry) (i j : ℕ) → length (swapped e i j) ≡ length e
unfolding swapped
length-swapped e i j = length-set (set e i (entry e j)) j (entry e i) ∙ length-set e i (entry e j)

module _ (e : List ScoreEntry) (i j : ℕ) (hi : i < length e) (hj : j < length e) where
  pub swap-ok : swap e i j ≡ ok (swapped e i j)
  unfolding swap swapped
  swap-ok = rw (
    load-entry e j hj,
    load-entry e i hi,
    store-ok e i (entry e j) hi,
    store-ok (set e i (entry e j)) j (entry e i) (rw length-set hj),
  )

  pub entry-swapped :
      (c : ℕ)
      → entry (swapped e i j) c
        ≡ (if j == c then entry e i else if i == c then entry e j else entry e c)
  unfolding swapped
  entry-swapped c =
      get_or-set (set e i (entry e j)) j c (entry e i) no_entry (rw length-set hj)
      ∙ rw (get_or-set e i c (entry e j) no_entry hi)

  pub swapped-perm : Perm (swapped e i j) e
  unfolding swapped
  swapped-perm =
      let once = set e i (entry e j) in
      let same : entry once j ≡ entry e j =
        ground (arith, get_or-set e i j (entry e j) no_entry hi) in
      let second = set-perm once j (entry e i) no_entry (rw length-set hj) in
      Perm.cons_inv (Perm.trans (rw same at second) (set-perm e i (entry e j) no_entry hi))

-- `new` holds the entries of `old`, with those at the indices from `lo` to `hi` in another order.
pub record Rearranged (lo hi : ℕ) (old new : List ScoreEntry) : Type 0 where
  pub perm : Perm new old
  pub outside : (i : ℕ) → (i < lo) ⊎ (hi < i) → entry new i ≡ entry old i
  pub inside :
      (i : ℕ) → lo ≤ i → i ≤ hi → (j : ℕ) × (lo ≤ j) × (j ≤ hi) × (entry new i ≡ entry old j)

pub Rearranged-length :
    {lo hi : ℕ} {old new : List ScoreEntry} → Rearranged lo hi old new → length new ≡ length old
Rearranged-length r = length-perm r.perm

pub Rearranged-refl : (lo hi : ℕ) (e : List ScoreEntry) → Rearranged lo hi e e
Rearranged-refl lo hi e = record {
  perm = Perm.refl e;
  outside = λ i h. refl;
  inside = λ i h k. (i, h, k, refl);
}

pub Rearranged-trans :
    {lo hi : ℕ} {a b c : List ScoreEntry}
    → Rearranged lo hi a b
    → Rearranged lo hi b c
    → Rearranged lo hi a c
Rearranged-trans r t = record {
  perm = Perm.trans t.perm r.perm;
  outside = λ i h. t.outside i h ∙ r.outside i h;
  inside = λ i h k.
      let (j, below, above, e) = t.inside i h k in
      let (l, below', above', e') = r.inside j below above in (l, below', above', e ∙ e');
}

pub swapped-Rearranged :
    (lo hi : ℕ) (e : List ScoreEntry) (i j : ℕ)
    → hi < length e
    → lo ≤ i
    → i ≤ hi
    → lo ≤ j
    → j ≤ hi
    → Rearranged lo hi e (swapped e i j)
swapped-Rearranged lo hi e i j size li ih lj jh =
    let at = entry-swapped e i j (omega arith) (omega arith) in
    record {
      perm = swapped-perm e i j (omega arith) (omega arith);
      outside = λ c h. ground (arith, at c);
      inside = λ c h k. elim (ℕ_discrete j c) [
        | yes e1 ↦ (i, li, ih, ground (arith, at c))
        | no n1 ↦ elim (ℕ_discrete i c) [
          | yes e2 ↦ (j, lj, jh, ground (arith, at c))
          | no n2 ↦ (c, h, k, ground (arith, at c))
        ]
      ];
    }
