-- ===== src/Examples/Sorting.antt =====
-- A concrete sort.Slice for the runs: insertion sort, highest score first.
use mathlib.Core.List.{Pairwise-cons, forall_mem-cons, not-mem-nil}
use mathlib.Core.List.Perm
use mathlib.Core.List.Pairwise
use native.Mathlib.Bridge.{le_prop}
use priority_service_poc.Base.{
  ◌^◌, ◌-◌, List, [], ◌∷◌, Perm, Mem, if◌then◌else◌, Bool-cases, inl, inr, arith,
}
use priority_service_poc.Base.Int.{negsuc, geb_ℤ, ◌≤ℤ◌}
use priority_service_poc.Types.{ScoreEntry}
use priority_service_poc.Types.Runtime.{Runtime, IsDescending}

unfoldable pub insert_entry : ScoreEntry → List ScoreEntry → List ScoreEntry
insert_entry x [] = x ∷ []
insert_entry x (y ∷ ys) =
    let rest = insert_entry x ys in if geb_ℤ x.score y.score then x ∷ y ∷ ys else y ∷ rest

unfoldable pub sort_entries : List ScoreEntry → List ScoreEntry
unfolding insert_entry
sort_entries [] = []
sort_entries (x ∷ xs) = insert_entry x (sort_entries xs)

insert_entry-perm : (x : ScoreEntry) (l : List ScoreEntry) → Perm (insert_entry x l) (x ∷ l)
unfolding insert_entry
insert_entry-perm x [] = Perm.rfl
insert_entry-perm x (y ∷ ys) = elim (Bool-cases (geb_ℤ x.score y.score)) [
  | inl above ↦ rw above Perm.rfl
  | inr below ↦ rw below (Perm.trans (Perm.cons y (insert_entry-perm x ys)) (Perm.swap x y ys))
]

pub sort_entries-perm : (l : List ScoreEntry) → Perm (sort_entries l) l
unfolding sort_entries
sort_entries-perm [] = Perm.rfl
sort_entries-perm (x ∷ xs) =
    Perm.trans (insert_entry-perm x (sort_entries xs)) (Perm.cons x (sort_entries-perm xs))

above_all :
    (a b : ScoreEntry) {l : List ScoreEntry}
    → b.score ≤ℤ a.score
    → ((x : ScoreEntry) → Mem x l → x.score ≤ℤ a.score)
    → (x : ScoreEntry) → Mem x (b ∷ l)
    → x.score ≤ℤ a.score
above_all a b h rest = (forall_mem-cons λ x. le_prop).1 (h, rest)

insert_entry-IsDescending :
    (x : ScoreEntry) (l : List ScoreEntry) → IsDescending l → IsDescending (insert_entry x l)
unfolding insert_entry
insert_entry-IsDescending x [] d = Pairwise.cons (λ y m. absurd (not-mem-nil m)) Pairwise.nil
insert_entry-IsDescending x (y ∷ ys) d =
    let (lower, rest) = Pairwise-cons.0 d in
    elim (Bool-cases (geb_ℤ x.score y.score)) [
      | inl above ↦
          let first : y.score ≤ℤ x.score = ground arith in
          rw above (Pairwise.cons (above_all x y first λ z m. chain z first (lower z m)) d)
      | inr below ↦
          let after : x.score ≤ℤ y.score = ground arith in
          rw below (
            Pairwise.cons
              (λ z m. above_all y x after lower z ((Perm.mem_iff (insert_entry-perm x ys)).0 m))
              (insert_entry-IsDescending x ys rest))
    ]
  where
    chain : (z : ScoreEntry) → y.score ≤ℤ x.score → z.score ≤ℤ y.score → z.score ≤ℤ x.score
    chain z p q = omega (arith, p, q)

pub sort_entries-IsDescending : (l : List ScoreEntry) → IsDescending (sort_entries l)
unfolding sort_entries
sort_entries-IsDescending [] = Pairwise.nil
sort_entries-IsDescending (x ∷ xs) =
    insert_entry-IsDescending x (sort_entries xs) (sort_entries-IsDescending xs)

-- A float that does not fit reads as the least int32.
abbrev pub sample_runtime : Runtime
sample_runtime = record {
  float_overflow = λ x. negsuc (2 ^ 31 - 1);
  sort_desc = sort_entries;
  sort_desc-perm = sort_entries-perm;
  sort_desc-IsDescending = sort_entries-IsDescending;
}
