-- ===== src/Select/Partition.antt =====
-- partitionDesc: what it returns, for every slice and every range of it.
use native.Mathlib.Decide.{ℕ_discrete}
use priority_service_poc.Base.{
  Bool, true, false, subst, ℕ, zero, suc, ◌+◌, ◌-◌, ◌/◌, ◌≤◌, ◌<◌, ◌≡◌, refl, inl, inr, List, arith,
  length, if◌then◌else◌, Bool-cases,
}
use priority_service_poc.Base.Int.{ℤ, ◌≤ℤ◌, ◌<ℤ◌, geb_ℤ}
use priority_service_poc.Base.Run.{Returns, returns, Returns-bind, Returns-mono}
use priority_service_poc.Types.{ScoreEntry}
use priority_service_poc.Select.{median_of_three, partition_loop, partition_desc}
use priority_service_poc.Select.Segment.{
  key, load-entry, swapped, length-swapped, swap-ok, entry-swapped, Rearranged, Rearranged-refl,
  Rearranged-trans, swapped-Rearranged,
}

-- The indices before `next` hold scores of at least the pivot, those from there to `j` lower ones.
record LoopInv (lo hi : ℕ) (pivot : ℤ) (next j : ℕ) (e : List ScoreEntry) : Type 0 where
  from : lo ≤ next
  order : next ≤ j
  until : j ≤ hi
  inside : hi < length e
  last : key e hi ≡ pivot
  high : (t : ℕ) → lo ≤ t → t < next → pivot ≤ℤ key e t
  low : (t : ℕ) → next ≤ t → t < j → key e t <ℤ pivot

module _ (lo hi : ℕ) (pivot : ℤ) (next j : ℕ) (e : List ScoreEntry)
    (v : LoopInv lo hi pivot next j e) (more : j < hi) where
  keep_below : key e j <ℤ pivot → LoopInv lo hi pivot next (suc j) e
  keep_below h = record {
    from = v.from;
    order = omega arith;
    until = more;
    inside = v.inside;
    last = v.last;
    high = v.high;
    low = λ t a b. elim (ℕ_discrete t j) [
      | yes here ↦ rw here h
      | no before ↦ v.low t a (omega arith)
    ];
  }

  move_above : pivot ≤ℤ key e j → LoopInv lo hi pivot (suc next) (suc j) (swapped e next j)
  move_above h =
      let at = entry-swapped e next j (omega arith) (omega arith) in
      record {
        from = omega arith;
        order = omega arith;
        until = more;
        inside = omega (arith, length-swapped e next j);
        last = ground (arith, at hi);
        high = λ t a b. ground (arith, at t, v.high t);
        low = λ t a b. ground (arith, at t, v.low t, v.low next);
      }

abbrev LoopPost : ℕ → ℕ → ℤ → List ScoreEntry → ℕ × List ScoreEntry → Type 0
LoopPost lo hi pivot e r = LoopInv lo hi pivot r.0 hi r.1 × Rearranged lo hi e r.1

partition_loop-LoopPost :
    (lo hi : ℕ) (pivot : ℤ) (rounds next j : ℕ) (e : List ScoreEntry)
    → LoopInv lo hi pivot next j e
    → j + rounds ≡ hi
    → Returns (LoopPost lo hi pivot e) (partition_loop pivot rounds next j e)
unfolding partition_loop
partition_loop-LoopPost lo hi pivot zero next j e v size =
    let done : j ≡ hi = omega arith in
    returns (subst (λ c. LoopInv lo hi pivot next c e) done v, Rearranged-refl lo hi e)
partition_loop-LoopPost lo hi pivot (suc rounds) next j e v size =
    let more : j < hi = omega arith in
    let here : j < length e = omega (arith, v.inside) in
    rw (load-entry e j here) (elim (Bool-cases (geb_ℤ (key e j) pivot)) [
      | inl above ↦
          rw (above, swap-ok e next j (omega (arith, v.order)) here)
            (Returns-mono
              (λ r p. (
                p.0,
                Rearranged-trans
                    (swapped-Rearranged lo hi e next j v.inside v.from (omega (arith, v.order))
                      (omega (arith, v.order, v.from)) (omega arith))
                    p.1,
              ))
              (partition_loop-LoopPost lo hi pivot rounds (suc next) (suc j) (swapped e next j)
                (move_above lo hi pivot next j e v more (ground arith)) (omega arith)))
      | inr below ↦ rw below (
          partition_loop-LoopPost lo hi pivot rounds next (suc j) e
            (keep_below lo hi pivot next j e v more (ground arith)) (omega arith))
    ])

pick_bounds :
    (b c : Bool) (lo mid hi : ℕ)
    → lo ≤ mid
    → mid ≤ hi
    → let m = if b then mid else if c then lo else hi in (lo ≤ m) × (m ≤ hi)
pick_bounds true c lo mid hi h k = (h, k)
pick_bounds false true lo mid hi h k = omega arith
pick_bounds false false lo mid hi h k = omega arith

median_of_three_bounds :
    (e : List ScoreEntry) (lo mid hi : ℕ)
    → lo ≤ mid
    → mid ≤ hi
    → hi < length e
    → Returns (λ m. (lo ≤ m) × (m ≤ hi)) (median_of_three e lo mid hi)
unfolding median_of_three
median_of_three_bounds e lo mid hi h k inside =
    rw (load-entry e lo (omega arith), load-entry e mid (omega arith), load-entry e hi inside)
      (returns (pick_bounds _ _ lo mid hi h k))

-- The scores up to `p` are at least that at `p`, and those behind it are no higher.
pub record IsPartitioned (lo hi p : ℕ) (e : List ScoreEntry) : Type 0 where
  pub from : lo ≤ p
  pub until : p ≤ hi
  pub high : (t : ℕ) → lo ≤ t → t < p → key e p ≤ℤ key e t
  pub low : (t : ℕ) → p < t → t ≤ hi → key e t ≤ℤ key e p

finish-IsPartitioned :
    (lo hi : ℕ) (pivot : ℤ) (next : ℕ) (e : List ScoreEntry)
    → LoopInv lo hi pivot next hi e
    → IsPartitioned lo hi next (swapped e next hi)
finish-IsPartitioned lo hi pivot next e v =
    let at = entry-swapped e next hi (omega arith) v.inside in
    record {
      from = v.from;
      until = v.order;
      high = λ t a b. ground (arith, at t, at next, v.high t, v.last);
      low = λ t a b. ground (arith, at t, at next, v.low t, v.low next, v.last);
    }

-- partitionDesc returns for every range inside the slice: the index of a pivot that separates the
-- range, and the slice with nothing but that range rearranged.
pub partition_desc-IsPartitioned :
    (e : List ScoreEntry) (lo hi : ℕ)
    → lo ≤ hi
    → hi < length e
    → Returns (λ r. IsPartitioned lo hi r.0 r.1 × Rearranged lo hi e r.1) (partition_desc e lo hi)
unfolding partition_desc
partition_desc-IsPartitioned e lo hi h inside =
    Returns-bind
      (median_of_three_bounds e lo (lo + (hi - lo) / 2) hi (omega arith) (omega arith) inside)
      λ m (ml, mh).
        let e1 = swapped e m hi in
        let size = length-swapped e m hi in
        rw (swap-ok e m hi (omega arith) inside, load-entry e1 hi (omega arith))
          (Returns-bind
            (partition_loop-LoopPost lo hi (key e1 hi) (hi - lo) lo lo e1
              (record {
                from = omega arith;
                order = omega arith;
                until = h;
                inside = omega arith;
                last = refl;
                high = λ t a b. absurd (omega arith);
                low = λ t a b. absurd (omega arith);
              })
              (omega arith))
            λ (next, e2) (v, r).
              rw (swap-ok e2 next hi (omega (arith, v.order, v.inside)) v.inside) (
                returns (
                  finish-IsPartitioned lo hi (key e1 hi) next e2 v,
                  Rearranged-trans (swapped-Rearranged lo hi e m hi inside ml mh h (omega arith)) (
                      Rearranged-trans r (
                        swapped-Rearranged lo hi e2 next hi v.inside v.from v.order h
                          (omega arith))),
                )))
