-- ===== src/Rank/Write.antt =====
-- The lists of a pair in the buffer, and what the four calls of quickselectAndCopy do to them.
use native.Mathlib.Decide.{ℕ_discrete}
use priority_service_poc.Base.{
  subst, ℕ, suc, ◌-◌, ◌≤◌, ◌<◌, ◌≡◌, ◌≢◌, refl, sym, ap, ◌∙◌, ◌⊎◌, inr, List, arith, length,
  length-append, length-map, length-replicate, replicate, ◌==◌, if◌then◌else◌,
}
use priority_service_poc.Base.Int.{ℤ}
use priority_service_poc.Base.Run.{Returns, returns, Returns-bind, Returns-mono}
use priority_service_poc.Types.{
  Sizes, ScoreEntry, num_tables, tbl_heuristic, tbl_large, tbl_pbt, tbl_critical,
}
use priority_service_poc.Buffer.{ReadBuffer, put_list, IsSized, empty_slot}
use priority_service_poc.Buffer.Slots.{
  list_at, put_list-IsSized, list_mut-ok, list_at-put_list_self, list_at-put_list_other,
}
use priority_service_poc.Rank.{WorkerScratch, SelectAndCopy, write_list, write_lists}
use priority_service_poc.Rank.Lists.{order_ids, IsRanked}
use priority_service_poc.Rank.Pass.{Table, heuristic, large, pbt, critical, list_for}

-- The table's index in the buffer.
abbrev pub tbl : Table → ℕ
tbl heuristic = tbl_heuristic
tbl large = tbl_large
tbl pbt = tbl_pbt
tbl critical = tbl_critical

abbrev pub IsBlank : Sizes → ReadBuffer → ℕ → Type 0
IsBlank s b p = (t : ℕ) → t < num_tables → list_at s b p t ≡ replicate s.top_k empty_slot

-- One list was replaced by the ranking of `entries`.
record WroteList (s : Sizes) (p t : ℕ) (entries : List ScoreEntry) (old new : ReadBuffer)
    : Type 0 where
  sized : IsSized s new
  pairs : new.num_pairs ≡ old.num_pairs
  ranked : IsRanked s.top_k entries (list_at s new p t)
  kept :
      (j u : ℕ)
      → j < old.num_pairs
      → u < num_tables
      → (p ≢ j) ⊎ (t ≢ u)
      → list_at s new j u ≡ list_at s old j u

IsRanked-length : {k : ℕ} {e : List ScoreEntry} {ids : List ℤ} → IsRanked k e ids → length ids ≡ k
IsRanked-length {k} r =
    ap length r.shown
    ∙ length-append (order_ids r.front) (replicate (k - length r.front) empty_slot)
    ∙ omega (
      arith,
      length-map (λ (x : ScoreEntry). x.order_id) r.front,
      length-replicate (k - length r.front) empty_slot,
      r.top.size,
    )

-- What the four calls ask of quickselectAndCopy: on a list of -1 it writes the ranking of the scratch.
abbrev pub Ranks : Sizes → SelectAndCopy → Type 0
Ranks s select_and_copy =
    (e : List ScoreEntry) (dst : List ℤ)
    → dst ≡ replicate s.top_k empty_slot
    → Returns (λ r. IsRanked s.top_k e r.0) (select_and_copy dst e)

module _ (s : Sizes) (select_and_copy : SelectAndCopy) (ranks : Ranks s select_and_copy)
    (p : ℕ) where
  write_list-WroteList :
      (t : ℕ) (b : ReadBuffer) (e : List ScoreEntry)
      → t < num_tables
      → IsSized s b
      → p < b.num_pairs
      → list_at s b p t ≡ replicate s.top_k empty_slot
      → Returns (λ r. WroteList s p t e b r.0) (write_list s select_and_copy p t b e)
  unfolding write_list
  write_list-WroteList t b e ht sized hp blank = rw (list_mut-ok s b p t sized hp ht) (
      Returns-bind (ranks e (list_at s b p t) blank) λ (ids, e') ranked.
        let size = IsRanked-length ranked in
        returns (record {
          sized = put_list-IsSized s b p t ids sized;
          pairs = unfold put_list in refl;
          ranked = rw (list_at-put_list_self s b p t ids sized hp ht size) ranked;
          kept =
              λ j u hj hu apart. list_at-put_list_other s b p t j u ids sized hj ht hu size apart;
        }))

table_at : ℕ → Table
table_at n =
    if n == 0 then heuristic else if n == 1 then large else if n == 2 then pbt else critical

table_at-tbl : (t : Table) → table_at (tbl t) ≡ t
unfolding table_at
table_at-tbl heuristic = refl
table_at-tbl large = refl
table_at-tbl pbt = refl
table_at-tbl critical = refl

tbl-injective : (t u : Table) → tbl t ≡ tbl u → t ≡ u
tbl-injective t u e = sym (table_at-tbl t) ∙ ap table_at e ∙ table_at-tbl u

-- The first `n` lists of pair `p` were replaced by rankings, and no other list.
pub record WroteLists (s : Sizes) (p n : ℕ) (entries : Table → List ScoreEntry)
    (old new : ReadBuffer) : Type 0 where
  pub sized : IsSized s new
  pub pairs : new.num_pairs ≡ old.num_pairs
  pub ranked : (t : Table) → tbl t < n → IsRanked s.top_k (entries t) (list_at s new p (tbl t))
  pub kept :
      (j u : ℕ)
      → j < old.num_pairs
      → u < num_tables
      → (p ≢ j) ⊎ (n ≤ u)
      → list_at s new j u ≡ list_at s old j u

module _ (s : Sizes) (select_and_copy : SelectAndCopy) (ranks : Ranks s select_and_copy) (p : ℕ)
    (entries : Table → List ScoreEntry) (b : ReadBuffer) (hp : p < b.num_pairs)
    (blank : IsBlank s b p) where
  add_list :
      (t : Table) (b1 b2 : ReadBuffer)
      → tbl t < num_tables
      → WroteLists s p (tbl t) entries b b1
      → WroteList s p (tbl t) (entries t) b1 b2
      → WroteLists s p (suc (tbl t)) entries b b2
  add_list t b1 b2 ht w v = record {
    sized = v.sized;
    pairs = v.pairs ∙ w.pairs;
    ranked = λ u hu. elim (ℕ_discrete (tbl u) (tbl t)) [
      | yes e ↦
          let same = tbl-injective u t e in
          subst (λ x. IsRanked s.top_k (entries x) (list_at s b2 p (tbl x))) (sym same) v.ranked
      | no ne ↦
          let earlier : tbl u < tbl t = omega arith in
          rw (v.kept p (tbl u) (omega (arith, w.pairs)) (omega arith) (inr (omega arith)))
            (w.ranked u earlier)
    ];
    kept = λ j u hj hu apart.
        v.kept j u (omega (arith, w.pairs)) hu (ground (arith, apart))
        ∙ w.kept j u hj hu (ground (arith, apart));
  }

  next_list :
      (t : Table) (b1 : ReadBuffer)
      → tbl t < num_tables
      → WroteLists s p (tbl t) entries b b1
      → Returns
          (λ r. WroteLists s p (suc (tbl t)) entries b r.0)
          (write_list s select_and_copy p (tbl t) b1 (entries t))
  next_list t b1 ht w =
      Returns-mono (λ r v. add_list t b1 r.0 ht w v)
        (write_list-WroteList s select_and_copy ranks p (tbl t) b1 (entries t) ht w.sized
          (omega (arith, w.pairs)) (w.kept p (tbl t) hp ht (inr (omega arith)) ∙ blank (tbl t) ht))

  no_list : IsSized s b → WroteLists s p 0 entries b b
  no_list sized = record {
    sized = sized;
    pairs = refl;
    ranked = λ t h. absurd (omega arith);
    kept = λ j u hj hu apart. refl;
  }

-- The four calls of the loop body replace the four blank lists of the pair by rankings.
pub write_lists-WroteLists :
    (s : Sizes) (select_and_copy : SelectAndCopy) (p : ℕ) (b : ReadBuffer) (sc : WorkerScratch)
    → Ranks s select_and_copy
    → IsSized s b
    → p < b.num_pairs
    → IsBlank s b p
    → Returns
        (λ r. WroteLists s p num_tables (λ t. list_for t sc) b r.0)
        (write_lists s select_and_copy p b sc)
unfolding write_lists
write_lists-WroteLists s select_and_copy p b sc ranks sized hp blank =
    let next = next_list s select_and_copy ranks p (λ t. list_for t sc) b hp blank in
    Returns-bind
      (next heuristic b (omega arith)
        (no_list s select_and_copy ranks p (λ t. list_for t sc) b hp blank sized))
      λ (b1, e1) w1. Returns-bind (next large b1 (omega arith) w1) λ (b2, e2) w2.
        Returns-bind (next pbt b2 (omega arith) w2)
          λ (b3, e3) w3. Returns-bind (next critical b3 (omega arith) w3) λ (b4, e4) w4. returns w4
