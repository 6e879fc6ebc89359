-- ===== src/Rank/Pass.antt =====
-- The single pass over the eligible orders fills the four tables as four passes would.
use mathlib.Core.List.{append-nil, append_assoc}
use priority_service_poc.Base.{
  sym, ap, ℕ, ◌<◌, ◌≡◌, refl, ◌∙◌, List, [], ◌∷◌, ◌++◌, Bool, ◌&&◌, arith, length, get_or,
  get_elem?-get_or, if◌then◌else◌, Bool-cases, inl, inr, true, false,
}
use priority_service_poc.Base.Int.{ℤ, pos, ◌-ℤ◌, geb_ℤ, gtb_ℤ, wrap32, wrap64}
use priority_service_poc.Base.Run.{Returns, returns, Returns-mono, load-ok}
use priority_service_poc.Types.{OrderMeta, ScoreEntry}
use priority_service_poc.Types.Float.{float_ge, large_qty_threshold}
use priority_service_poc.Registry.{zero_meta}
use priority_service_poc.Rank.{WorkerScratch, add_entries, fill_scratch}

-- The four ranking tables.
pub data Table : Type 0 where
  heuristic large pbt critical : Table

-- Which orders a table ranks: active ones only.
abbrev pub belongs : ℤ → Table → OrderMeta → Bool
belongs crit_deadline heuristic m = m.active
belongs crit_deadline large m = m.active && float_ge m.required_qty large_qty_threshold
belongs crit_deadline pbt m = m.active && gtb_ℤ m.pbt_deadline (pos 0)
belongs crit_deadline critical m =
    m.active && gtb_ℤ m.pbt_deadline (pos 0) && geb_ℤ crit_deadline m.pbt_deadline

-- What it ranks them by: the score of the row, or how long ago the deadline was.
abbrev pub rank_value : ℤ → Table → OrderMeta → ℤ → ℤ
rank_value now_secs heuristic m score = score
rank_value now_secs large m score = score
rank_value now_secs pbt m score = wrap32 (wrap64 (now_secs -ℤ m.pbt_deadline))
rank_value now_secs critical m score = wrap32 (wrap64 (now_secs -ℤ m.pbt_deadline))

abbrev pub meta_of : List OrderMeta → ℕ → OrderMeta
meta_of meta oid = get_or meta oid zero_meta

abbrev pub score_of : List ℤ → ℕ → ℤ
score_of pps_row oid = get_or pps_row oid (pos 0)

abbrev pub table_entry : ℤ → Table → List OrderMeta → List ℤ → ℕ → ScoreEntry
table_entry now_secs table meta pps_row oid = record {
  score = rank_value now_secs table (meta_of meta oid) (score_of pps_row oid);
  order_id = wrap32 (pos oid);
}

-- One pass for one table.
unfoldable pub pass : ℤ → ℤ → Table → List OrderMeta → List ℤ → List ℕ → List ScoreEntry
pass now_secs crit_deadline table meta pps_row [] = []
pass now_secs crit_deadline table meta pps_row (oid ∷ eligible) =
    let rest = pass now_secs crit_deadline table meta pps_row eligible in
    if belongs crit_deadline table (meta_of meta oid)
    then table_entry now_secs table meta pps_row oid ∷ rest
    else rest

abbrev pub list_for : Table → WorkerScratch → List ScoreEntry
list_for heuristic sc = sc.heuristic
list_for large sc = sc.large
list_for pbt sc = sc.pbt
list_for critical sc = sc.critical

-- Every identifier is below the bound.
abbrev pub AllBelow : ℕ → List ℕ → Type 0
AllBelow n [] = Unit {0}
AllBelow n (oid ∷ oids) = (oid < n) × AllBelow n oids

append_if :
    (b : Bool) (xs : List ScoreEntry) (x : ScoreEntry)
    → (if b then xs ++ x ∷ [] else xs) ≡ xs ++ (if b then x ∷ [] else [])
append_if true xs x = refl
append_if false xs x = sym (append-nil xs)

module _ (now_secs crit_deadline : ℤ) (meta : List OrderMeta) (pps_row : List ℤ) where
  add_entries-list_for :
      (oid : ℕ) (sc : WorkerScratch) (table : Table)
      → (meta_of meta oid).active ≡ true
      → list_for table
          (add_entries now_secs crit_deadline (meta_of meta oid) (score_of pps_row oid) oid sc)
        ≡ list_for table sc
          ++ (if belongs crit_deadline table (meta_of meta oid)
              then table_entry now_secs table meta pps_row oid ∷ []
              else [])
  unfolding add_entries
  add_entries-list_for oid sc heuristic on = rw on
  add_entries-list_for oid sc large on = rw on (append_if _ sc.large _)
  add_entries-list_for oid sc pbt on = rw on (append_if _ sc.pbt _)
  add_entries-list_for oid sc critical on = rw on (append_if _ sc.critical _)

  pass_step :
      (table : Table) (oid : ℕ) (eligible : List ℕ)
      → pass now_secs crit_deadline table meta pps_row (oid ∷ eligible)
        ≡ (if belongs crit_deadline table (meta_of meta oid)
            then table_entry now_secs table meta pps_row oid ∷ []
            else [])
          ++ pass now_secs crit_deadline table meta pps_row eligible
  unfolding pass
  pass_step table oid eligible =
      elim (Bool-cases (belongs crit_deadline table (meta_of meta oid))) [
        | inl in_table ↦ rw in_table
        | inr out ↦ rw out
      ]

  pass_inactive :
      (table : Table) (oid : ℕ) (eligible : List ℕ)
      → (meta_of meta oid).active ≡ false
      → pass now_secs crit_deadline table meta pps_row (oid ∷ eligible)
        ≡ pass now_secs crit_deadline table meta pps_row eligible
  unfolding pass
  pass_inactive heuristic oid eligible off = rw off
  pass_inactive large oid eligible off = rw off
  pass_inactive pbt oid eligible off = rw off
  pass_inactive critical oid eligible off = rw off

  -- Over eligible orders that all have a slot, and with a row of the matrix as long as there are slots, the
  -- single pass returns without a panic, and appends to each table what a pass of its own over the same
  -- orders would find.
  pub fill_scratch-pass :
      (eligible : List ℕ) (sc : WorkerScratch)
      → AllBelow (length meta) eligible
      → length pps_row ≡ length meta
      → Returns
          (λ sc'.
            (table : Table)
            → list_for table sc'
              ≡ list_for table sc ++ pass now_secs crit_deadline table meta pps_row eligible)
          (fill_scratch now_secs crit_deadline meta pps_row eligible sc)
  unfolding fill_scratch pass
  fill_scratch-pass [] sc below size = returns (λ table. sym (append-nil (list_for table sc)))
  fill_scratch-pass (oid ∷ eligible) sc below size =
      rw (load-ok meta oid (get_elem?-get_or meta oid zero_meta below.0))
        (elim (Bool-cases (meta_of meta oid).active) [
          | inl on ↦
              rw (on, load-ok pps_row oid (get_elem?-get_or pps_row oid (pos 0) (omega arith)))
                (Returns-mono
                  (λ sc' h table.
                    h table
                    ∙ ap (λ l. l ++ pass now_secs crit_deadline table meta pps_row eligible)
                        (add_entries-list_for oid sc table on)
                    ∙ append_assoc (list_for table sc) _ _
                    ∙ ap (◌++◌ (list_for table sc)) (sym (pass_step table oid eligible)))
                  (fill_scratch-pass eligible
                    (add_entries now_secs crit_deadline (meta_of meta oid) (score_of pps_row oid)
                      oid sc)
                    below.1 size))
          | inr off ↦ rw off (
              Returns-mono
                (λ sc' h table.
                  h table
                  ∙ ap (◌++◌ (list_for table sc)) (sym (pass_inactive table oid eligible off)))
                (fill_scratch-pass eligible sc below.1 size))
        ])
