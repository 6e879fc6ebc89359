-- ===== src/Cgo/Engine/Served.antt =====
-- From the cycle of the cgo variant to the answer of its server, which shares the topology and the
-- buffer of the engine.
use mathlib.Core.List.{forall_mem-cons, not-mem-nil, mem-append_left}
use mathlib.Core.List.Perm
use priority_service_poc.Base.{
  ℕ, zero, suc, ◌^◌, ◌≤◌, ◌<◌, ◌≡◌, refl, ap, List, [], ◌∷◌, ◌++◌, Mem, Option, some, false, arith,
  get_elem?, replicate, Bool-cases, inl, inr, ◌-◌, lt_of_get_elem?,
}
use priority_service_poc.Base.Int.{
  wrap64, ◌+ℤ◌, ℤ, pos, pos_part, neg_part, eqb_ℤ, wrap32, wrap32_fits, pos_parts, negsuc_parts,
}
use priority_service_poc.Base.Run.{ok, Returns, returns, Returns-at}
use priority_service_poc.Base.Dict.{lookup}
use priority_service_poc.Types.{critical_cutoff, Sizes, PairInfo, CycleStats, OrderMeta, ScoreEntry}
use priority_service_poc.Types.Runtime.{Runtime}
use priority_service_poc.Buffer.{empty_slot}
use priority_service_poc.Buffer.Slots.{list_at}
use priority_service_poc.Indexes.Counts.{list_of}
use priority_service_poc.Phase1.Rows.{row_at}
use priority_service_poc.Rank.Write.{tbl}
use priority_service_poc.Topology.{TopologyState, status_active, get as pure_get}
use priority_service_poc.Registry.{purge_expired, OrderStore}
use priority_service_poc.Select.TopK.{IsTopK}
use priority_service_poc.Rank.Lists.{order_ids, IsRanked}
use priority_service_poc.Rank.Prefix.{IsRanked-take}
use priority_service_poc.Rank.Pass.{
  Table, heuristic, large, pbt, critical, pass, belongs, meta_of, AllBelow,
}
use priority_service_poc.Server.{
  PriorityServer, GetTopKRequest, GetTopKResponse, effective_k, new_priority_server,
}
use priority_service_poc.Server.Answers.{
  taken, key_of, four_lists, effective_k_bound, list_of_answer,
}
use priority_service_poc.Server.Index.{KeysDistinct, refresh_pair_index-lookup}
use priority_service_poc.Engine.{Clock}
use priority_service_poc.Cgo.Registry.Refinement.{live_store}
use priority_service_poc.Cgo.Pairs.{get}
use priority_service_poc.Cgo.Phase1.{ItemDictUpdate}
use priority_service_poc.Cgo.Phase1.Done.{ModestDeltas}
use priority_service_poc.Cgo.Rank.Pass.{known, known-AllBelow}
use priority_service_poc.Cgo.Rank.Pair.{pair_entries}
use priority_service_poc.Cgo.Server.{Reply, replied, get_top_k}
use priority_service_poc.Cgo.Server.Agreement.{until_empty, lists_until_empty, get_top_k_agrees}
use priority_service_poc.Cgo.Engine.{ComputeEngine, run_cycle_with_dict}
use priority_service_poc.Cgo.Engine.Cycle.{IsReady, IsCycled, run_cycle_with_dict-IsCycled_live}

get-same : (t : TopologyState) (key : ℕ) → pure_get t key ≡ get t key
unfolding pure_get get
get-same t key = refl

-- The entry's identifier is not the -1 of an empty slot.
abbrev Shown : ScoreEntry → Type 0
Shown a = eqb_ℤ a.order_id empty_slot ≡ false

Shown-prop : (a : ScoreEntry) → IsProp (Shown a)
Shown-prop a = hlevel

id-Shown : (oid : ℕ) → oid < 2 ^ 31 → eqb_ℤ (wrap32 (pos oid)) empty_slot ≡ false
id-Shown oid h =
    let fits : wrap32 (pos oid) ≡ pos oid =
      wrap32_fits (pos oid) (omega (arith, pos_parts oid, negsuc_parts (2 ^ 31 - 1)))
        (omega (arith, pos_parts oid, pos_parts (2 ^ 31 - 1))) in
    rw fits (ground (arith, pos_parts oid, negsuc_parts 0))

module _ (now_secs crit_deadline : ℤ) (t : Table) (meta : List OrderMeta) (pps_row : List ℤ) (n : ℕ)
    (small : n ≤ 2 ^ 31) where
  pass-Shown :
      (eligible : List ℕ)
      → AllBelow n eligible
      → (a : ScoreEntry) → Mem a (pass now_secs crit_deadline t meta pps_row eligible)
      → Shown a
  unfolding pass
  pass-Shown [] below = λ a m. absurd (not-mem-nil m)
  pass-Shown (oid ∷ eligible) below =
      elim (Bool-cases (belongs crit_deadline t (meta_of meta oid))) [
        | inl in_table ↦ rw in_table (
            (forall_mem-cons Shown-prop).1
              (id-Shown oid (omega arith), pass-Shown eligible below.1))
        | inr out ↦ rw out (pass-Shown eligible below.1)
      ]

until_empty-order_ids :
    (front : List ScoreEntry) (m : ℕ)
    → ((a : ScoreEntry) → Mem a front → Shown a)
    → until_empty (order_ids front ++ replicate m empty_slot) ≡ order_ids front
unfolding pos_part neg_part
until_empty-order_ids [] zero h = refl
until_empty-order_ids [] (suc m) h = refl
until_empty-order_ids (x ∷ front) m h =
    let (here, rest) = (forall_mem-cons Shown-prop).0 h in
    rw here (ap (◌∷◌ x.order_id) (until_empty-order_ids front m rest))

-- `ids` names the top `k` of `entries` in descending order of score, and nothing else.
pub record NamesTop (k : ℕ) (entries : List ScoreEntry) (ids : List ℤ) : Type 0 where
  pub front : List ScoreEntry
  pub top : IsTopK k entries front
  pub shown : ids ≡ order_ids front

IsRanked-NamesTop :
    (k : ℕ) (entries : List ScoreEntry) (ids : List ℤ)
    → ((a : ScoreEntry) → Mem a entries → Shown a)
    → IsRanked k entries ids
    → NamesTop k entries (until_empty ids)
IsRanked-NamesTop k entries ids h r = record {
  front = r.front;
  top = r.top;
  shown = rw r.shown (
      until_empty-order_ids r.front _
        λ a m. h a ((Perm.mem_iff r.top.split).0 (mem-append_left r.top.rest m)));
}

-- The reply for a pair: of each table the top entries, without padding.
pub data IsTopReply (s : Sizes) (st : OrderStore) (now_secs : ℤ) (pair : PairInfo) (k : ℕ)
    : Reply → Type 0 where
  top_reply :
      {resp : GetTopKResponse}
      → ((t : Table) → NamesTop k (pair_entries s st now_secs pair t) (list_of_answer t resp))
      → IsTopReply s st now_secs pair k (replied resp)

list_until_empty :
    (t : Table) (r : GetTopKResponse)
    → list_of_answer t (lists_until_empty r) ≡ until_empty (list_of_answer t r)
list_until_empty heuristic r = refl
list_until_empty large r = refl
list_until_empty pbt r = refl
list_until_empty critical r = refl

module _ (s : Sizes) (rt : Runtime) (int_overflow : ℤ → ℤ) (clock : Clock)
    (update : Option ItemDictUpdate) (st : OrderStore) (e e' : ComputeEngine) (stats : CycleStats)
    (req : GetTopKRequest) (j : ℕ) (pair : PairInfo) where
  pub cycled-reply :
      (c : IsCycled s rt clock update st e e')
      → s.num_orders ≤ 2 ^ 31
      → KeysDistinct e.state.pairs
      → get_elem? e.state.pairs j ≡ some pair
      → key_of req ≡ pair.key
      → get e'.state.topology pair.key ≡ some status_active
      → Returns
          (IsTopReply s c.tables clock.now_secs pair (effective_k s req.k))
          (get_top_k s (new_priority_server e'.state.topology e'.db e'.state.pairs) req)
  unfolding new_priority_server
  cycled-reply c narrow distinct at named active =
      let base : PriorityServer = record {
        topology = e'.state.topology;
        db = e'.db;
        pair_index = [];
      } in
      let srv = new_priority_server e'.state.topology e'.db e'.state.pairs in
      let k = effective_k s req.k in
      let within = effective_k_bound s req.k in
      let at' : get_elem? e'.state.pairs j ≡ some pair = rw c.pairs at in
      let distinct' : KeysDistinct e'.state.pairs = rw c.pairs distinct in
      let inside : j < e'.db.ptr.num_pairs =
        omega (arith, c.published.num_pairs, lt_of_get_elem? e.state.pairs j at) in
      let act : pure_get e'.state.topology (key_of req) ≡ some status_active =
        rw (named, get-same e'.state.topology pair.key) active in
      let found : lookup (key_of req) srv.pair_index ≡ some j =
        rw named ((refresh_pair_index-lookup base e'.state.pairs distinct').0 j pair at') in
      rw (get_top_k_agrees s srv req j c.published.sized inside act found).1 (
        returns (
          top_reply λ t.
            rw (list_until_empty t (four_lists s e'.db.ptr j k), taken s e'.db.ptr j k t)
              (IsRanked-NamesTop k (pair_entries s c.tables clock.now_secs pair t) _
                (λ a m.
                  pass-Shown clock.now_secs (wrap64 (clock.now_secs +ℤ critical_cutoff)) t
                    c.tables.registry.meta (row_at s c.tables.matrix pair.pps_id) s.num_orders
                    narrow
                    (known s.num_orders
                      (list_of pair.bin_tag_id c.tables.indexes.bin_tag_to_orders))
                    (known-AllBelow s.num_orders _) a m)
                (IsRanked-take k s.top_k _ (list_at s e'.db.ptr j (tbl t)) within
                  (c.published.done j pair at t)))))

  -- A request for a pair of the engine that is active once a cycle of the cgo variant has returned, on a
  -- ready engine, with modest deltas, distinct keys and at most 2^31 orders, is answered without a panic by
  -- a server made of the engine's topology, buffer and pairs: each of the four lists names the top entries
  -- of the pair over the store as the cycle left it, as many as the request asks for or `top_k` for a
  -- number out of range, all if there are fewer, in descending order of score and without padding.
  pub run_cycle-get_top_k_replied :
      0 < s.num_workers
      → 0 < s.num_orders
      → s.num_orders ≤ 2 ^ 31
      → IsReady s st e
      → ((st' : OrderStore)
          → purge_expired s st clock.now_secs ≡ ok st'
          → ModestDeltas s rt st'.indexes update)
      → KeysDistinct e.state.pairs
      → run_cycle_with_dict s rt int_overflow clock update e ≡ ok (e', stats)
      → get_elem? e.state.pairs j ≡ some pair
      → key_of req ≡ pair.key
      → get e'.state.topology pair.key ≡ some status_active
      → (tables : OrderStore) × (e'.store ≡ live_store tables)
        × Returns
            (IsTopReply s tables clock.now_secs pair (effective_k s req.k))
            (get_top_k s (new_priority_server e'.state.topology e'.db e'.state.pairs) req)
  run_cycle-get_top_k_replied pool some_order narrow v modest distinct ran at named active =
      let c =
        Returns-at
          (run_cycle_with_dict-IsCycled_live s rt int_overflow clock update st e pool some_order v
            modest)
          ran in
      (c.tables, c.ready.alive, cycled-reply c narrow distinct at named active)
