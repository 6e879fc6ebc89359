-- ===== src/Cgo/Engine/Added.antt =====
-- HandleAddPair of the cgo variant, the next cycle, and the answers before and after it.
use priority_service_poc.Base.{
  ℕ, ◌≤◌, ◌<◌, ◌^◌, ◌≡◌, refl, ◌∙◌, Option, some, true, arith, ltb, ==_refl, get_elem?, ap,
}
use priority_service_poc.Base.Int.{ℤ}
use priority_service_poc.Base.Run.{ok, Returns, Returns-at}
use priority_service_poc.Types.{Sizes, PairInfo, CycleStats, make_pair_key}
use priority_service_poc.Types.Runtime.{Runtime}
use priority_service_poc.Topology.{status_active, status_warming_up}
use priority_service_poc.Base.Dict.{lookup-insert}
use priority_service_poc.Indexes.Counts.{count}
use priority_service_poc.Registry.{OrderStore, purge_expired}
use priority_service_poc.Server.{GetTopKRequest, effective_k, new_priority_server, grpc_unavailable}
use priority_service_poc.Server.Answers.{key_of}
use priority_service_poc.Server.Index.{KeysDistinct}
use priority_service_poc.Engine.{Clock, pair_info}
use priority_service_poc.Engine.Promote.{keys}
use priority_service_poc.Engine.Handlers.{AllKeyed-append, count-added}
use priority_service_poc.Cgo.Registry.Refinement.{live_store}
use priority_service_poc.Cgo.Pairs.{get, handle_add_pair}
use priority_service_poc.Cgo.Pairs.Listed.{
  handle_add_pair-IsListed, handle_add_pair-kept, IsNamed, IsNamed-unique,
}
use priority_service_poc.Cgo.Phase1.{ItemDictUpdate}
use priority_service_poc.Cgo.Phase1.Done.{ModestDeltas}
use priority_service_poc.Cgo.Server.{refused, pair_is_warming_up, get_top_k}
use priority_service_poc.Cgo.Engine.{ComputeEngine, run_cycle_with_dict}
use priority_service_poc.Cgo.Engine.Cycle.{IsReady, run_cycle_with_dict-IsCycled_live}
use priority_service_poc.Cgo.Engine.Served.{IsTopReply, cycled-reply}

-- The engine after HandleAddPair.
abbrev pub with_pair : ComputeEngine → ℕ → ℕ → ComputeEngine
with_pair e pps_id bintag_id = record e { state = handle_add_pair e.state pps_id bintag_id }

pub with_pair-IsReady :
    (s : Sizes) (st : OrderStore) (e : ComputeEngine) (p b : ℕ)
    → IsReady s st e
    → p < st.matrix.num_pps
    → IsReady s st (with_pair e p b)
with_pair-IsReady s st e p b v row = record {
  alive = v.alive;
  valid = v.valid;
  some_row = v.some_row;
  short = v.short;
  have_rows =
      handle_add_pair-kept e.state p b (λ (pair : PairInfo). pair.pps_id < st.matrix.num_pps) row
        v.have_rows;
  well_keyed = unfold handle_add_pair in AllKeyed-append e.state.pending_warmup p b v.well_keyed;
}

added-pending :
    (e : ComputeEngine) (p b : ℕ)
    → ltb 0 (count (make_pair_key p b) (keys (with_pair e p b).state.pending_warmup)) ≡ true
unfolding handle_add_pair
added-pending e p b =
    let key = make_pair_key p b in
    ground (arith, count-added key p b e.state.pending_warmup, ==_refl key)

added-warming :
    (e : ComputeEngine) (p b : ℕ)
    → get (with_pair e p b).state.topology (make_pair_key p b) ≡ some status_warming_up
unfolding handle_add_pair get priority_service_poc.Cgo.Pairs.add_warming_up
    priority_service_poc.Cgo.Pairs.load_map
added-warming e p b =
    lookup-insert (make_pair_key p b) (make_pair_key p b) status_warming_up _
    ∙ rw (==_refl (make_pair_key p b)) refl

-- HandleAddPair for identifiers of type uint32, on a ready engine of the cgo variant whose old pairs have the
-- keys of their uint32 identifiers, all distinct, where the new pair has a row in the matrix: the request
-- for the pair is refused as unavailable until a cycle has run. When the next cycle has returned, with
-- modest deltas and at most 2^31 orders, the engine lists the pair of the request, with its identifiers, and
-- the server answers the request without a panic by the top entries of that pair, without padding.
pub handle_add_pair-replied :
    (s : Sizes) (rt : Runtime) (int_overflow : ℤ → ℤ) (clock : Clock)
    (update : Option ItemDictUpdate) (st : OrderStore) (e e' : ComputeEngine) (stats : CycleStats)
    (req : GetTopKRequest)
    → 0 < s.num_workers
    → 0 < s.num_orders
    → s.num_orders ≤ 2 ^ 31
    → IsReady s st e
    → req.pps_id < st.matrix.num_pps
    → req.pps_id < 2 ^ 32
    → req.bin_tag_id < 2 ^ 32
    → ((st' : OrderStore)
        → purge_expired s st clock.now_secs ≡ ok st'
        → ModestDeltas s rt st'.indexes update)
    → KeysDistinct e.state.pairs
    → ((j : ℕ) (pair : PairInfo) → get_elem? e.state.pairs j ≡ some pair → IsNamed pair)
    → run_cycle_with_dict s rt int_overflow clock update (with_pair e req.pps_id req.bin_tag_id)
      ≡ ok (e', stats)
    → (get_top_k s
          (new_priority_server
            (with_pair e req.pps_id req.bin_tag_id).state.topology
            e.db
            (with_pair e req.pps_id req.bin_tag_id).state.pairs)
          req
        ≡ ok (refused grpc_unavailable pair_is_warming_up))
      × (j : ℕ) × (get_elem? e'.state.pairs j ≡ some (pair_info req.pps_id req.bin_tag_id))
      × (tables : OrderStore) × (e'.store ≡ live_store tables)
      × Returns
          (IsTopReply s tables clock.now_secs
            (pair_info req.pps_id req.bin_tag_id)
            (effective_k s req.k))
          (get_top_k s (new_priority_server e'.state.topology e'.db e'.state.pairs) req)
unfolding get_top_k priority_service_poc.Cgo.Server.reply_status new_priority_server
handle_add_pair-replied s rt int_overflow clock update st e e' stats req pool some_order narrow v
      row narrow_pps narrow_tag modest distinct named ran =
    let p = req.pps_id in
    let b = req.bin_tag_id in
    let e1 = with_pair e p b in
    let (listed, distinct1) = handle_add_pair-IsListed e.state p b distinct in
    let c =
      Returns-at
        (run_cycle_with_dict-IsCycled_live s rt int_overflow clock update st e1 pool some_order
          (with_pair-IsReady s st e p b v row) modest)
        ran in
    let active : get e'.state.topology (key_of req) ≡ some status_active =
      c.statuses (key_of req) ∙ rw (added-pending e p b) refl in
    let new : IsNamed (pair_info p b) = record {
      named = refl;
      narrow_pps = narrow_pps;
      narrow_tag = narrow_tag;
    } in
    let found : listed.pair ≡ pair_info p b =
      IsNamed-unique listed.pair p b
        (handle_add_pair-kept e.state p b IsNamed new named listed.index listed.pair listed.at)
        narrow_pps narrow_tag listed.named in
    let at : get_elem? e1.state.pairs listed.index ≡ some (pair_info p b) =
      listed.at ∙ ap some found in
    (
      rw (added-warming e p b) refl,
      listed.index,
      rw c.pairs at,
      c.tables,
      c.ready.alive,
      cycled-reply s rt int_overflow clock update st e1 e' stats req listed.index (pair_info p b) c
          narrow distinct1 at refl active,
    )
