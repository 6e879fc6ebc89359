-- ===== src/Engine/Served.antt =====
-- From the cycle to the answer: what GetTopK says after a cycle, through a server that shares the
-- topology and the buffer of the engine.
use priority_service_poc.Base.{
  ℕ, ◌<◌, ◌≡◌, ◌≢◌, refl, sym, ap, ◌∙◌, List, [], ◌∷◌, ◌++◌, Option, none, some, Bool, arith,
  length, get_elem?, ltb, if◌then◌else◌, true, ==_refl,
}
use priority_service_poc.Base.Run.{ok, panic, Returns, Returns-at}
use priority_service_poc.Types.{Sizes, PairInfo, CycleStats}
use priority_service_poc.Types.Runtime.{Runtime}
use priority_service_poc.Topology.{
  PairStatus, status_active, status_warming_up, status_removed, get,
}
use priority_service_poc.Topology.Lifecycle.{activating, next_status}
use priority_service_poc.Indexes.Counts.{count}
use priority_service_poc.Phase1.{ItemDictUpdate}
use priority_service_poc.Server.{
  PriorityServer, PriorityServer, GetTopKRequest, effective_k, get_top_k, new_priority_server,
  refresh_pair_index,
}
use priority_service_poc.Server.Index.{KeysDistinct, refresh_pair_index-lookup}
use priority_service_poc.Server.Answers.{IsAnswer, key_of, get_top_k-IsAnswer, get_top_k-beyond}
use priority_service_poc.Engine.{
  ComputeEngine, Clock, run_cycle_with_dict, handle_add_pair, pair_info,
}
use priority_service_poc.Engine.Ready.{IsReady}
use priority_service_poc.Engine.Promote.{keys, AllKeyed}
use priority_service_poc.Engine.Handlers.{IsTracked, handle_add_pair_lem}
use priority_service_poc.Engine.Cycle.{ranked_input, run_cycle_with_dict-IsCycled}

-- A promotion makes no removed pair active.
promoted_from :
    (hit : Bool) (o : Option PairStatus)
    → (if hit then next_status activating o else o) ≡ some status_active
    → o ≢ some status_removed
unfolding next_status
promoted_from Bool.true none h e = ground (arith, h, e)
promoted_from Bool.true (some status_active) h e = ground (arith, h, e)
promoted_from Bool.true (some status_warming_up) h e = ground (arith, h, e)
promoted_from Bool.true (some status_removed) h e = ground (arith, h, e)
promoted_from Bool.false o h e = ground (arith, h, e)

-- A request for a pair that the engine ranks and that is active once a cycle has returned is answered
-- from the buffer of that cycle, through a server made of the engine's topology, buffer and pairs of
-- distinct keys: each of the four lists ranks the top entries of the pair over the orders, scores and
-- deadlines as the cycle left them, as many as the request asks for, or `top_k` for a number out of range.
pub run_cycle-get_top_k :
    (s : Sizes) (rt : Runtime) (clock : Clock) (update : Option ItemDictUpdate)
    (e e' : ComputeEngine) (stats : CycleStats) (req : GetTopKRequest) (j : ℕ) (pair : PairInfo)
    → 0 < s.num_workers
    → IsReady s e.store
    → AllKeyed e.pending_warmup
    → KeysDistinct e.pairs
    → run_cycle_with_dict s rt clock update e ≡ ok (e', stats)
    → get_elem? e.pairs j ≡ some pair
    → key_of req ≡ pair.key
    → get e'.topology pair.key ≡ some status_active
    → Returns
        (IsAnswer s (ranked_input e e' clock) pair (effective_k s req.k))
        (get_top_k s (new_priority_server e'.topology e'.db e'.pairs) req)
unfolding new_priority_server
run_cycle-get_top_k s rt clock update e e' stats req j pair pool ready well_keyed distinct ran at
      named active =
    let cycled =
      Returns-at (run_cycle_with_dict-IsCycled s rt clock update e pool ready well_keyed) ran in
    rw cycled.pairs (
      get_top_k-IsAnswer s (ranked_input e e' clock)
        (record { topology = e'.topology; db = e'.db; pair_index = [] }) req j pair cycled.published
        distinct at named
        (promoted_from (ltb 0 (count pair.key (keys e.pending_warmup))) (get e.topology pair.key)
          (sym (cycled.statuses pair.key) ∙ active))
        active)

warming_promoted :
    (n : ℕ) (o : Option PairStatus)
    → (o ≡ some status_warming_up → 0 < n)
    → (if ltb 0 n then next_status activating o else o) ≢ some status_warming_up
unfolding next_status
warming_promoted n none h e = ground (arith, e)
warming_promoted n (some status_active) h e = ground (arith, e)
warming_promoted n (some status_removed) h e = ground (arith, e)
warming_promoted n (some status_warming_up) h e =
    let some_pending : ltb 0 n ≡ true = ground (arith, h refl) in ground (arith, e, some_pending)

-- No pair warms up for longer than one cycle: if every warming pair is pending, then no pair is warming
-- up once a cycle has returned.
pub run_cycle-none_warming :
    (s : Sizes) (rt : Runtime) (clock : Clock) (update : Option ItemDictUpdate)
    (e e' : ComputeEngine) (stats : CycleStats) (key : ℕ)
    → 0 < s.num_workers
    → IsReady s e.store
    → IsTracked e
    → run_cycle_with_dict s rt clock update e ≡ ok (e', stats)
    → get e'.topology key ≢ some status_warming_up
run_cycle-none_warming s rt clock update e e' stats key pool ready v ran warm =
    let cycled =
      Returns-at (run_cycle_with_dict-IsCycled s rt clock update e pool ready v.well_keyed) ran in
    warming_promoted (count key (keys e.pending_warmup)) (get e.topology key) (v.tracked key)
      (sym (cycled.statuses key) ∙ warm)

get_elem?-last :
    (pairs : List PairInfo) (p : PairInfo) → get_elem? (pairs ++ p ∷ []) (length pairs) ≡ some p
get_elem?-last [] p = refl
get_elem?-last (q ∷ pairs) p = get_elem?-last pairs p

-- A pair added by HandleAddPair is active after the next cycle, but the cycle made no lists for it: with
-- an index refreshed with the pairs of the engine and the new one, GetTopK of the new pair panics.
pub handle_add_pair-panic :
    (s : Sizes) (rt : Runtime) (clock : Clock) (update : Option ItemDictUpdate)
    (e e' : ComputeEngine) (stats : CycleStats) (req : GetTopKRequest)
    → 0 < s.num_workers
    → 0 < s.top_k
    → IsReady s e.store
    → IsTracked e
    → KeysDistinct (e.pairs ++ pair_info req.pps_id req.bin_tag_id ∷ [])
    → run_cycle_with_dict s rt clock update (handle_add_pair e req.pps_id req.bin_tag_id)
      ≡ ok (e', stats)
    → (get e'.topology (key_of req) ≡ some status_active)
      × (get_top_k s
            (new_priority_server e'.topology e'.db
              (e'.pairs ++ pair_info req.pps_id req.bin_tag_id ∷ []))
            req
          ≡ panic)
unfolding new_priority_server refresh_pair_index
handle_add_pair-panic s rt clock update e e' stats req pool some_k ready v distinct ran =
    let p = req.pps_id in
    let b = req.bin_tag_id in
    let new = pair_info p b in
    let (added, v', same) = handle_add_pair_lem e p b v in
    let now : get (handle_add_pair e p b).topology (key_of req) ≡ some status_warming_up =
      added (key_of req) ∙ rw (==_refl (key_of req)) refl in
    let ready' : IsReady s (handle_add_pair e p b).store = unfold handle_add_pair in ready in
    let cycled =
      Returns-at
        (run_cycle_with_dict-IsCycled s rt clock update (handle_add_pair e p b) pool ready'
          v'.well_keyed)
        ran in
    let pairs : e'.pairs ≡ e.pairs = cycled.pairs ∙ same in
    let active : get e'.topology (key_of req) ≡ some status_active =
      let some_pending : ltb 0 (count (key_of req) (keys (handle_add_pair e p b).pending_warmup))
          ≡ true =
        ground (arith, v'.tracked (key_of req) now) in
      cycled.statuses (key_of req) ∙ rw (some_pending, now) (unfold next_status in refl) in
    let all = e'.pairs ++ new ∷ [] in
    let srv : PriorityServer = record { topology = e'.topology; db = e'.db; pair_index = [] } in
    let distinct' : KeysDistinct all = rw pairs distinct in
    let rows : e'.db.ptr.num_pairs ≡ length e'.pairs =
      cycled.published.pairs ∙ ap length (sym cycled.pairs) in
    (
      active,
      get_top_k-beyond s (new_priority_server e'.topology e'.db all) req (length e'.pairs) some_k
          cycled.published.sized (omega (arith, rows)) active
          ((refresh_pair_index-lookup srv all distinct').0 (length e'.pairs) new
            (get_elem?-last e'.pairs new)),
    )
