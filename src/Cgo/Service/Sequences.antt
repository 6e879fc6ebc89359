-- ===== src/Cgo/Service/Sequences.antt =====
-- What holds of every engine that a sequence of events leads to.
use priority_service_poc.Base.{
  [], ℕ, zero, suc, ◌*◌, ◌+◌, ◌^◌, ◌≤◌, ◌<◌, ◌≡◌, refl, ◌∙◌, Option, some, length, replicate,
  get_elem?, List, ◌⊎◌, inr, inl, ◌∷◌, arith,
}
use priority_service_poc.Base.Int.{ℤ, pos}
use priority_service_poc.Base.Run.{ok, Returns, returns, Returns-at, Returns-value, Returns-of_eq}
use priority_service_poc.Types.{Sizes, PairInfo, CycleStats}
use priority_service_poc.Types.Runtime.{Runtime}
use priority_service_poc.Matrix.{new_pps_matrix}
use priority_service_poc.Topology.{status_active}
use priority_service_poc.Registry.{OrderStore, purge_expired}
use priority_service_poc.Buffer.{new_double_buffer}
use priority_service_poc.Server.{GetTopKRequest, effective_k, new_priority_server}
use priority_service_poc.Server.Answers.{key_of}
use priority_service_poc.Engine.{Clock, new_compute_engine}
use priority_service_poc.Engine.Promote.{no_pair}
use priority_service_poc.Engine.Ready.{new_compute_engine-IsReady}
use priority_service_poc.Cgo.Scoring.Kernel.{Short, All, All-at?}
use priority_service_poc.Cgo.Registry.{OrderStore as CgoStore, purge_expired as cgo_purge_expired}
use priority_service_poc.Cgo.Registry.Refinement.{live_store, purge_expired-live}
use priority_service_poc.Cgo.Ingest.{KafkaOrderEvent}
use priority_service_poc.Cgo.Pairs.{get}
use priority_service_poc.Cgo.Phase1.{ItemDictUpdate}
use priority_service_poc.Cgo.Phase1.Done.{ModestDeltas}
use priority_service_poc.Cgo.Server.{get_top_k}
use priority_service_poc.Cgo.Setup.{build_topology}
use priority_service_poc.Cgo.Setup.Built.{build_topology-IsStarted}
use priority_service_poc.Cgo.Engine.{ComputeEngine, handle_order_removed, run_cycle_with_dict}
use priority_service_poc.Cgo.Engine.Cycle.{zero_Short, run_cycle_with_dict-IsCycled_live, IsCycled}
use priority_service_poc.Cgo.Engine.Served.{IsTopReply, run_cycle-get_top_k_replied}
use priority_service_poc.Cgo.Service.{
  ingest, start, Reached, started, ingested, order_removed, pair_added, pair_removed, cycled,
}
use native.Mathlib.Decide.{dec_lt}
use priority_service_poc.Base.Run.{Yields}
use priority_service_poc.Cgo.Engine.Kept.{run_cycle_with_dict-IsCycleKept}
use priority_service_poc.Cgo.Pairs.{promote_warming_pairs}
use priority_service_poc.Cgo.Service.Serving.{
  AllInRows, IsServing-IsReady, ingested-IsServing, IsServing, ingest-IsServing,
  handle_order_removed-IsServing, with_pair-IsServing, handle_remove_pair-IsServing,
}

zeros-Short : (n : ℕ) → All Short (replicate n (pos 0))
zeros-Short zero = tt
zeros-Short (suc n) = (zero_Short, zeros-Short n)

-- The sizes that the program's constants have.
pub record IsConfigured (s : Sizes) : Type 0 where
  pub some_worker : 0 < s.num_workers
  pub some_order : 0 < s.num_orders
  pub some_row : 0 < s.num_pps
  pub few_rows : s.num_pps ≤ 2 ^ 32
  pub few_tags : s.num_bin_tags ≤ 2 ^ 32

-- A pair of the engine has no row in the matrix.
pub record LacksRow (s : Sizes) (e : ComputeEngine) : Type 0 where
  pub index : ℕ
  pub pair : PairInfo
  pub at : get_elem? e.state.pairs index ≡ some pair
  pub outside : s.num_pps ≤ pair.pps_id

rows_of_cons :
    (n : ℕ) (p : PairInfo) (pairs : List PairInfo)
    → p.pps_id < n
    → ((j : ℕ) (pair : PairInfo) → get_elem? pairs j ≡ some pair → pair.pps_id < n)
    → (j : ℕ) (pair : PairInfo) → get_elem? (p ∷ pairs) j ≡ some pair
    → pair.pps_id < n
rows_of_cons n p pairs inside rest zero pair at = let same : p ≡ pair = cc at in rw (← same) inside
rows_of_cons n p pairs inside rest (suc j) pair at = rest j pair at

find_outside :
    (n : ℕ) (pairs : List PairInfo)
    → ((j : ℕ) × (pair : PairInfo) × (get_elem? pairs j ≡ some pair) × (n ≤ pair.pps_id))
      ⊎ ((j : ℕ) (pair : PairInfo) → get_elem? pairs j ≡ some pair → pair.pps_id < n)
find_outside n [] = inr λ j pair at. absurd (cc at)
find_outside n (p ∷ pairs) = elim (dec_lt p.pps_id n) [
  | no outside ↦ inl (0, p, refl, omega arith)
  | yes inside ↦ elim (find_outside n pairs) [
    | inl (j, pair, at, out) ↦ inl (suc j, pair, at, out)
    | inr rows ↦ inr (rows_of_cons n p pairs inside rows)
  ]
]

find_row : (s : Sizes) (e : ComputeEngine) → LacksRow s e ⊎ AllInRows s e
find_row s e = elim (find_outside s.num_pps e.state.pairs) [
  | inl (j, pair, at, out) ↦ inl (record { index = j; pair = pair; at = at; outside = out })
  | inr rows ↦ inr rows
]

module _ (s : Sizes) (sizes : IsConfigured s) where
  start-IsServing : (num_workers : ℤ) → Returns (IsServing s) (start s num_workers)
  unfolding start new_compute_engine new_pps_matrix
  start-IsServing num_workers =
      let fresh =
        new_compute_engine s (build_topology s).1
          (new_double_buffer s (length (build_topology s).1)) (build_topology s).0 num_workers in
      let b = build_topology-IsStarted s sizes.few_rows sizes.few_tags in
      returns (record {
        tables = fresh.store;
        live = record {
          alive = refl;
          valid =
              (new_compute_engine-IsReady s (build_topology s).1
                (new_double_buffer s (length (build_topology s).1)) (build_topology s).0 num_workers
                sizes.some_row).valid;
          some_row = sizes.some_row;
          short = λ p o v hp ho e.
              All-at? Short (replicate (s.num_pps * s.num_orders) (pos 0)) (p * s.num_orders + o) v
                (zeros-Short (s.num_pps * s.num_orders)) e;
        };
        rows = refl;
        well_keyed = no_pair;
        distinct = b.distinct;
      })

  module _ (rt : Runtime) (int_overflow : ℤ → ℤ) where
    modest_live :
        (st : OrderStore) (e : ComputeEngine) (clock : Clock) (update : Option ItemDictUpdate)
        → e.store ≡ live_store st
        → ((st' : CgoStore)
            → cgo_purge_expired s e.store clock.now_secs ≡ ok st'
            → ModestDeltas s rt st'.indexes update)
        → (st' : OrderStore) → purge_expired s st clock.now_secs ≡ ok st'
        → ModestDeltas s rt st'.indexes update
    modest_live st e clock update alive modest st' ran =
        modest (live_store st') (rw (alive, purge_expired-live s st clock.now_secs, ran) refl)

    run_cycle_with_dict-IsServing :
        (e : ComputeEngine) (clock : Clock) (update : Option ItemDictUpdate)
        → IsServing s e
        → ((st' : CgoStore)
            → cgo_purge_expired s e.store clock.now_secs ≡ ok st'
            → ModestDeltas s rt st'.indexes update)
        → Yields (λ r. IsServing s r.0) (run_cycle_with_dict s rt int_overflow clock update e)
    unfolding promote_warming_pairs
    run_cycle_with_dict-IsServing e clock update v modest r ran =
        let k =
          run_cycle_with_dict-IsCycleKept s rt int_overflow clock update v.tables e
            sizes.some_worker sizes.some_order v.live
            (modest_live v.tables e clock update v.live.alive modest) r ran in
        record {
          tables = k.tables;
          live = k.live;
          rows = k.rows ∙ v.rows;
          well_keyed = rw k.promoted no_pair;
          distinct = rw k.promoted v.distinct;
        }

    run_cycle_with_dict-IsCycled_serving :
        (e : ComputeEngine) (clock : Clock) (update : Option ItemDictUpdate) (v : IsServing s e)
        → AllInRows s e
        → ((st' : CgoStore)
            → cgo_purge_expired s e.store clock.now_secs ≡ ok st'
            → ModestDeltas s rt st'.indexes update)
        → Returns
            (λ r. IsCycled s rt clock update v.tables e r.0)
            (run_cycle_with_dict s rt int_overflow clock update e)
    run_cycle_with_dict-IsCycled_serving e clock update v rows modest =
        run_cycle_with_dict-IsCycled_live s rt int_overflow clock update v.tables e
          sizes.some_worker sizes.some_order (IsServing-IsReady v rows)
          (modest_live v.tables e clock update v.live.alive modest)

    pub Reached-IsServing : (e : ComputeEngine) → Reached s rt int_overflow e → IsServing s e
    Reached-IsServing e (started num_workers ran) = Returns-at (start-IsServing num_workers) ran
    Reached-IsServing e (ingested evt now_secs {e = e0} r ran) =
        ingested-IsServing s e0 (Reached-IsServing e0 r) rt evt now_secs e ran
    Reached-IsServing e (order_removed oid {e = e0} r ran) =
        Returns-at (handle_order_removed-IsServing s e0 (Reached-IsServing e0 r) oid) ran
    Reached-IsServing e (pair_added p b {e = e0} r) =
        with_pair-IsServing s e0 (Reached-IsServing e0 r) p b
    Reached-IsServing e (pair_removed p b {e = e0} r) =
        handle_remove_pair-IsServing s e0 (Reached-IsServing e0 r) p b
    Reached-IsServing e (cycled clock update {e = e0} stats r modest ran) =
        run_cycle_with_dict-IsServing e0 clock update (Reached-IsServing e0 r) modest (e, stats) ran

  -- In a service with a goroutine, an order slot and a row at least and at most 2^32 stations and bin
  -- tags: the start returns, with any number of workers. Every engine that a sequence of events leads to
  -- (of orders, of pairs with a row in the matrix or without, and of cycles that returned, with deltas
  -- that keep every sum within an int32) has a valid store with a matrix of all rows and pairs of distinct
  -- keys, and goes on: the event of an order in range and the removal of any order return, and either
  -- a pair of the engine has no row, or the next cycle, with such deltas, returns, without a panic or
  -- undefined behaviour.
  pub Reached-Returns :
      (rt : Runtime) (int_overflow : ℤ → ℤ) (e : ComputeEngine) (clock : Clock)
      (update : Option ItemDictUpdate) (evt : KafkaOrderEvent) (now_secs : ℤ) (order_id : ℕ)
      (num_workers : ℤ)
      → Reached s rt int_overflow e
      → evt.order_id < s.num_orders
      → ((st : CgoStore)
          → cgo_purge_expired s e.store clock.now_secs ≡ ok st
          → ModestDeltas s rt st.indexes update)
      → Returns (Reached s rt int_overflow) (start s num_workers)
        × IsServing s e
        × Returns (Reached s rt int_overflow) (ingest s rt evt now_secs e)
        × Returns (Reached s rt int_overflow) (handle_order_removed s e order_id)
        × (LacksRow s e
            ⊎ Returns
                (λ r. Reached s rt int_overflow r.0)
                (run_cycle_with_dict s rt int_overflow clock update e))
  Reached-Returns rt int_overflow e clock update evt now_secs order_id num_workers r inside modest =
      let v = Reached-IsServing rt int_overflow e r in
      let (e0, ran0, v0) = Returns-value (start-IsServing num_workers) in
      let (e1, ran1, v1) = Returns-value (ingest-IsServing s e v rt evt now_secs inside) in
      let (e2, ran2, v2) = Returns-value (handle_order_removed-IsServing s e v order_id) in
      (
        Returns-of_eq ran0 (started num_workers ran0),
        v,
        Returns-of_eq ran1 (ingested evt now_secs r ran1),
        Returns-of_eq ran2 (order_removed order_id r ran2),
        elim (find_row s e) [
          | inl lacking ↦ inl lacking
          | inr rows ↦
              let (r3, ran3, c) = Returns-value (
                run_cycle_with_dict-IsCycled_serving rt int_overflow e clock update v rows
                  modest) in
              inr (Returns-of_eq ran3 (cycled clock update r3.1 r modest ran3))
        ],
      )

  -- In a service with a goroutine, an order slot and a row at least and at most 2^32 stations and bin
  -- tags and 2^31 orders, after any such sequence of events, if every pair of the engine has a row: once a
  -- cycle with deltas that keep every sum within an int32 has returned, the server answers a request
  -- for a pair of the engine that is active by then, without a panic: each of the four lists names the
  -- top entries of the pair over the store that the cycle left, in descending order of score, as many
  -- as the request asks for or `top_k` for a number out of range, all if there are fewer.
  pub Reached-replied :
      (rt : Runtime) (int_overflow : ℤ → ℤ) (e e' : ComputeEngine) (clock : Clock)
      (update : Option ItemDictUpdate) (stats : CycleStats) (req : GetTopKRequest) (j : ℕ)
      (pair : PairInfo)
      → s.num_orders ≤ 2 ^ 31
      → Reached s rt int_overflow e
      → AllInRows s e
      → ((st : CgoStore)
          → cgo_purge_expired s e.store clock.now_secs ≡ ok st
          → ModestDeltas s rt st.indexes update)
      → run_cycle_with_dict s rt int_overflow clock update e ≡ ok (e', stats)
      → get_elem? e.state.pairs j ≡ some pair
      → key_of req ≡ pair.key
      → get e'.state.topology pair.key ≡ some status_active
      → (tables : OrderStore) × (e'.store ≡ live_store tables)
        × Returns
            (IsTopReply s tables clock.now_secs pair (effective_k s req.k))
            (get_top_k s (new_priority_server e'.state.topology e'.db e'.state.pairs) req)
  Reached-replied rt int_overflow e e' clock update stats req j pair narrow r rows modest ran at
        named active =
      let v = Reached-IsServing rt int_overflow e r in
      run_cycle-get_top_k_replied s rt int_overflow clock update v.tables e e' stats req j pair
        sizes.some_worker sizes.some_order narrow (IsServing-IsReady v rows)
        (modest_live rt int_overflow v.tables e clock update v.live.alive modest) v.distinct ran at
        named active
