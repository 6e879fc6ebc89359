-- ===== src/Lib.antt =====
-- The two Go variants of the priority service, the pure one and the one with a C kernel. An in-memory
-- service ranks the orders of a warehouse for every pair of a put-to-light station (PPS) and a bin tag.
-- Order events fill a registry, two inverted indexes and a matrix of scores; a compute cycle purges
-- expired orders, moves the scores by a batch of deltas (Phase 1), ranks the orders of every pair for
-- four tables (Phase 2) and publishes the ranked lists; a server answers requests from the published
-- lists, for the pairs that the topology says are active.
--
-- The parts, with the files of the repository that they model:
--   Types      go-pure-impl/types.go: the constants, PairKey, the structs. Types/Float is IEEE 754
--              single precision, Types/Runtime what the program takes from Go's runtime and library.
--   Matrix     go-pure-impl/types.go: PPSMatrix.
--   Buffer     go-pure-impl/types.go: ReadBuffer and DoubleBuffer.
--   Topology   go-pure-impl/topology.go: the status of every pair.
--   Indexes    go-pure-impl/registry.go: InvertedIndexes.
--   Registry   go-pure-impl/registry.go: OrderRegistry, EvictOrder and PurgeExpired.
--   Ingest     go-pure-impl/mock.go: IngestOrder.
--   Select     go-pure-impl/compute.go: medianOfThree, partitionDesc and quickselectTopK.
--   Phase1     go-pure-impl/compute.go: clampInt16, applyDeltaToRow and phase1Update.
--   Rank       go-pure-impl/compute.go: quickselectAndCopy and the body of the loop of phase2Rank.
--   Phase2     go-pure-impl/compute.go: phase2Rank and ensureScratch.
--   Engine     go-pure-impl/compute.go: ComputeEngine, its handlers and RunCycle.
--   Server     go-pure-impl/server.go: PriorityServer.
--   Setup      go-pure-impl/main.go and config.go: buildPairs and initFromEnv.
--   Cgo        the variant with a C kernel, where it differs from the pure one:
--     Scoring    go-cgo-impl/scoring_bridge.go and scoring.c: the matrix on the C heap and the kernel.
--     Registry   go-cgo-impl/registry.go: Upsert and Deactivate, which test the range, EvictOrder and
--                PurgeExpired.
--     Ingest     go-cgo-impl/mock.go: IngestOrder.
--     Rank       go-cgo-impl/compute.go: quickselectTopK, quickselectAndCopy, the body of phase2Rank.
--     Phase1     go-cgo-impl/compute.go: phase1Update.
--     Pairs      go-cgo-impl/topology.go and compute.go: the topology, whose Activate has no condition,
--                and the pairs of the engine.
--     Engine     go-cgo-impl/compute.go: ComputeEngine and RunCycleWithDict.
--     Server     go-cgo-impl/server.go and types.go: GetTopK and GetList.
--     Setup      go-cgo-impl/main.go: the topology and the pairs that the service starts with.
--     Service    the engine from its start through events and cycles in any order, as a relation of the
--                events that ran to their end.
--   Examples   runs at small sizes.
--   Base       what the parts share: lists over the native numbers, integers by their positive and
--              negative parts with the wrap-around of int32 and int64, association lists for Go maps,
--              the result of a piece of Go code, and slices of an array.
--
-- How the model corresponds to the code:
--   * A function of the source is a function of the same name in this spelling; a method takes its
--     receiver, and returns it if it changes it. `Run` is the result of code that indexes an array: it
--     returns, or it panics. Loops have a function of their own, on the rounds that are left.
--   * The sizes of the arrays are a record, and the theorems hold for all of them; `production` has the
--     values of the program. Identifiers are natural numbers, times and scores are integers.
--   * int32 and int64 arithmetic wraps around where the code subtracts times and adds scores.
--   * Go maps are association lists. Only WarmingUpPairs depends on the order of iteration, which Go leaves
--     open: there it is an argument.
--   * The goroutines of a phase own disjoint rows or pairs and are joined before the phase returns, so
--     they run one after the other. A topology write holds a mutex and publishes a new map, a buffer is
--     published by one atomic store: each is one step.
--   * Quickselect runs on fuel, one round for each entry, and the loop that starts the goroutines of
--     Phase 1 on one round for each row and one more. Both are shown to be enough.
--   * The loops of Phase 2 that split the pairs over goroutines are the same in both variants: they take
--     the body for one pair as an argument (`RankOne`), which each variant fills.
--   * The matrix of the C variant is an optional array, none once it is freed. A read or a write outside
--     of it is undefined in C and a `panic` here, so a theorem that a run returns says that the run stays
--     inside. The kernel adds in C's int: what the compiled code makes of a sum that does not fit is the
--     parameter `int_overflow`; the theorems suppose that the deltas keep every sum in range.
--     IngestOrder is given a matrix pointer that is not nil.
--   * sort.Slice is a parameter with its documented behaviour, and so is the conversion of a float32 that
--     does not fit an int32, which Go leaves open. The readings of the clock are an argument of a cycle.
--
-- Not modelled: the mock clients and streams, which draw random values and sleep; the settings of the Go
-- runtime and the printing in config.go and main.go of both variants; buildSyntheticDelta; CInitScores,
-- which nothing calls; what the C variant repeats of the pure one without a change (the inverted indexes,
-- the buffers, the pair index, the partition of Quickselect); the variants in other languages.
pub mod Base
pub mod Types
pub mod Matrix
pub mod Buffer
pub mod Topology
pub mod Indexes
pub mod Select
pub mod Registry
pub mod Ingest
pub mod Rank
pub mod Phase1
pub mod Phase2
pub mod Engine
pub mod Server
pub mod Examples
pub mod Setup
pub mod Cgo
