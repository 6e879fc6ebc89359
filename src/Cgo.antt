-- ===== src/Cgo.antt =====
-- go-cgo-impl: the variant with a C kernel.
pub mod Scoring
pub mod Registry
pub mod Ingest
pub mod Rank
pub mod Phase1
pub mod Pairs
pub mod Engine
pub mod Setup
pub mod Service
pub mod Server
