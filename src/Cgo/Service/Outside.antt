-- ===== src/Cgo/Service/Outside.antt =====
-- A cycle with a pair that has no row in the matrix.
use priority_service_poc.Types.Runtime.{Runtime}
use priority_service_poc.Registry.{OrderStore}
use priority_service_poc.Cgo.Registry.{OrderStore as CgoStore, purge_expired as cgo_purge_expired}
