-- ===== src/Metrics.antt =====
-- observability/metrics.go: the in-memory metrics. The children hold the reservoirs of latencies, the
-- keys of labelled metrics, and the store itself.
pub mod Reservoir
pub mod Key
pub mod Store
