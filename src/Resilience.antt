-- ===== src/Resilience.antt =====
-- observability/resilience.go: the circuit breaker and the resilient round tripper. The children of
-- this module hold the definitions and the proofs of each.
pub mod Breaker
pub mod Retry
mod Tests
