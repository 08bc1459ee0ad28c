-- ===== src/Metrics.antt =====
-- internal/metrics: the counters, and the state that a service call works on.
pub mod Admin
pub mod World
pub mod Serves
