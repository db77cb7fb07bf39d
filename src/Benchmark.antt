-- ===== src/Benchmark.antt =====
-- dns/internal/benchmark: the benchmark that compares the upstream resolver, asked directly, with
-- HomeDNS in between.
pub mod Report
pub mod Classify
pub mod Rates
pub mod Query
pub mod Runner
pub mod Progress
pub mod Path
pub mod Scenario
pub mod Suite
pub mod Service
pub mod Summary
