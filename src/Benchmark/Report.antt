-- ===== src/Benchmark/Report.antt =====
-- dns/internal/benchmark/report.go: the data of a benchmark report, over a type of floats. Counts
-- are signed words.
use Prim.Native.String.{String}
use homedns_analytics.Common.{ℕ, Option, List}

-- `StatusUnknown` to `StatusInvalid`.
pub data Status : Type 0 where
  unknown passed degraded failed invalid : Status

pub record StatusThresholds (F : Type 0) : Type 0 where
  pub degraded_failure_percent : F
  pub failed_failure_percent : F
  pub degraded_timeout_percent : F
  pub failed_timeout_percent : F

pub record StatusReason (F : Type 0) : Type 0 where
  pub code : String
  pub scenario : String
  pub path : String
  pub observed : Option F
  pub threshold : Option F
  pub message : String

pub record RequestCounts : Type 0 where
  pub attempted : ℕ
  pub successful : ℕ
  pub failed : ℕ
  pub timeouts : ℕ
  pub non_timeout_failures : ℕ

pub record RequestRates (F : Type 0) : Type 0 where
  pub success_percent : F
  pub failure_percent : F
  pub timeout_percent : F

pub record ThroughputMetrics (F : Type 0) : Type 0 where
  pub attempted_queries_per_second : F
  pub successful_queries_per_second : F

pub record SuccessfulLatencyStatistics (F : Type 0) : Type 0 where
  pub sample_count : ℕ
  pub minimum : F
  pub mean : F
  pub median : F
  pub p95 : F
  pub p99 : F
  pub maximum : F

pub record FailureBreakdown : Type 0 where
  pub timeout : ℕ
  pub network : ℕ
  pub dns_response : ℕ
  pub invalid_response : ℕ
  pub internal : ℕ
  pub other : ℕ

pub record PathResult (F : Type 0) : Type 0 where
  pub requests : RequestCounts
  pub rates : RequestRates F
  pub duration_milliseconds : F
  pub throughput : ThroughputMetrics F
  pub latency : SuccessfulLatencyStatistics F
  pub failures : FailureBreakdown

pub record LatencyComparison (F : Type 0) : Type 0 where
  pub mean : F
  pub median : F
  pub p95 : F
  pub p99 : F

pub record ScenarioComparison (F : Type 0) : Type 0 where
  pub latency_overhead_milliseconds : LatencyComparison F
  pub latency_overhead_percent : LatencyComparison F
  pub throughput_attempted : F
  pub throughput_successful : F
  pub reliability_success : F
  pub reliability_failure : F
  pub reliability_timeout : F

pub record ScenarioResult (F : Type 0) : Type 0 where
  pub name : String
  pub protocol : String
  pub concurrency : ℕ
  pub query_count_per_path : ℕ
  pub status : Status
  pub status_reasons : List (StatusReason F)
  pub direct : PathResult F
  pub forwarded : PathResult F
  pub comparison : ScenarioComparison F
