-- ===== src/Benchmark/Rates.antt =====
-- dns/internal/benchmark/runner.go: reliability percentages and throughput from request counts.
use homedns_analytics.Common.{ℕ, is_positive, if◌then◌else◌}
use homedns_analytics.Float.{FloatOps, round_six, seconds}
use homedns_analytics.Benchmark.Report.{RequestCounts, RequestRates, ThroughputMetrics}

module _ {F : Type 0} (ops : FloatOps F) where
  open ops use {of_int, div, mul}

  unfoldable pub calculate_request_rates : RequestCounts → RequestRates F
  calculate_request_rates r =
      if is_positive r.attempted
      then record {
        success_percent = percent r.successful;
        failure_percent = percent r.failed;
        timeout_percent = percent r.timeouts;
      }
      else record {
        success_percent = of_int 0;
        failure_percent = of_int 0;
        timeout_percent = of_int 0;
      }
    where
      percent : ℕ → F
      percent n = round_six ops (mul (div (of_int n) (of_int r.attempted)) (of_int 100))

  unfoldable pub calculate_throughput : RequestCounts → ℕ → ThroughputMetrics F
  calculate_throughput r elapsed =
      if is_positive elapsed
      then record {
        attempted_queries_per_second =
            round_six ops (div (of_int r.attempted) (seconds ops elapsed));
        successful_queries_per_second =
            round_six ops (div (of_int r.successful) (seconds ops elapsed));
      }
      else record {
        attempted_queries_per_second = of_int 0;
        successful_queries_per_second = of_int 0;
      }
