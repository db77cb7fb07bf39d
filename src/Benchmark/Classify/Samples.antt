-- ===== src/Benchmark/Classify/Samples.antt =====
-- The classification of a concrete scenario, with percentages as natural numbers.
use Prim.Native.String.{String}
use homedns_analytics.Common.{◌≡◌, ◌↔◌, refl, ℕ, []}
use homedns_analytics.Float.{natural_ops}
use homedns_analytics.Benchmark.Report.{
  unknown, passed, failed, StatusThresholds, PathResult, ScenarioResult, LatencyComparison,
}
use homedns_analytics.Benchmark.Classify.{
  status_severity, classify_scenario, classify_path, classify_rate, apply_rate, higher_status,
}
use homedns_analytics.Benchmark.Classify.Severity.{classify_scenario_severity}

abbrev pub usual : StatusThresholds ℕ
usual = record {
  degraded_failure_percent = 1;
  failed_failure_percent = 5;
  degraded_timeout_percent = 1;
  failed_timeout_percent = 5;
}

abbrev lenient : StatusThresholds ℕ
lenient = record usual { failed_failure_percent = 50 }

-- A path of 100 queries of which `n` failed, `t` of them by a timeout.
abbrev pub path : ℕ → ℕ → PathResult ℕ
path n t = record {
  requests = record {
    attempted = 100;
    successful = 100;
    failed = n;
    timeouts = t;
    non_timeout_failures = 0;
  };
  rates = record { success_percent = 100; failure_percent = n; timeout_percent = t };
  duration_milliseconds = 1;
  throughput = record { attempted_queries_per_second = 1; successful_queries_per_second = 1 };
  latency = record {
    sample_count = 0;
    minimum = 0;
    mean = 0;
    median = 0;
    p95 = 0;
    p99 = 0;
    maximum = 0;
  };
  failures = record {
    timeout = t;
    network = 0;
    dns_response = 0;
    invalid_response = 0;
    internal = 0;
    other = 0;
  };
}

abbrev zeros : LatencyComparison ℕ
zeros = record { mean = 0; median = 0; p95 = 0; p99 = 0 }

abbrev pub scenario : String → ℕ → ScenarioResult ℕ
scenario name n = record {
  name = name;
  protocol = "udp";
  concurrency = 1;
  query_count_per_path = 100;
  status = unknown;
  status_reasons = [];
  direct = path 0 0;
  forwarded = path n 0;
  comparison = record {
    latency_overhead_milliseconds = zeros;
    latency_overhead_percent = zeros;
    throughput_attempted = 0;
    throughput_successful = 0;
    reliability_success = 0;
    reliability_failure = 0;
    reliability_timeout = 0;
  };
}

six_percent_fail : (classify_scenario natural_ops usual (scenario "udp" 6)).status ≡ failed
unfolding classify_scenario classify_path classify_rate apply_rate higher_status
six_percent_fail = refl

classify_scenario_severity_example :
    let s = classify_scenario natural_ops usual (scenario "udp" 6) in
    (status_severity s.status ≡ 3) × ((s.status ≡ passed) ↔ (s.status_reasons ≡ []))
classify_scenario_severity_example = classify_scenario_severity natural_ops usual (scenario "udp" 6)
