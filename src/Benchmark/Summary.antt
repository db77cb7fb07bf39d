-- ===== src/Benchmark/Summary.antt =====
-- dns/internal/benchmark/report_runner.go, and the summary types of report.go: how the classified
-- scenarios are summed up.
pub mod Totals
pub mod Verdict
pub mod Worst
mod Samples
use Prim.Native.String.{String}
use homedns_analytics.Common.{
  ℕ, Bool, true, false, not, Option, none, some, List, [], ◌∷◌, ◌++◌, add64, is_positive,
  if◌then◌else◌,
}
use homedns_analytics.Float.{FloatOps}
use homedns_analytics.Benchmark.Report.{
  Status, unknown, passed, degraded, failed, invalid, StatusReason, RequestCounts, RequestRates,
  ThroughputMetrics, PathResult, ScenarioResult,
}
use homedns_analytics.Benchmark.Rates.{calculate_request_rates, calculate_throughput}

pub record ReliabilityPathSummary (F : Type 0) : Type 0 where
  pub requests : RequestCounts
  pub rates : RequestRates F

pub record ScenarioStatusSummary : Type 0 where
  pub passed : List String
  pub degraded : List String
  pub failed : List String
  pub invalid : List String

pub record WorstScenarioSummary (F : Type 0) : Type 0 where
  pub name : String
  pub path : String
  pub failure_percent : F
  pub timeout_percent : F
  pub p95_successful_latency_milliseconds : F

-- `Stability` is left out: `summarizeScenarios` does not write it.
pub record BenchmarkSummary (F : Type 0) : Type 0 where
  pub status : Status
  pub status_reasons : List (StatusReason F)
  pub notes : List String
  pub requests : RequestCounts
  pub rates : RequestRates F
  pub throughput : ThroughputMetrics F
  pub direct : ReliabilityPathSummary F
  pub forwarded : ReliabilityPathSummary F
  pub scenario_results : ScenarioStatusSummary
  pub worst_scenario : Option (WorstScenarioSummary F)

abbrev pub no_requests : RequestCounts
no_requests = record {
  attempted = 0;
  successful = 0;
  failed = 0;
  timeouts = 0;
  non_timeout_failures = 0;
}

unfoldable pub accumulate_path_summary : RequestCounts → RequestCounts → RequestCounts
accumulate_path_summary total path = record {
  attempted = add64 total.attempted path.attempted;
  successful = add64 total.successful path.successful;
  failed = add64 total.failed path.failed;
  timeouts = add64 total.timeouts path.timeouts;
  non_timeout_failures = add64 total.non_timeout_failures path.non_timeout_failures;
}

-- The `switch` of `accumulateScenarioStatus`.
unfoldable pub file_scenario : Status → String → ScenarioStatusSummary → ScenarioStatusSummary
file_scenario passed name r = record r { passed = r.passed ++ (name ∷ []) }
file_scenario degraded name r = record r { degraded = r.degraded ++ (name ∷ []) }
file_scenario failed name r = record r { failed = r.failed ++ (name ∷ []) }
file_scenario _ name r = record r { invalid = r.invalid ++ (name ∷ []) }

abbrev is_nonempty : List String → Bool
is_nonempty [] = false
is_nonempty (x ∷ xs) = true

unfoldable pub summarize_scenario_statuses : ScenarioStatusSummary → Status
summarize_scenario_statuses r =
    if is_nonempty r.invalid
    then invalid
    else if is_nonempty r.failed
    then failed
    else if is_nonempty r.degraded
    then degraded
    else if is_nonempty r.passed
    then passed
    else unknown

module _ {F : Type 0} (ops : FloatOps F) where
  open ops use {of_int, to_int, mul, le, lt, eq}

  unfoldable pub is_worse_scenario : WorstScenarioSummary F → WorstScenarioSummary F → Bool
  is_worse_scenario candidate current =
      if not (eq candidate.failure_percent current.failure_percent)
      then lt current.failure_percent candidate.failure_percent
      else if not (eq candidate.timeout_percent current.timeout_percent)
      then lt current.timeout_percent candidate.timeout_percent
      else lt current.p95_successful_latency_milliseconds
          candidate.p95_successful_latency_milliseconds

  abbrev pub candidate_of : String → String → PathResult F → WorstScenarioSummary F
  candidate_of name path_name path = record {
    name = name;
    path = path_name;
    failure_percent = path.rates.failure_percent;
    timeout_percent = path.rates.timeout_percent;
    p95_successful_latency_milliseconds = path.latency.p95;
  }

  -- `updateWorstScenario`, on the field that it writes.
  unfoldable pub update_worst_scenario :
      String
      → String
      → PathResult F
      → Option (WorstScenarioSummary F)
      → Option (WorstScenarioSummary F)
  update_worst_scenario name path_name path none = some (candidate_of name path_name path)
  update_worst_scenario name path_name path (some current) =
      if is_worse_scenario (candidate_of name path_name path) current
      then some (candidate_of name path_name path)
      else some current

  unfoldable pub calculate_summary_throughput : RequestCounts → F → ThroughputMetrics F
  unfolding calculate_throughput
  calculate_summary_throughput requests duration =
      if le duration (of_int 0)
      then record {
        attempted_queries_per_second = of_int 0;
        successful_queries_per_second = of_int 0;
      }
      else calculate_throughput ops requests (to_int (mul duration (of_int 1_000_000)))

  abbrev no_rates : RequestRates F
  no_rates = record {
    success_percent = of_int 0;
    failure_percent = of_int 0;
    timeout_percent = of_int 0;
  }

  unfoldable pub new_benchmark_summary : BenchmarkSummary F
  new_benchmark_summary = record {
    status = unknown;
    status_reasons = [];
    notes = [];
    requests = no_requests;
    rates = no_rates;
    throughput = record {
      attempted_queries_per_second = of_int 0;
      successful_queries_per_second = of_int 0;
    };
    direct = record { requests = no_requests; rates = no_rates };
    forwarded = record { requests = no_requests; rates = no_rates };
    scenario_results = record { passed = []; degraded = []; failed = []; invalid = [] };
    worst_scenario = none;
  }

  -- The body of the loop over the scenarios.
  unfoldable pub accumulate_scenario : BenchmarkSummary F → ScenarioResult F → BenchmarkSummary F
  accumulate_scenario b s = record b {
    requests =
        accumulate_path_summary (accumulate_path_summary b.requests s.direct.requests)
          s.forwarded.requests;
    direct = record {
      requests = accumulate_path_summary b.direct.requests s.direct.requests;
      rates = b.direct.rates;
    };
    forwarded = record {
      requests = accumulate_path_summary b.forwarded.requests s.forwarded.requests;
      rates = b.forwarded.rates;
    };
    status_reasons = b.status_reasons ++ s.status_reasons;
    scenario_results = file_scenario s.status s.name b.scenario_results;
    worst_scenario =
        update_worst_scenario s.name "forwarded" s.forwarded
          (update_worst_scenario s.name "direct" s.direct b.worst_scenario);
  }

  unfoldable pub accumulate_all : BenchmarkSummary F → List (ScenarioResult F) → BenchmarkSummary F
  accumulate_all b [] = b
  accumulate_all b (s ∷ ss) = accumulate_all (accumulate_scenario b s) ss

  -- What `summarizeScenarios` does after the loop.
  unfoldable pub finish_summary : F → BenchmarkSummary F → BenchmarkSummary F
  finish_summary duration b = record b {
    rates = calculate_request_rates ops b.requests;
    direct = record {
      requests = b.direct.requests;
      rates = calculate_request_rates ops b.direct.requests;
    };
    forwarded = record {
      requests = b.forwarded.requests;
      rates = calculate_request_rates ops b.forwarded.requests;
    };
    throughput = calculate_summary_throughput b.requests duration;
    status = summarize_scenario_statuses b.scenario_results;
    notes =
        b.notes
        ++ (if is_positive b.requests.failed then "one or more DNS queries failed" ∷ [] else [])
        ++ (if is_positive b.requests.timeouts
            then "one or more DNS queries timed out" ∷ []
            else []);
  }

  abbrev nothing_executed : StatusReason F
  nothing_executed = record {
    code = "NO_SCENARIOS_EXECUTED";
    scenario = "";
    path = "";
    observed = none;
    threshold = none;
    message = "no benchmark scenarios were executed";
  }

  unfoldable pub summarize_scenarios : List (ScenarioResult F) → F → BenchmarkSummary F
  summarize_scenarios [] duration = record new_benchmark_summary {
    status = invalid;
    status_reasons = nothing_executed ∷ [];
    notes = "no benchmark scenarios were executed" ∷ [];
  }
  summarize_scenarios (s ∷ ss) duration =
      finish_summary duration (accumulate_all new_benchmark_summary (s ∷ ss))
