-- ===== src/Benchmark/Classify.antt =====
-- dns/internal/benchmark/report_runner.go: how paths and scenarios are classified against the
-- acceptance thresholds.
pub mod Severity
pub mod Samples
use Prim.Native.String.{String}
use homedns_analytics.Common.{
  ℕ, Bool, Option, none, some, List, [], ◌∷◌, ◌++◌, map, ltb, ◌&&◌, ◌||◌, is_positive,
  if◌then◌else◌,
}
use homedns_analytics.Float.{FloatOps}
use homedns_analytics.Benchmark.Report.{
  Status, unknown, passed, degraded, failed, invalid, StatusThresholds, StatusReason, PathResult,
  ScenarioResult,
}

unfoldable pub status_severity : Status → ℕ
status_severity passed = 1
status_severity degraded = 2
status_severity failed = 3
status_severity invalid = 4
status_severity unknown = 0

unfoldable pub higher_status : Status → Status → Status
unfolding status_severity
higher_status current candidate =
    if ltb (status_severity current) (status_severity candidate) then candidate else current

-- The errors of `validateStatusThresholds`, in the order of the tests.
pub data ThresholdError : Type 0 where
  negative_degraded_failure negative_failed_failure : ThresholdError
  negative_degraded_timeout negative_failed_timeout : ThresholdError
  failure_out_of_order timeout_out_of_order : ThresholdError

module _ {F : Type 0} (ops : FloatOps F) where
  open ops use {of_int, lt, le, eq}

  -- `thresholds == (StatusThresholds{})`
  abbrev pub is_unset : StatusThresholds F → Bool
  is_unset t =
      eq t.degraded_failure_percent (of_int 0)
      && eq t.failed_failure_percent (of_int 0)
      && eq t.degraded_timeout_percent (of_int 0)
      && eq t.failed_timeout_percent (of_int 0)

  unfoldable pub resolved_status_thresholds : StatusThresholds F → StatusThresholds F
  resolved_status_thresholds t =
      if is_unset t
      then record {
        degraded_failure_percent = of_int 1;
        failed_failure_percent = of_int 5;
        degraded_timeout_percent = of_int 1;
        failed_timeout_percent = of_int 5;
      }
      else t

  unfoldable pub validate_status_thresholds : StatusThresholds F → Option ThresholdError
  validate_status_thresholds t =
      if lt t.degraded_failure_percent (of_int 0)
      then some negative_degraded_failure
      else if lt t.failed_failure_percent (of_int 0)
      then some negative_failed_failure
      else if lt t.degraded_timeout_percent (of_int 0)
      then some negative_degraded_timeout
      else if lt t.failed_timeout_percent (of_int 0)
      then some negative_failed_timeout
      else if lt t.failed_failure_percent t.degraded_failure_percent
      then some failure_out_of_order
      else if lt t.failed_timeout_percent t.degraded_timeout_percent
      then some timeout_out_of_order
      else none

  abbrev reason_at : String → String → String → F → F → String → StatusReason F
  reason_at code scenario path observed threshold message = record {
    code = code;
    scenario = scenario;
    path = path;
    observed = some observed;
    threshold = some threshold;
    message = message;
  }

  unfoldable pub classify_rate :
      (code scenario path : String) (observed degraded_threshold failed_threshold : F)
      (message : String)
      → Status × Option (StatusReason F)
  classify_rate code scenario path observed degraded_threshold failed_threshold message =
      if le failed_threshold observed
      then (failed, some (reason_at code scenario path observed failed_threshold message))
      else if le degraded_threshold observed
      then (degraded, some (reason_at code scenario path observed degraded_threshold message))
      else (passed, none)

  -- `if reason != nil { scenario.Status = …; scenario.StatusReasons = append(…) }`
  unfoldable pub apply_rate : Status × Option (StatusReason F) → ScenarioResult F → ScenarioResult F
  apply_rate (status, none) s = s
  apply_rate (status, some reason) s = record s {
    status = higher_status s.status status;
    status_reasons = s.status_reasons ++ (reason ∷ []);
  }

  unfoldable pub classify_path :
      String → PathResult F → StatusThresholds F → ScenarioResult F → ScenarioResult F
  classify_path path_name path t s =
      if is_positive path.requests.attempted
      then apply_rate
          (classify_rate "QUERY_TIMEOUT_RATE_EXCEEDED" s.name path_name path.rates.timeout_percent
            t.degraded_timeout_percent t.failed_timeout_percent
            "query timeout rate exceeded its acceptance threshold")
          (apply_rate
            (classify_rate "QUERY_FAILURE_RATE_EXCEEDED" s.name path_name path.rates.failure_percent
              t.degraded_failure_percent t.failed_failure_percent
              "query failure rate exceeded its acceptance threshold")
            s)
      else record s {
        status = higher_status s.status invalid;
        status_reasons =
            s.status_reasons
            ++ (record {
              code = "NO_REQUESTS_ATTEMPTED";
              scenario = s.name;
              path = path_name;
              observed = none;
              threshold = none;
              message = "path attempted no DNS queries";
            }
                ∷ []);
      }

  unfoldable pub classify_scenario : StatusThresholds F → ScenarioResult F → ScenarioResult F
  classify_scenario t s =
      let fresh : ScenarioResult F = record s { status = passed; status_reasons = [] } in
      classify_path "forwarded" s.forwarded t (classify_path "direct" s.direct t fresh)

  unfoldable pub classify_scenarios :
      StatusThresholds F → List (ScenarioResult F) → List (ScenarioResult F)
  classify_scenarios t = map (classify_scenario t)
