-- ===== src/Benchmark/Service.antt =====
-- dns/internal/benchmark/service.go, and the validations of report_runner.go and resource_collector.go:
-- one benchmark execution. The report runner and the writer of the report are arguments, over a type
-- of reports. The metadata that is only copied into the report is left out.
pub mod Steps
pub mod Whole
pub mod Report
mod Samples
use Prim.Native.String.{String}
use text.Mathlib.Text.{◌==◌ as str_eq}
use homedns_analytics.Common.{
  ℕ, Bool, true, false, not, Option, none, some, List, [], ◌∷◌, ◌++◌, GoError, Result, ok, err,
  is_positive, is_some, if◌then◌else◌,
}
use homedns_analytics.Strings.{append as text_append}
use homedns_analytics.Float.{FloatOps}
use homedns_analytics.Net.{NetOps}
use homedns_analytics.Benchmark.Report.{StatusThresholds}
use homedns_analytics.Benchmark.Classify.{
  ThresholdError, resolved_status_thresholds, validate_status_thresholds,
}
use homedns_analytics.Benchmark.Suite.{SuiteConfig, SuiteError, validate_suite, resolve_profile}

pub record ResourceCollectionConfig : Type 0 where
  pub benchmark_pid : ℕ
  pub target_pid : ℕ
  pub interval : ℕ

pub data CollectionError : Type 0 where
  no_benchmark_pid no_target_pid no_interval : CollectionError

-- `ResourceCollectionConfig.Validate`
unfoldable pub validate_collection : ResourceCollectionConfig → Option CollectionError
validate_collection c =
    if not (is_positive c.benchmark_pid)
    then some no_benchmark_pid
    else if not (is_positive c.target_pid)
    then some no_target_pid
    else if not (is_positive c.interval)
    then some no_interval
    else none

pub record ServiceConfig (F : Type 0) : Type 0 where
  pub profile : String
  pub profile_customized : Bool
  pub output_directory : String
  pub suite : SuiteConfig
  pub target_address : String
  pub hostname : String
  pub resource_collection : Option ResourceCollectionConfig
  pub health_address : String
  pub status_thresholds : StatusThresholds F

pub record ReportRunConfig (F : Type 0) : Type 0 where
  pub id : String
  pub profile : String
  pub profile_customized : Bool
  pub suite : SuiteConfig
  pub target_address : String
  pub hostname : String
  pub resource_collection : Option ResourceCollectionConfig
  pub health_address : String
  pub status_thresholds : StatusThresholds F

pub data ServiceError : Type 0 where
  missing_id invalid_profile missing_output : ServiceError
  invalid_suite : SuiteError → ServiceError
  invalid_collection : CollectionError → ServiceError
  invalid_thresholds : ThresholdError → ServiceError

abbrev or_else : Option ServiceError → Option ServiceError → Option ServiceError
or_else none later = later
or_else (some e) later = some e

abbrev pub check_collection : Option ResourceCollectionConfig → Option ServiceError
check_collection none = none
check_collection (some c) = elim (validate_collection c) [
  | none ↦ none
  | some e ↦ some (invalid_collection e)
]

abbrev pub check_suite : NetOps → SuiteConfig → Option ServiceError
check_suite net c = elim (validate_suite net c) [ none ↦ none | some e ↦ some (invalid_suite e) ]

module _ {F : Type 0} (ops : FloatOps F) (net : NetOps) where
  abbrev pub check_thresholds : StatusThresholds F → Option ServiceError
  check_thresholds t = elim (validate_status_thresholds ops (resolved_status_thresholds ops t)) [
    | none ↦ none
    | some e ↦ some (invalid_thresholds e)
  ]

  -- `ServiceConfig.Validate`
  unfoldable pub validate_service : ServiceConfig F → Option ServiceError
  validate_service c =
      if not (is_some (resolve_profile c.profile))
      then some invalid_profile
      else if str_eq c.output_directory ""
      then some missing_output
      else or_else (check_suite net c.suite)
          (or_else (check_collection c.resource_collection) (check_thresholds c.status_thresholds))

  -- `ReportRunConfig.Validate`
  unfoldable pub validate_report_run : ReportRunConfig F → Option ServiceError
  validate_report_run c =
      if str_eq c.id ""
      then some missing_id
      else if not (is_some (resolve_profile c.profile))
      then some invalid_profile
      else or_else (check_suite net c.suite)
          (or_else (check_collection c.resource_collection) (check_thresholds c.status_thresholds))

-- The configuration of the report runner for the identifier `id`.
unfoldable pub report_config : {F : Type 0} → String → ServiceConfig F → ReportRunConfig F
report_config id c = record {
  id = id;
  profile = c.profile;
  profile_customized = c.profile_customized;
  suite = c.suite;
  target_address = c.target_address;
  hostname = c.hostname;
  resource_collection = c.resource_collection;
  health_address = c.health_address;
  status_thresholds = c.status_thresholds;
}

pub record ServiceResult (R : Type 0) : Type 0 where
  pub report : R
  pub path : String

pub data ServiceRunError (E : Type 0) : Type 0 where
  invalid_configuration : ServiceError → ServiceRunError E
  report_failed : E → ServiceRunError E
  write_failed : GoError → ServiceRunError E

-- The environment of `Service.Run`: `stamp` is the time as `benchmarkIDFromTime` formats it, `join_path`
-- is `filepath.Join`, and a file that is written is told by its path and report.
pub record ServiceEnv (F E R : Type 0) : Type 0 where
  pub stamp : String
  pub join_path : String → String → String
  pub run_report : ReportRunConfig F → Result E R
  pub write_report : String → R → Option GoError

abbrev pub benchmark_id : String → String
benchmark_id stamp = text_append "benchmark-" stamp

-- `Service.Run` of a service with all its parts; the second component is what it wrote.
unfoldable pub run_service :
    {F E R : Type 0}
    → FloatOps F
    → NetOps
    → ServiceEnv F E R
    → ServiceConfig F
    → Result (ServiceRunError E) (ServiceResult R) × List (String × R)
run_service ops net env c =
    let id = benchmark_id env.stamp in
    let path = env.join_path c.output_directory (text_append id ".json") in
    elim (validate_service ops net c) [
      | some e ↦ (err (invalid_configuration e), [])
      | none ↦ elim (env.run_report (report_config id c)) [
        | err e ↦ (err (report_failed e), [])
        | ok report ↦ elim (env.write_report path report) [
          | some e ↦ (err (write_failed e), [])
          | none ↦ (ok (record { report = report; path = path }), (path, report) ∷ [])
        ]
      ]
    ]
