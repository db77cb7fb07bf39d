-- ===== src/Benchmark/Service/Samples.antt =====
-- The service with concrete parts.
use homedns_analytics.Common.{
  ℕ, ◌≡◌, ◌≢◌, refl, true, false, none, some, List, [], ◌∷◌, ok, err, is_blank, all_space, is_space,
}
use homedns_analytics.Strings.{append}
use homedns_analytics.Float.{natural_ops}
use homedns_analytics.Net.{NetOps}
use homedns_analytics.Benchmark.Report.{StatusThresholds}
use homedns_analytics.Benchmark.Suite.{default_suite_config}
use homedns_analytics.Benchmark.Service.{
  ServiceConfig, ServiceEnv, ServiceError, report_failed, report_config, run_service, ServiceResult,
}
use homedns_analytics.Benchmark.Report.{ScenarioResult}
use homedns_analytics.Benchmark.Classify.{
  status_severity, classify_scenarios, resolved_status_thresholds, validate_status_thresholds,
}
use homedns_analytics.Benchmark.Classify.Samples.{scenario}
use homedns_analytics.Benchmark.Summary.Verdict.{benchmark_rank}
use homedns_analytics.Benchmark.Scenario.{validate_scenario, path_config}
use homedns_analytics.Benchmark.Path.{
  validate_path, is_host_port, supported_protocol, supported_type, any_blank,
}
use homedns_analytics.Benchmark.Suite.{
  resolve_profile, validate_suite, scenarios, validate_scenarios, scenario as suite_scenario,
}
use homedns_analytics.Benchmark.Service.{ReportRunConfig, validate_report_run}
use homedns_analytics.Benchmark.Service.Report.{
  RunnerEnv, Report, ResourceFlags, no_flags, build_report, gather, run_report, run_report-rank,
  ReportError, suite_failed, invalid_run,
}
use homedns_analytics.Benchmark.Service.Whole.{whole, IsReportOf, run_service-report}

abbrev net : NetOps
net = record {
  split_host_port = λ a. some ("127.0.0.1", "53");
  join_host_port = λ h p. h;
  parse_ip = λ h. some false;
  lookup_port = λ p. true;
  trim_space = λ h. h;
  is_localhost = λ h. false;
}

abbrev thresholds : StatusThresholds ℕ
thresholds = record {
  degraded_failure_percent = 0;
  failed_failure_percent = 0;
  degraded_timeout_percent = 0;
  failed_timeout_percent = 0;
}

abbrev config : ServiceConfig ℕ
unfolding default_suite_config
config = record {
  profile = "quick";
  profile_customized = false;
  output_directory = "runs";
  suite = default_suite_config "192.168.1.1:53" "127.0.0.1:5353";
  target_address = "127.0.0.1:5353";
  hostname = "pi";
  resource_collection = none;
  health_address = "127.0.0.1:8081";
  status_thresholds = thresholds;
}

abbrev env : ServiceEnv ℕ ℕ ℕ
env = record {
  stamp = "20260724-180000";
  join_path = λ d f. append d (append "/" f);
  run_report = λ c. ok 7;
  write_report = λ p r. none;
}

abbrev run_config : ReportRunConfig ℕ
unfolding report_config
run_config = report_config "benchmark-1" config

abbrev runner : RunnerEnv ℕ ℕ
runner = record {
  run_suite = λ s. ok (scenario "udp-sequential" 0 ∷ scenario "tcp-sequential" 2 ∷ []);
  calls_run = true;
  collect = λ c. ok no_flags;
  started_at = 1_000;
  ended_at = 9_001_000;
}

abbrev run_result : Report ℕ
unfolding build_report
run_result =
    build_report natural_ops net runner run_config
      (scenario "udp-sequential" 0 ∷ scenario "tcp-sequential" 2 ∷ [], no_flags)

run_report_ok : run_report natural_ops net runner run_config ≡ ok run_result
unfolding run_report gather validate_report_run report_config resolve_profile validate_suite
    default_suite_config scenarios validate_scenarios validate_scenario validate_path is_host_port
    supported_protocol supported_type any_blank is_blank all_space is_space
    resolved_status_thresholds validate_status_thresholds path_config suite_scenario run_result
    build_report
run_report_ok = refl

run_report-rank_example :
    (results : List (ScenarioResult ℕ)) × (flags : ResourceFlags) × (gather natural_ops net runner
        run_config.suite run_config.resource_collection
      ≡ ok (results, flags))
    × (status_severity run_result.status
        ≡ benchmark_rank (
            classify_scenarios natural_ops
              (resolved_status_thresholds natural_ops run_config.status_thresholds)
              results))
    × (run_result.stability ≡ flags)
run_report-rank_example = run_report-rank natural_ops net runner run_config run_result run_report_ok

-- The service with the runner above.
abbrev service : ServiceEnv ℕ (ReportError ℕ) (Report ℕ)
service = record {
  stamp = "20260724-180000";
  join_path = λ d f. append d (append "/" f);
  run_report = λ c. err (suite_failed 3);
  write_report = λ p r. none;
}

run_service-report_example :
    let result = (run_service natural_ops net (whole natural_ops net runner service) config).0 in
    let writes = (run_service natural_ops net (whole natural_ops net runner service) config).1 in
    ((e : ServiceError) → result ≢ err (report_failed (invalid_run e)))
    × ((s : ServiceResult (Report ℕ))
        → result ≡ ok s
        → (writes ≡ (s.path, s.report) ∷ [])
          × IsReportOf natural_ops net runner service config s.report)
run_service-report_example = run_service-report natural_ops net runner service config
