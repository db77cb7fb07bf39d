-- ===== src/Benchmark/Suite/Samples.antt =====
-- A suite at concrete addresses and answers.
use homedns_analytics.Common.{
  ℕ, ◌≡◌, refl, false, none, List, [], Result, ok, err, is_blank, all_space, is_space,
}
use homedns_analytics.Float.{natural_ops, round_six}
use homedns_analytics.Benchmark.Report.{ScenarioResult}
use homedns_analytics.Benchmark.Runner.{new_result}
use homedns_analytics.Benchmark.Scenario.{
  Executor, run_scenario, measure, warm_up, warmup_path, call_path, path_config, validate_scenario,
  new_runner_ok, calculate_scenario_comparison, difference, percentage_change,
}
use homedns_analytics.Benchmark.Path.{
  validate_path, supported_protocol, supported_type, is_host_port, any_blank,
}
use homedns_analytics.Benchmark.Scenario.Samples.{local_net}
use homedns_analytics.Benchmark.Suite.{
  SuiteConfig, scenario, scenarios, default_suite_config, validate_suite, validate_scenarios,
  run_suite, run_scenarios, SuiteRunError,
}
use homedns_analytics.Benchmark.Suite.Results.{AreResults, with_scenarios, run_suite_order}

-- Every query succeeds.
abbrev perfect : Executor ℕ
unfolding new_result
perfect calls c =
    let r = new_result natural_ops c.query_count in
    ok (record r { requests = record r.requests { successful = c.query_count } })

abbrev config : SuiteConfig
unfolding default_suite_config
config = default_suite_config "192.168.1.1:53" "127.0.0.1:53"

abbrev results_of : Result SuiteRunError (List (ScenarioResult ℕ)) → List (ScenarioResult ℕ)
results_of (ok rs) = rs
results_of (err e) = []

abbrev results : List (ScenarioResult ℕ)
unfolding run_suite run_scenarios run_scenario measure warm_up warmup_path call_path path_config
    validate_suite validate_scenarios validate_scenario validate_path new_runner_ok
    supported_protocol supported_type is_host_port any_blank is_blank all_space is_space scenario
    scenarios default_suite_config new_result calculate_scenario_comparison difference
    percentage_change round_six
results = results_of (run_suite perfect (λ calls. false) natural_ops local_net config []).0

run_suite_order_example :
    (validate_suite local_net config ≡ none)
    × AreResults perfect (λ calls. false) natural_ops local_net (scenarios config) [] results
    × ((run_suite perfect (λ calls. false) natural_ops local_net config []).1
        ≡ with_scenarios (scenarios config) [])
unfolding run_suite run_scenarios run_scenario measure warm_up warmup_path call_path path_config
    validate_suite validate_scenarios validate_scenario validate_path new_runner_ok
    supported_protocol supported_type is_host_port any_blank is_blank all_space is_space scenario
    scenarios default_suite_config new_result calculate_scenario_comparison difference
    percentage_change round_six
run_suite_order_example =
    run_suite_order perfect (λ calls. false) natural_ops local_net config {rs = results} refl
