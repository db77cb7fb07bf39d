-- ===== src/Benchmark/Scenario/Samples.antt =====
-- A scenario at concrete addresses and answers.
use homedns_analytics.Common.{
  ◌≡◌, refl, true, some, [], ◌∷◌, is_blank, all_space, is_space, is_positive,
}
use homedns_analytics.Net.{NetOps}
use homedns_analytics.Benchmark.Scenario.{
  ScenarioConfig, path_config, validate_scenario, new_runner_ok, run_path_ok, direct_path,
  forwarded_path, direct_warmup, forwarded_warmup,
}
use homedns_analytics.Benchmark.Path.{
  validate_path, supported_protocol, supported_type, is_host_port, any_blank,
}
use homedns_analytics.Benchmark.Scenario.Paths.{scenario_paths_run}

abbrev pub local_net : NetOps
local_net = record {
  split_host_port = λ a. some ("127.0.0.1", "53");
  join_host_port = λ h p. h;
  parse_ip = λ h. some true;
  lookup_port = λ p. true;
  trim_space = λ h. h;
  is_localhost = λ h. true;
}

abbrev concurrent : ScenarioConfig
concurrent = record {
  name = "udp-concurrent";
  protocol = "udp";
  direct_address = "192.168.1.1:53";
  forwarded_address = "127.0.0.1:5353";
  query_names = "example.com." ∷ [];
  query_type = 1;
  warmup_queries = 5;
  query_count = 100;
  concurrency = 10;
  timeout = 2_000_000_000;
}

scenario_paths_run_example :
    (new_runner_ok "udp" 2_000_000_000 ≡ true)
    × (run_path_ok local_net "udp" (direct_path concurrent) ≡ true)
    × (run_path_ok local_net "udp" (forwarded_path concurrent) ≡ true)
    × (is_positive 5 ≡ true
        → (run_path_ok local_net "udp" (direct_warmup concurrent) ≡ true)
          × (run_path_ok local_net "udp" (forwarded_warmup concurrent) ≡ true))
unfolding validate_scenario validate_path path_config supported_protocol supported_type is_host_port
    any_blank is_blank all_space is_space
scenario_paths_run_example = scenario_paths_run local_net concurrent refl
