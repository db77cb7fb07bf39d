-- ===== src/App/Benchmark/Samples.antt =====
-- `RunBenchmark` at concrete options.
use homedns_analytics.Common.{
  ℕ, ◌≡◌, ◌⊎◌, err, refl, true, false, none, some, [], ◌∷◌, Result, ok, is_blank, all_space,
  is_space,
}
use homedns_analytics.Float.{natural_ops, natural_laws}
use homedns_analytics.Strings.{trim_space, trim_left, trim_right}
use homedns_analytics.Config.{default}
use homedns_analytics.Benchmark.Suite.{resolve_profile}
use homedns_analytics.Benchmark.Service.{ServiceConfig, validate_service}
use homedns_analytics.App.Benchmark.{
  RunBenchmarkError, SystemEnv, prepare, prepare_options, service_config,
}
use homedns_analytics.App.Options.{
  BenchmarkOptions, resolve, normalize_benchmark_query_names, normalize_names, validate_options,
  first_blank,
}
use homedns_analytics.App.Benchmark.Prepared.{prepare-validate_service}
use homedns_analytics.App.{new_app}
use homedns_analytics.App.Create.{Parts, new_application, new_application_cases}
use homedns_analytics.Health.Server.Address.{AddressError}
use homedns_analytics.App.Local.{
  local_net, local_laws, local_hosts, natural_ints, configured, configured-IsAccepted,
}

abbrev system : SystemEnv
system = record { hostname = ok "pi"; own_pid = 77; target_pid = λ path. ok 42 }

abbrev options : BenchmarkOptions
options = record {
  profile = "quick";
  profile_customized = true;
  config_path = "/etc/homedns.yaml";
  output_directory = "runs";
  query_count = 20;
  warmup_queries = 0;
  concurrent_workers = 4;
  timeout = 0;
  resource_sampling_interval = 0;
  query_names = " example.com." ∷ [];
  query_type = 28;
}

abbrev ready : BenchmarkOptions
ready = record options {
  timeout = configured.upstream.timeout;
  resource_sampling_interval = 1_000_000_000;
  query_names = "example.com." ∷ [];
}

abbrev prepared : ServiceConfig ℕ
unfolding service_config
prepared = service_config natural_ops local_net configured ready "pi" 77 42

prepared_ok :
    ◌≡◌ {A = Result (RunBenchmarkError ℕ) (ServiceConfig ℕ)}
      (prepare natural_ops local_net (λ n. n) system configured options)
      (ok prepared)
unfolding default prepare prepare_options resolve normalize_benchmark_query_names normalize_names
    validate_options first_blank trim_space trim_left trim_right is_blank all_space is_space
    resolve_profile service_config
prepared_ok = refl

prepare-validate_service_example : validate_service natural_ops local_net prepared ≡ none
prepare-validate_service_example =
    prepare-validate_service natural_ops local_net (λ n. n) system local_laws natural_laws
      natural_ints refl configured options prepared configured-IsAccepted prepared_ok

new_application_cases_example :
    ((local_net.parse_ip configured.health.listen_address ≡ some true)
      × (parts : Parts) × (new_application local_net configured ≡ ok parts)
      × (parts.app ≡ new_app)
      × (parts.dns ≡ record { address_blank = false; has_handler = true }))
    ⊎ ((local_net.parse_ip configured.health.listen_address ≡ some false)
        × (new_application local_net configured ≡ err AddressError.public_address))
new_application_cases_example =
    new_application_cases local_net local_laws local_hosts configured configured-IsAccepted
