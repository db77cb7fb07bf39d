-- ===== src/App/Benchmark.antt =====
-- dns/internal/app/benchmark.go: how `RunBenchmark` turns the options of the benchmark command and the configuration of the service into one benchmark execution.
pub mod Ready
pub mod Valid
pub mod Prepared
mod Samples
use Prim.Native.String.{String}
use text.Mathlib.Text.{◌==◌ as str_eq}
use homedns_analytics.Common.{
  ℕ, suc, ◌+◌, Bool, true, false, not, ◌||◌, Option, none, some, List, [], ◌∷◌, GoError, Result, ok,
  err, bind, is_positive, is_negative, ltb_signed, is_blank, is_some, ◌==◌, if◌then◌else◌,
}
use homedns_analytics.Float.{FloatOps}
use homedns_analytics.Net.{NetOps}
use homedns_analytics.Strings.{is_empty, trim_space}
use homedns_analytics.Config.{Config, dns_address, health_address}
use homedns_analytics.Benchmark.Report.{StatusThresholds}
use homedns_analytics.Benchmark.Suite.{SuiteConfig, default_suite_config, Profile, resolve_profile}
use homedns_analytics.Benchmark.Service.{
  ServiceConfig, ServiceEnv, ServiceResult, ServiceRunError, ResourceCollectionConfig, run_service,
}
use homedns_analytics.App.Process.{PidError}
use homedns_analytics.App.Options.{
  BenchmarkOptions, default_interval, type_a, type_aaaa, from_profile, default_benchmark_options,
  resolve, OptionsError, unsupported_profile, missing_config_path, missing_output, no_queries,
  negative_warmup, no_workers, too_many_workers, no_timeout, no_interval, no_names,
  unsupported_type, empty_name, first_blank, no_name, validate_options, normalize_names,
  normalize_benchmark_query_names,
}

-- The suite of `RunBenchmark`.
unfoldable pub benchmark_suite : NetOps → Config → BenchmarkOptions → SuiteConfig
benchmark_suite net cfg o =
    record (default_suite_config cfg.upstream.address (dns_address net cfg)) {
      query_count = o.query_count;
      warmup_queries = o.warmup_queries;
      concurrent_workers = o.concurrent_workers;
      timeout = o.timeout;
      query_type = o.query_type;
      query_names = o.query_names;
    }

-- What `RunBenchmark` asks of the system: `os.Hostname`, `os.Getpid` and
-- `resolveBenchmarkTargetPID`, which returns 0 on other systems than Linux.
pub record SystemEnv : Type 0 where
  pub hostname : Result GoError String
  pub own_pid : ℕ
  pub target_pid : String → Result PidError ℕ

pub data RunBenchmarkError (E : Type 0) : Type 0 where
  bad_names bad_options : OptionsError → RunBenchmarkError E
  no_hostname : GoError → RunBenchmarkError E
  no_target : PidError → RunBenchmarkError E
  run_failed : E → RunBenchmarkError E

abbrev pub lift :
    {A B E : Type 0} → (A → RunBenchmarkError E) → Result A B → Result (RunBenchmarkError E) B
lift wrap (ok b) = ok b
lift wrap (err e) = err (wrap e)

abbrev pub checked : {A E : Type 0} → Option OptionsError → A → Result (RunBenchmarkError E) A
checked none a = ok a
checked (some e) a = err (bad_options e)

-- The options that `RunBenchmark` works with.
unfoldable pub prepare_options :
    {E : Type 0}
    → (String → String)
    → Config
    → BenchmarkOptions
    → Result (RunBenchmarkError E) BenchmarkOptions
prepare_options fqdn cfg o =
    let o' = resolve cfg o in
    bind (lift bad_names (normalize_benchmark_query_names fqdn o'.query_names)) (λ names.
      let ready : BenchmarkOptions = record o' { query_names = names } in
      checked (validate_options ready) ready)

abbrev pub no_thresholds : {F : Type 0} → FloatOps F → StatusThresholds F
no_thresholds ops = record {
  degraded_failure_percent = ops.of_int 0;
  failed_failure_percent = ops.of_int 0;
  degraded_timeout_percent = ops.of_int 0;
  failed_timeout_percent = ops.of_int 0;
}

-- The configuration of the service, from the options made ready.
unfoldable pub service_config :
    {F : Type 0}
    → FloatOps F
    → NetOps
    → Config
    → BenchmarkOptions
    → (hostname : String) (own_pid target_pid : ℕ) → ServiceConfig F
service_config ops net cfg o hostname own_pid target_pid = record {
  profile = o.profile;
  profile_customized = o.profile_customized;
  output_directory = o.output_directory;
  suite = benchmark_suite net cfg o;
  target_address = dns_address net cfg;
  hostname = hostname;
  resource_collection =
      if is_positive target_pid
      then some (record {
        benchmark_pid = own_pid;
        target_pid = target_pid;
        interval = o.resource_sampling_interval;
      })
      else none;
  health_address = health_address net cfg;
  status_thresholds = no_thresholds ops;
}

-- `RunBenchmark` up to `service.Run`.
unfoldable pub prepare :
    {F E : Type 0}
    → FloatOps F
    → NetOps
    → (String → String)
    → SystemEnv
    → Config
    → BenchmarkOptions
    → Result (RunBenchmarkError E) (ServiceConfig F)
prepare ops net fqdn sys cfg o = bind (prepare_options fqdn cfg o) (λ ready.
    bind (lift no_hostname sys.hostname) (λ hostname.
      bind (lift no_target (sys.target_pid ready.config_path))
        (λ pid. ok (service_config ops net cfg ready hostname sys.own_pid pid))))

-- `RunBenchmark`
unfoldable pub run_benchmark :
    {F E R : Type 0}
    → FloatOps F
    → NetOps
    → (String → String)
    → SystemEnv
    → ServiceEnv F E R
    → Config
    → BenchmarkOptions
    → Result (RunBenchmarkError (ServiceRunError E)) (ServiceResult R)
run_benchmark ops net fqdn sys env cfg o =
    bind (prepare ops net fqdn sys cfg o) (λ c. lift run_failed (run_service ops net env c).0)
