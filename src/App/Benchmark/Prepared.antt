-- ===== src/App/Benchmark/Prepared.antt =====
-- dns/internal/app/benchmark.go and dns/internal/benchmark/service.go: `RunBenchmark` never hands the
-- service a configuration that its validation rejects.
use Prim.Native.String.{String}
use homedns_analytics.Common.{ℕ, ◌≡◌, subst, true, none, arith, Result, ok, is_positive, bind-ok}
use homedns_analytics.App.Benchmark.Valid.{IntLaws, service_config_valid}
use homedns_analytics.App.Benchmark.Ready.{IsReady, prepare_options-IsReady}
use homedns_analytics.Float.{FloatOps, FloatLaws}
use homedns_analytics.Net.{NetOps, NetLaws}
use homedns_analytics.Config.{Config}
use homedns_analytics.Config.Accepted.{IsAccepted}
use homedns_analytics.Benchmark.Service.{ServiceConfig, validate_service}
use homedns_analytics.App.Benchmark.{
  RunBenchmarkError, SystemEnv, service_config, prepare_options, prepare, no_hostname, no_target,
  lift,
}
use homedns_analytics.App.Options.{BenchmarkOptions}

-- What `prepare` gives comes from ready options.
prepare-parts :
    {F E : Type 0} (ops : FloatOps F) (net : NetOps) (fqdn : String → String) (sys : SystemEnv)
    (cfg : Config) (o : BenchmarkOptions) (c : ServiceConfig F)
    → ◌≡◌ {A = Result (RunBenchmarkError E) _} (prepare ops net fqdn sys cfg o) (ok c)
    → (ready : BenchmarkOptions) × (hostname : String) × (pid : ℕ) × IsReady ready
      × (service_config ops net cfg ready hostname sys.own_pid pid ≡ c)
unfolding prepare
prepare-parts {F} {E} ops net fqdn sys cfg o c h =
    let (ready, e, k) = bind-ok {E = RunBenchmarkError E} (prepare_options fqdn cfg o) _ h in
    let (hostname, e', k') =
      bind-ok {E = RunBenchmarkError E} (lift no_hostname sys.hostname) _ k in
    let (pid, e'', k'') =
      bind-ok {E = RunBenchmarkError E} (lift no_target (sys.target_pid ready.config_path)) _ k' in
    (ready, hostname, pid, prepare_options-IsReady fqdn cfg o ready e, ground (arith, k''))

-- For an accepted configuration, whatever the options: a configuration that `RunBenchmark` prepares
-- passes every validation of the service (profile, output directory, suite with its four scenarios and
-- their paths, resource collection, thresholds). The laws of the package net and of
-- float64 are assumed, and that the process id of the benchmark is positive.
pub prepare-validate_service :
    {F E : Type 0} (ops : FloatOps F) (net : NetOps) (fqdn : String → String) (sys : SystemEnv)
    → NetLaws net
    → FloatLaws ops
    → IntLaws ops
    → is_positive sys.own_pid ≡ true
    → (cfg : Config) (o : BenchmarkOptions) (c : ServiceConfig F) → IsAccepted net cfg
    → ◌≡◌ {A = Result (RunBenchmarkError E) _} (prepare ops net fqdn sys cfg o) (ok c)
    → validate_service ops net c ≡ none
prepare-validate_service {F} {E} ops net fqdn sys laws fl il own cfg o c a h =
    let (ready, hostname, pid, v, e) = prepare-parts ops net fqdn sys cfg o c h in
    subst (λ c. validate_service ops net c ≡ none) e
      (service_config_valid net ops laws fl il cfg ready hostname sys.own_pid pid a v own)
