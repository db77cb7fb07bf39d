-- ===== src/Cmd/Benchmark/Errors.antt =====
-- dns/cmd/homedns-dns/main.go, dns/internal/app/benchmark.go and dns/internal/benchmark/service.go
-- together: what the benchmark command can still complain of once its arguments are accepted.
use Prim.Native.String.{String}
use homedns_analytics.Common.{
  ℕ, ◌<◌, ◌^◌, ◌≡◌, inl, inr, refl, sym, subst, Bool, true, false, none, List, All, arith, GoError,
  Result, ok, err, bind, bind-err, err_inj, is_positive, if◌then◌else◌,
}
use homedns_analytics.Float.{FloatOps, FloatLaws}
use homedns_analytics.Net.{NetOps, NetLaws}
use homedns_analytics.Config.{Config, default}
use homedns_analytics.Config.Accepted.{IsAccepted, validate_iff}
use homedns_analytics.Config.Load.{Documents, LoadError, load, load_iff}
use homedns_analytics.Benchmark.Summary.{BenchmarkSummary}
use homedns_analytics.Benchmark.Service.{
  ServiceConfig, ServiceEnv, ServiceResult, ServiceRunError, invalid_configuration, report_failed,
  write_failed, run_service, validate_service,
}
use homedns_analytics.App.Benchmark.{
  RunBenchmarkError, SystemEnv, prepare, prepare_options, run_benchmark, lift, bad_names,
  bad_options, no_hostname, no_target,
}
use homedns_analytics.App.Options.{BenchmarkOptions, missing_config_path, missing_output}
use homedns_analytics.Benchmark.Service.Steps.{run_service_cases}
use homedns_analytics.App.Benchmark.Valid.{IntLaws}
use homedns_analytics.App.Benchmark.Prepared.{prepare-validate_service}
use homedns_analytics.Cmd.Options.{FlagValues, benchmark_arguments}
use homedns_analytics.Cmd.Values.{ArgumentError}
use homedns_analytics.Cmd.Options.Prepared.{IsNaming, benchmark_arguments-prepare_options}
use homedns_analytics.Cmd.Output.{Complaint, Line, run_failed}
use homedns_analytics.Cmd.Benchmark.{
  BenchmarkEnv, finished, with_config, with_options, run_benchmark_command,
}

-- The errors of `RunBenchmark` that do not come from outside, but for two, are checked before.
abbrev pub expected : {E : Type 0} → RunBenchmarkError (ServiceRunError E) → Bool
expected (bad_names e) = false
expected (bad_options missing_config_path) = true
expected (bad_options missing_output) = true
expected (bad_options e) = false
expected (no_hostname e) = true
expected (no_target e) = true
expected (RunBenchmarkError.run_failed (invalid_configuration e)) = false
expected (RunBenchmarkError.run_failed (report_failed e)) = true
expected (RunBenchmarkError.run_failed (write_failed e)) = true

abbrev pub expected_complaint :
    {E : Type 0} → Complaint (RunBenchmarkError (ServiceRunError E)) → Bool
expected_complaint (run_failed e) = expected e
expected_complaint c = true

-- An outcome whose error, if it is one, is expected.
abbrev Expecting : {E A : Type 0} → Result (RunBenchmarkError (ServiceRunError E)) A → Type 0
Expecting {E} r = (e : RunBenchmarkError (ServiceRunError E)) → r ≡ err e → expected e ≡ true

lift-Expecting :
    {A B E : Type 0} (wrap : A → RunBenchmarkError (ServiceRunError E)) (r : Result A B)
    → ((a : A) → expected (wrap a) ≡ true)
    → Expecting (lift wrap r)
lift-Expecting wrap (ok b) good e h = absurd (ground (arith, h))
lift-Expecting {B = B} wrap (err a) good e h =
    subst (λ e. expected e ≡ true) (err_inj {A = B} h) (good a)

bind-Expecting :
    {A B E : Type 0} (r : Result (RunBenchmarkError (ServiceRunError E)) A)
    (f : A → Result (RunBenchmarkError (ServiceRunError E)) B)
    → Expecting r
    → ((a : A) → r ≡ ok a → Expecting (f a))
    → Expecting (bind r f)
bind-Expecting r f first next e h = elim (bind-err r f h) [
  | inl k ↦ first e k
  | inr (a, k, g) ↦ next a k e g
]

fail-Expecting :
    {E A : Type 0} (e : RunBenchmarkError (ServiceRunError E))
    → expected e ≡ true
    → Expecting {A = A} (err e)
fail-Expecting {A = A} e good e' h = subst (λ e. expected e ≡ true) (err_inj {A = A} h) good

options-Expecting :
    {E : Type 0} (a b : Bool) (o : BenchmarkOptions)
    → Expecting {E = E} (
        if a
        then err (bad_options missing_config_path)
        else if b
        then err (bad_options missing_output)
        else ok o)
options-Expecting true b o = fail-Expecting _ refl
options-Expecting false true o = fail-Expecting _ refl
options-Expecting false false o = λ e h. absurd (ground (arith, h))

module _ {F E : Type 0} (ops : FloatOps F) (net : NetOps) (fqdn : String → String) (sys : SystemEnv)
    (svc : ServiceEnv F E (BenchmarkSummary F)) where
  service-Expecting :
      (c : ServiceConfig F)
      → validate_service ops net c ≡ none
      → Expecting (lift RunBenchmarkError.run_failed (run_service ops net svc c).0)
  service-Expecting c v = elim (run_service_cases ops net svc c) [
    | inl (e, w, f) ↦ absurd (ground (arith, v, w))
    | inr (w, inl (e, r, f)) ↦ rw f (fail-Expecting _ refl)
    | inr (w, inr (report, r, inl (e, k, f))) ↦ rw f (fail-Expecting _ refl)
    | inr (w, inr (report, r, inr (k, f))) ↦ rw f (λ e h. absurd (ground (arith, h)))
  ]

  -- `RunBenchmark` on the options of accepted arguments.
  run_benchmark-Expecting :
      NetLaws net
      → FloatLaws ops
      → IntLaws ops
      → is_positive sys.own_pid ≡ true
      → IsNaming fqdn
      → (cfg : Config) (vals : FlagValues) (args : List String) (o : BenchmarkOptions)
      → IsAccepted net cfg
      → benchmark_arguments vals args ≡ ok o
      → Expecting (run_benchmark ops net fqdn sys svc cfg o)
  unfolding run_benchmark prepare
  run_benchmark-Expecting laws fl il own law cfg vals args o a h =
      let prepared =
        prepare-validate_service {E = ServiceRunError E} ops net fqdn sys laws fl il own cfg o in
      let (t, names, same) =
        benchmark_arguments-prepare_options {E = ServiceRunError E} net fqdn cfg vals args o a law
          h in
      let options : Expecting {E = E} (prepare_options fqdn cfg o) =
        subst Expecting (sym same) (options-Expecting _ _ _) in
      bind-Expecting (prepare ops net fqdn sys cfg o) _
        (bind-Expecting (prepare_options fqdn cfg o) _ options (λ ready p.
          bind-Expecting (lift no_hostname sys.hostname) _
            (lift-Expecting no_hostname sys.hostname (λ e. refl))
            (λ hostname q.
              bind-Expecting (lift no_target (sys.target_pid ready.config_path)) _
                (lift-Expecting no_target (sys.target_pid ready.config_path) (λ e. refl))
                (λ pid r e k. absurd (ground (arith, k))))))
        (λ c p. service-Expecting c (prepared c a p))

-- The decoder gives ports that are machine integers.
abbrev pub IsTyped : (String → Result GoError Documents) → Type 0
IsTyped open_file =
    (path : String) (d : Documents) (c : Config)
    → open_file path ≡ ok d
    → d.decode default ≡ ok c
    → (c.server.port < 2 ^ 64) × (c.health.port < 2 ^ 64)

loaded-IsAccepted :
    (net : NetOps) (open_file : String → Result GoError Documents) (path : String) (c : Config)
    → IsTyped open_file
    → load net open_file path ≡ ok c
    → IsAccepted net c
loaded-IsAccepted net open_file path c typed h =
    let v = (load_iff net open_file path c).0 h in
    let (d, o, k, f) = v.content in
    let (p, q) = typed path d c o k in (validate_iff net c p q).0 v.accepted

module _ {F P E : Type 0} (ops : FloatOps F) (net : NetOps) (fqdn : String → String)
    (sys : SystemEnv) (svc : ServiceEnv F E (BenchmarkSummary F)) (vals : FlagValues)
    (open_file : String → Result GoError Documents) (shown : Config → BenchmarkOptions → List P)
    (type_name : ℕ → String) where
  -- The command with `RunBenchmark` of the application and any lines of progress.
  abbrev pub app_env : BenchmarkEnv F P (RunBenchmarkError (ServiceRunError E))
  app_env = record {
    open_file = open_file;
    run_benchmark = λ cfg o. (shown cfg o, run_benchmark ops net fqdn sys svc cfg o);
    type_name = type_name;
  }

  abbrev Fine : List (Complaint (RunBenchmarkError (ServiceRunError E))) → Type 0
  Fine cs = All (λ c. expected_complaint c ≡ true) cs

  module _ (laws : NetLaws net) (fl : FloatLaws ops) (il : IntLaws ops)
      (own : is_positive sys.own_pid ≡ true) (naming : IsNaming fqdn)
      (typed : IsTyped open_file) where
    finished-Fine :
        (before : List (Line F P))
        (r : Result (RunBenchmarkError (ServiceRunError E)) (ServiceResult (BenchmarkSummary F)))
        → Expecting r
        → Fine (finished before r).stderr
    finished-Fine before (ok r) v = tt
    finished-Fine before (err e) v = (v e refl, tt)

    with_config-Fine :
        (args : List String) (o : BenchmarkOptions) (r : Result LoadError Config)
        → benchmark_arguments vals args ≡ ok o
        → load net open_file o.config_path ≡ r
        → Fine (with_config net vals app_env o r).stderr
    with_config-Fine args o (err e) a l = (refl, tt)
    with_config-Fine args o (ok cfg) a l =
        let accepted = loaded-IsAccepted net open_file o.config_path cfg typed l in
        finished-Fine _ (run_benchmark ops net fqdn sys svc cfg o) (
          run_benchmark-Expecting ops net fqdn sys svc laws fl il own naming cfg vals args o
            accepted a)

    with_options-Fine :
        (args : List String) (r : Result ArgumentError BenchmarkOptions)
        → benchmark_arguments vals args ≡ r
        → Fine (with_options net vals app_env r).stderr
    with_options-Fine args (err e) a = (refl, tt)
    with_options-Fine args (ok o) a = with_config-Fine args o _ a refl

  -- The benchmark command, the application and the service composed: whatever the arguments and the
  -- configuration file, the command never complains of names or options that the checks of the
  -- arguments let through, but for a blank configuration path and an empty output directory, and never
  -- of a configuration that the service finds invalid. All else that it complains of after the checks
  -- comes from outside: the files, the name of the host, the process looked for, the benchmark itself.
  -- Assumed are the laws of the package net and of float64, that `dns.Fqdn` makes no name blank, that
  -- decoded ports are machine integers, and a positive process id.
  pub command_complaints :
      NetLaws net
      → FloatLaws ops
      → IntLaws ops
      → is_positive sys.own_pid ≡ true
      → IsNaming fqdn
      → IsTyped open_file
      → (args : List String)
      → All (λ c. expected_complaint c ≡ true) (run_benchmark_command net vals app_env args).stderr
  unfolding run_benchmark_command
  command_complaints laws fl il own naming typed args =
      with_options-Fine laws fl il own naming typed args (benchmark_arguments vals args) refl
