-- ===== src/Cmd/Benchmark/Exit.antt =====
-- dns/cmd/homedns-dns/main.go: when the benchmark command succeeds.
use Prim.Native.String.{String}
use homedns_analytics.Common.{◌≡◌, ◌↔◌, refl, ap, List, [], ◌++◌, map, arith, Result, ok, err}
use homedns_analytics.Net.{NetOps}
use homedns_analytics.Config.{Config}
use homedns_analytics.Config.Load.{LoadError, load, IsLoaded, load_iff}
use homedns_analytics.Benchmark.Summary.{BenchmarkSummary}
use homedns_analytics.Benchmark.Service.{ServiceResult}
use homedns_analytics.App.Options.{BenchmarkOptions, resolve}
use homedns_analytics.Cmd.Options.{FlagValues, benchmark_arguments}
use homedns_analytics.Cmd.Values.{ArgumentError}
use homedns_analytics.Cmd.Output.{Line, progress, exit_success}
use homedns_analytics.Cmd.Benchmark.{
  BenchmarkEnv, effective_timeout, settings_lines, result_lines, finished, with_config,
  with_options, run_benchmark_command,
}

module _ {F P E : Type 0} (net : NetOps) (vals : FlagValues) (env : BenchmarkEnv F P E) where
  -- A run that goes through: the arguments are accepted, the configuration loads, and the benchmark
  -- gives the result `r` and writes the lines `lines` on the way.
  pub record IsRun (args : List String) (o : BenchmarkOptions) (cfg : Config) (lines : List P)
      (r : ServiceResult (BenchmarkSummary F)) : Type 0 where
    pub arguments : benchmark_arguments vals args ≡ ok o
    pub loaded : IsLoaded net env.open_file o.config_path cfg
    pub benchmark : env.run_benchmark cfg o ≡ (lines, ok r)

  abbrev pub Completed : List String → Type 0
  Completed args =
      (o : BenchmarkOptions) × (cfg : Config) × (lines : List P) × (r : ServiceResult
        (BenchmarkSummary F))
      × IsRun args o cfg lines r

  finished-Completed :
      (args : List String) (o : BenchmarkOptions) (cfg : Config) (lines : List P)
      (r : Result E (ServiceResult (BenchmarkSummary F))) (before : List (Line F P))
      → benchmark_arguments vals args ≡ ok o
      → IsLoaded net env.open_file o.config_path cfg
      → env.run_benchmark cfg o ≡ (lines, r)
      → (finished before r).code ≡ 0
      → Completed args
  finished-Completed args o cfg lines (err e) before a l b z = absurd (ground (arith, z))
  finished-Completed args o cfg lines (ok r) before a l b z =
      (o, cfg, lines, r, record { arguments = a; loaded = l; benchmark = b })

  with_config-Completed :
      (args : List String) (o : BenchmarkOptions) (r : Result LoadError Config)
      → benchmark_arguments vals args ≡ ok o
      → load net env.open_file o.config_path ≡ r
      → (with_config net vals env o r).code ≡ 0
      → Completed args
  with_config-Completed args o (err e) a l z = absurd (ground (arith, z))
  with_config-Completed args o (ok cfg) a l z =
      let (lines, r) = env.run_benchmark cfg o in
      let loaded = (load_iff net env.open_file o.config_path cfg).0 l in
      finished-Completed args o cfg lines r _ a loaded refl z

  with_options-Completed :
      (args : List String) (r : Result ArgumentError BenchmarkOptions)
      → benchmark_arguments vals args ≡ r
      → (with_options net vals env r).code ≡ 0
      → Completed args
  with_options-Completed args (err e) a z = absurd (ground (arith, z))
  with_options-Completed args (ok o) a z = with_config-Completed args o _ a refl z

  -- A run that goes through: its lines, the exit code, and the timeout that the settings name.
  pub benchmark_success :
      (args : List String) (o : BenchmarkOptions) (cfg : Config) (lines : List P)
      (r : ServiceResult (BenchmarkSummary F))
      → IsRun args o cfg lines r
      → (run_benchmark_command net vals env args ≡ record {
        code = 0;
        stdout = (settings_lines env.type_name cfg o ++ map progress lines) ++ result_lines r;
        stderr = [];
      })
        × (effective_timeout cfg o ≡ (resolve cfg o).timeout)
  unfolding run_benchmark_command effective_timeout resolve
  benchmark_success args o cfg lines r v =
      let loaded = (load_iff net env.open_file o.config_path cfg).1 v.loaded in
      (rw v.arguments (rw loaded (rw v.benchmark refl)), ground arith)

  -- The benchmark command exits with 0 exactly if its arguments are accepted, the configuration loads, and
  -- the benchmark gives a result.
  pub exit_success_iff :
      (args : List String)
      → ((run_benchmark_command net vals env args).code ≡ exit_success) ↔ Completed args
  unfolding run_benchmark_command
  exit_success_iff args = (
    with_options-Completed args (benchmark_arguments vals args) refl,
    λ c.
        let (o, cfg, lines, r, v) = c in
        ap (λ out. out.code) (benchmark_success args o cfg lines r v).0,
  )
