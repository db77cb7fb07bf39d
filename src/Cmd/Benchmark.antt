-- ===== src/Cmd/Benchmark.antt =====
-- dns/cmd/homedns-dns/main.go: the command that runs a benchmark, after its options are known.
pub mod Exit
pub mod Errors
use Prim.Native.String.{String}
use homedns_analytics.Common.{
  ℕ, Bool, true, false, Option, none, some, List, [], ◌∷◌, ◌++◌, map, GoError, Result, ok, err,
  ◌==◌, if◌then◌else◌,
}
use homedns_analytics.Net.{NetOps}
use homedns_analytics.Config.{Config}
use homedns_analytics.Config.Load.{Documents, LoadError, load}
use homedns_analytics.Benchmark.Summary.{BenchmarkSummary}
use homedns_analytics.Benchmark.Service.{ServiceResult}
use homedns_analytics.App.Options.{BenchmarkOptions}
use homedns_analytics.Cmd.Options.{FlagValues, benchmark_arguments}
use homedns_analytics.Cmd.Values.{ArgumentError}
use homedns_analytics.Cmd.Output.{
  Outcome, Line, Complaint, running, completed, empty_line, profile, customized, queries, warmup,
  workers, query_type, domains, timeout, sampling, output, report, status, requests, successful,
  failed, timeouts, attempted_qps, successful_qps, progress, bad_arguments, load_failed, run_failed,
  exit_success, exit_failure, exit_invalid_args,
}

-- The environment: the files, `app.RunBenchmark` with the lines that its progress reporter writes, and
-- the names of query types in `dns.TypeToString`.
pub record BenchmarkEnv (F P E : Type 0) : Type 0 where
  pub open_file : String → Result GoError Documents
  pub run_benchmark :
      Config → BenchmarkOptions → List P × Result E (ServiceResult (BenchmarkSummary F))
  pub type_name : ℕ → String

unfoldable pub effective_timeout : Config → BenchmarkOptions → ℕ
effective_timeout cfg o = if o.timeout == 0 then cfg.upstream.timeout else o.timeout

module _ {F P : Type 0} where
  -- What is printed before the benchmark.
  unfoldable pub settings_lines : (ℕ → String) → Config → BenchmarkOptions → List (Line F P)
  unfolding effective_timeout
  settings_lines type_name cfg o =
      running
      ∷ empty_line
      ∷ profile o.profile
      ∷ customized o.profile_customized
      ∷ queries o.query_count
      ∷ warmup o.warmup_queries
      ∷ workers o.concurrent_workers
      ∷ query_type (type_name o.query_type)
      ∷ domains o.query_names
      ∷ timeout (effective_timeout cfg o)
      ∷ sampling o.resource_sampling_interval
      ∷ output o.output_directory
      ∷ empty_line
      ∷ []

  -- What is printed after it.
  unfoldable pub result_lines : ServiceResult (BenchmarkSummary F) → List (Line F P)
  result_lines r =
      let s = r.report in
      empty_line
      ∷ completed
      ∷ empty_line
      ∷ status s.status
      ∷ requests s.requests.attempted
      ∷ successful s.requests.successful
      ∷ failed s.requests.failed
      ∷ timeouts s.requests.timeouts
      ∷ empty_line
      ∷ attempted_qps s.throughput.attempted_queries_per_second
      ∷ successful_qps s.throughput.successful_queries_per_second
      ∷ empty_line
      ∷ report r.path
      ∷ []

module _ {F P E : Type 0} where
  abbrev pub finished :
      List (Line F P) → Result E (ServiceResult (BenchmarkSummary F)) → Outcome F P E
  finished shown (err e) = record {
    code = exit_failure;
    stdout = shown;
    stderr = run_failed e ∷ [];
  }
  finished shown (ok r) = record {
    code = exit_success;
    stdout = shown ++ result_lines r;
    stderr = [];
  }

  module _ (net : NetOps) (vals : FlagValues) (env : BenchmarkEnv F P E) where
    abbrev pub execute : Config → BenchmarkOptions → Outcome F P E
    execute cfg o =
        let (lines, result) = env.run_benchmark cfg o in
        finished (settings_lines env.type_name cfg o ++ map progress lines) result

    abbrev pub with_config : BenchmarkOptions → Result LoadError Config → Outcome F P E
    with_config o (err e) = record { code = exit_failure; stdout = []; stderr = load_failed e ∷ [] }
    with_config o (ok cfg) = execute cfg o

    abbrev pub with_options : Result ArgumentError BenchmarkOptions → Outcome F P E
    with_options (err e) = record {
      code = exit_invalid_args;
      stdout = [];
      stderr = bad_arguments e ∷ [];
    }
    with_options (ok o) = with_config o (load net env.open_file o.config_path)

    -- `runBenchmark`; the configuration is loaded from the path in the options.
    unfoldable pub run_benchmark_command : List String → Outcome F P E
    run_benchmark_command args = with_options (benchmark_arguments vals args)
