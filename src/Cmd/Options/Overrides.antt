-- ===== src/Cmd/Options/Overrides.antt =====
-- dns/cmd/homedns-dns/main.go: which option of the benchmark command each flag sets.
use Prim.Native.String.{String}
use text.Mathlib.Text.{◌==◌ as str_eq}
use homedns_analytics.Common.{◌≡◌, Option, none, some, Result, ok, if◌then◌else◌}
use homedns_analytics.Benchmark.Suite.{Profile}
use homedns_analytics.App.Options.{BenchmarkOptions}
use homedns_analytics.Cmd.Values.{
  ArgumentError, parse_benchmark_query_type, parse_benchmark_domains,
}
use homedns_analytics.Cmd.Options.{FlagValues, BenchmarkFlags, is_listed}
use homedns_analytics.Cmd.Options.Given.{Given, text_or, value_of}

-- The text of a flag as `parse` reads it, or what is there without the flag.
abbrev pub read_or :
    {A : Type 0} → (String → Result ArgumentError A) → Option String → A → Result ArgumentError A
read_or parse none a = ok a
read_or parse (some t) a = parse t

-- The options have what the flags give, and where a flag is not given the profile or the defaults `d`.
pub record IsAsGiven {vals : FlagValues} (g : Given vals) (p : Profile) (d o : BenchmarkOptions)
    : Type 0 where
  pub config : o.config_path ≡ g.config
  pub profile : o.profile ≡ p.name
  pub output : o.output_directory ≡ text_or g.output "benchmarks/runs"
  pub queries : o.query_count ≡ value_of g.queries p.query_count
  pub warmup : o.warmup_queries ≡ value_of g.warmup p.warmup_queries
  pub concurrency : o.concurrent_workers ≡ value_of g.concurrency p.concurrent_workers
  pub timeout : o.timeout ≡ value_of g.timeout d.timeout
  pub query_type : read_or parse_benchmark_query_type g.query_type d.query_type ≡ ok o.query_type
  pub domains : read_or parse_benchmark_domains g.domains d.query_names ≡ ok o.query_names

-- What the blocks of `runBenchmark` make of the flags that are listed.
record IsOverridden (s : BenchmarkFlags) (o o' : BenchmarkOptions) : Type 0 where
  config : o'.config_path ≡ o.config_path
  profile : o'.profile ≡ o.profile
  output : o'.output_directory ≡ o.output_directory
  queries : o'.query_count ≡ (if is_listed "queries" s.actual then s.queries else o.query_count)
  warmup : o'.warmup_queries ≡ (if is_listed "warmup" s.actual then s.warmup else o.warmup_queries)
  concurrency :
      o'.concurrent_workers
      ≡ (if is_listed "concurrency" s.actual then s.concurrency else o.concurrent_workers)
  timeout : o'.timeout ≡ (if is_listed "timeout" s.actual then s.timeout else o.timeout)
  query_type :
      (if is_listed "query-type" s.actual
        then parse_benchmark_query_type s.query_type
        else ok o.query_type)
      ≡ ok o'.query_type
  domains :
      (if is_listed "domains" s.actual then parse_benchmark_domains s.domains else ok o.query_names)
      ≡ ok o'.query_names
