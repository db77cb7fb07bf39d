-- ===== src/Cmd/Options.antt =====
-- dns/cmd/homedns-dns/main.go: the flags of the benchmark command and the options that `runBenchmark`
-- makes of them.
pub mod Domains
pub mod Given
pub mod Reading
pub mod Overrides
pub mod Chosen
pub mod Accepted
pub mod Prepared
use Prim.Native.Char.{Char, code}
use Prim.Native.String.{String}
use text.Mathlib.Text.{◌==◌ as str_eq}
use homedns_analytics.Common.{
  ℕ, suc, Bool, true, false, not, ◌||◌, Option, none, some, List, [], ◌∷◌, Result, ok, err, bind,
  is_positive, is_negative, ltb_signed, if◌then◌else◌,
}
use homedns_analytics.Strings.{split_on, trim_space, is_empty, upper_is}
use homedns_analytics.Benchmark.Suite.{Profile, resolve_profile}
use homedns_analytics.App.Options.{BenchmarkOptions, default_benchmark_options, type_a, type_aaaa}
use homedns_analytics.Cmd.Flags.{FlagSet, FlagKind, FlagError, valued, parse}
use homedns_analytics.Cmd.Values.{
  ArgumentError, bad_flags, unexpected_arguments, missing_config, invalid_profile,
  nonpositive_timeout, unsupported_query_type, empty_domain, no_queries, negative_warmup,
  no_workers, too_many_workers, parse_benchmark_query_type, trim_domains, parse_benchmark_domains,
}

-- `strconv.ParseInt` with base 0 and 64 bits, and `time.ParseDuration`, as signed words.
pub record FlagValues : Type 0 where
  pub parse_int : String → Option ℕ
  pub parse_duration : String → Option ℕ

-- The variables of the flags; `actual` lists the flags that were set.
pub record BenchmarkFlags : Type 0 where
  pub config : String
  pub profile : String
  pub output : String
  pub queries : ℕ
  pub warmup : ℕ
  pub concurrency : ℕ
  pub timeout : ℕ
  pub query_type : String
  pub domains : String
  pub actual : List String

abbrev pub initial_flags : BenchmarkFlags
initial_flags = record {
  config = "";
  profile = "quick";
  output = "benchmarks/runs";
  queries = 0;
  warmup = 0;
  concurrency = 0;
  timeout = 0;
  query_type = "";
  domains = "";
  actual = [];
}

abbrev with_number : Option ℕ → (ℕ → BenchmarkFlags) → Option BenchmarkFlags
with_number none f = none
with_number (some n) f = some (f n)

unfoldable pub benchmark_formal : String → Option FlagKind
benchmark_formal name =
    if str_eq name "config"
      || str_eq name "profile"
      || str_eq name "output"
      || str_eq name "queries"
      || str_eq name "warmup"
      || str_eq name "concurrency"
      || str_eq name "timeout"
      || str_eq name "query-type"
      || str_eq name "domains"
    then some valued
    else none

-- `Value.Set` of the flag, which then counts as set.
unfoldable pub set_benchmark_flag :
    FlagValues → String → String → BenchmarkFlags → Option BenchmarkFlags
set_benchmark_flag vals name value s =
    let s' : BenchmarkFlags = record s { actual = name ∷ s.actual } in
    if str_eq name "config"
    then some (record s' { config = value })
    else if str_eq name "profile"
    then some (record s' { profile = value })
    else if str_eq name "output"
    then some (record s' { output = value })
    else if str_eq name "queries"
    then with_number (vals.parse_int value) (λ n. record s' { queries = n })
    else if str_eq name "warmup"
    then with_number (vals.parse_int value) (λ n. record s' { warmup = n })
    else if str_eq name "concurrency"
    then with_number (vals.parse_int value) (λ n. record s' { concurrency = n })
    else if str_eq name "timeout"
    then with_number (vals.parse_duration value) (λ n. record s' { timeout = n })
    else if str_eq name "query-type"
    then some (record s' { query_type = value })
    else if str_eq name "domains"
    then some (record s' { domains = value })
    else none

abbrev pub benchmark_flag_set : FlagValues → FlagSet BenchmarkFlags
benchmark_flag_set vals = record { formal = benchmark_formal; set = set_benchmark_flag vals }

-- `explicitFlags[name]`
unfoldable pub is_listed : String → List String → Bool
is_listed name [] = false
is_listed name (n ∷ ns) = str_eq n name || is_listed name ns

-- The blocks of `runBenchmark` that take over an explicit flag.
abbrev pub override :
    Bool → (BenchmarkOptions → BenchmarkOptions) → BenchmarkOptions → BenchmarkOptions
override false f o = o
override true f o = record (f o) { profile_customized = true }

abbrev pub override_checked :
    Bool
    → (BenchmarkOptions → Result ArgumentError BenchmarkOptions)
    → BenchmarkOptions
    → Result ArgumentError BenchmarkOptions
override_checked false f o = ok o
override_checked true f o = bind (f o) (λ o'. ok (record o' { profile_customized = true }))

abbrev pub set_timeout : ℕ → BenchmarkOptions → Result ArgumentError BenchmarkOptions
set_timeout t o =
    if not (is_positive t) then err nonpositive_timeout else ok (record o { timeout = t })

abbrev pub set_query_type : String → BenchmarkOptions → Result ArgumentError BenchmarkOptions
set_query_type name o =
    bind (parse_benchmark_query_type name) (λ t. ok (record o { query_type = t }))

abbrev pub set_query_names : String → BenchmarkOptions → Result ArgumentError BenchmarkOptions
set_query_names text o =
    bind (parse_benchmark_domains text) (λ names. ok (record o { query_names = names }))

-- The defaults with the profile of the flags.
unfoldable pub profile_options : BenchmarkFlags → Profile → BenchmarkOptions → BenchmarkOptions
profile_options s p o = record o {
  config_path = s.config;
  profile = p.name;
  output_directory = s.output;
  query_count = p.query_count;
  warmup_queries = p.warmup_queries;
  concurrent_workers = p.concurrent_workers;
}

unfoldable pub explicit_options :
    BenchmarkFlags → BenchmarkOptions → Result ArgumentError BenchmarkOptions
explicit_options s o =
    let o₁ =
      override (is_listed "queries" s.actual) (λ o. record o { query_count = s.queries }) o in
    let o₂ =
      override (is_listed "warmup" s.actual) (λ o. record o { warmup_queries = s.warmup }) o₁ in
    let o₃ =
      override (is_listed "concurrency" s.actual)
        (λ o. record o { concurrent_workers = s.concurrency }) o₂ in
    bind (override_checked (is_listed "timeout" s.actual) (set_timeout s.timeout) o₃) (λ o₄.
      bind (override_checked (is_listed "query-type" s.actual) (set_query_type s.query_type) o₄)
        (λ o₅. override_checked (is_listed "domains" s.actual) (set_query_names s.domains) o₅))

-- The checks before the configuration is loaded.
unfoldable pub check_counts : BenchmarkOptions → Result ArgumentError BenchmarkOptions
check_counts o =
    if not (is_positive o.query_count)
    then err no_queries
    else if is_negative o.warmup_queries
    then err negative_warmup
    else if not (is_positive o.concurrent_workers)
    then err no_workers
    else if ltb_signed o.query_count o.concurrent_workers
    then err too_many_workers
    else ok o

abbrev pub with_profile :
    BenchmarkFlags
    → Option Profile
    → Option BenchmarkOptions
    → Result ArgumentError BenchmarkOptions
with_profile s (some p) (some o) = bind (explicit_options s (profile_options s p o)) check_counts
with_profile s (some p) none = err invalid_profile
with_profile s none o = err invalid_profile

-- `runBenchmark` from the parsed flags to the options.
unfoldable pub options_of_flags :
    BenchmarkFlags → List String → Result ArgumentError BenchmarkOptions
options_of_flags s (a ∷ args) = err (unexpected_arguments (a ∷ args))
options_of_flags s [] =
    if str_eq s.config ""
    then err missing_config
    else with_profile s (resolve_profile s.profile) default_benchmark_options

abbrev pub parsed :
    Result FlagError (BenchmarkFlags × List String) → Result ArgumentError BenchmarkOptions
parsed (err e) = err (bad_flags e)
parsed (ok (s, args)) = options_of_flags s args

-- `runBenchmark` up to the loading of the configuration.
unfoldable pub benchmark_arguments :
    FlagValues → List String → Result ArgumentError BenchmarkOptions
benchmark_arguments vals args = parsed (parse (benchmark_flag_set vals) args initial_flags)
