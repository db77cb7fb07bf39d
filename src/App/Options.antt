-- ===== src/App/Options.antt =====
-- dns/internal/app/benchmark.go: the options of a benchmark and their validation.
use Prim.Native.String.{String}
use text.Mathlib.Text.{◌==◌ as str_eq}
use homedns_analytics.Common.{
  ℕ, suc, Bool, true, false, not, ◌||◌, Option, none, some, List, [], ◌∷◌, Result, ok, err, bind,
  is_positive, is_negative, ltb_signed, is_blank, is_some, ◌==◌, if◌then◌else◌,
}
use homedns_analytics.Strings.{is_empty, trim_space}
use homedns_analytics.Config.{Config}
use homedns_analytics.Benchmark.Suite.{Profile, resolve_profile}

-- `BenchmarkOptions` without the progress reporter. A timeout of 0 is taken from the configuration.
pub record BenchmarkOptions : Type 0 where
  pub profile : String
  pub profile_customized : Bool
  pub config_path : String
  pub output_directory : String
  pub query_count : ℕ
  pub warmup_queries : ℕ
  pub concurrent_workers : ℕ
  pub timeout : ℕ
  pub resource_sampling_interval : ℕ
  pub query_names : List String
  pub query_type : ℕ

-- `DefaultResourceSamplingInterval`, a second.
abbrev pub default_interval : ℕ
default_interval = 1_000_000_000

abbrev pub type_a : ℕ
type_a = 1

abbrev pub type_aaaa : ℕ
type_aaaa = 28

-- `DefaultBenchmarkOptions`, for the default profile; `none` is the panic if that is unknown.
abbrev pub from_profile : Option Profile → Option BenchmarkOptions
from_profile none = none
from_profile (some p) = some (record {
  profile = p.name;
  profile_customized = false;
  config_path = "";
  output_directory = "benchmarks/runs";
  query_count = p.query_count;
  warmup_queries = p.warmup_queries;
  concurrent_workers = p.concurrent_workers;
  timeout = 0;
  resource_sampling_interval = default_interval;
  query_names = "example.com." ∷ "cloudflare.com." ∷ "google.com." ∷ "github.com." ∷ [];
  query_type = type_a;
})

unfoldable pub default_benchmark_options : Option BenchmarkOptions
default_benchmark_options = from_profile (resolve_profile "quick")

-- `BenchmarkOptions.Resolve`
unfoldable pub resolve : Config → BenchmarkOptions → BenchmarkOptions
resolve cfg o =
    let o' : BenchmarkOptions =
      if o.timeout == 0 then record o { timeout = cfg.upstream.timeout } else o in
    if o'.resource_sampling_interval == 0
    then record o' { resource_sampling_interval = default_interval }
    else o'

pub data OptionsError : Type 0 where
  unsupported_profile missing_config_path missing_output no_queries negative_warmup : OptionsError
  no_workers too_many_workers no_timeout no_interval no_names unsupported_type : OptionsError
  empty_name : ℕ → OptionsError

-- The loop over the names, from `index` on.
unfoldable pub first_blank : ℕ → List String → Option OptionsError
first_blank index [] = none
first_blank index (n ∷ ns) =
    let rest = first_blank (suc index) ns in if is_blank n then some (empty_name index) else rest

abbrev pub no_name : List String → Bool
no_name [] = true
no_name (n ∷ ns) = false

-- `BenchmarkOptions.Validate`
unfoldable pub validate_options : BenchmarkOptions → Option OptionsError
validate_options o =
    if not (is_some (resolve_profile o.profile))
    then some unsupported_profile
    else if is_blank o.config_path
    then some missing_config_path
    else if str_eq o.output_directory ""
    then some missing_output
    else if not (is_positive o.query_count)
    then some no_queries
    else if is_negative o.warmup_queries
    then some negative_warmup
    else if not (is_positive o.concurrent_workers)
    then some no_workers
    else if ltb_signed o.query_count o.concurrent_workers
    then some too_many_workers
    else if not (is_positive o.timeout)
    then some no_timeout
    else if not (is_positive o.resource_sampling_interval)
    then some no_interval
    else if no_name o.query_names
    then some no_names
    else elim (first_blank 0 o.query_names) [
      | some e ↦ some e
      | none ↦
          if o.query_type == type_a || o.query_type == type_aaaa
          then none
          else some unsupported_type
    ]

-- The loop of `normalizeBenchmarkQueryNames`, from `index` on; `fqdn` is `dns.Fqdn` of miekg/dns.
unfoldable pub normalize_names :
    (String → String) → ℕ → List String → Result OptionsError (List String)
normalize_names fqdn index [] = ok []
normalize_names fqdn index (n ∷ ns) =
    let rest = normalize_names fqdn (suc index) ns in
    let name = trim_space n in
    if is_empty name then err (empty_name index) else bind rest (λ names. ok (fqdn name ∷ names))

unfoldable pub normalize_benchmark_query_names :
    (String → String) → List String → Result OptionsError (List String)
unfolding normalize_names
normalize_benchmark_query_names fqdn [] = err no_names
normalize_benchmark_query_names fqdn (n ∷ ns) = normalize_names fqdn 0 (n ∷ ns)
