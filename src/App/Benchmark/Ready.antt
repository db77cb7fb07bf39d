-- ===== src/App/Benchmark/Ready.antt =====
-- dns/internal/app/benchmark.go: what `BenchmarkOptions.Validate` accepts, and that the options which
-- `RunBenchmark` works with have passed it.
use Prim.Native.String.{String}
use text.Mathlib.Text.{◌==◌ as str_eq}
use homedns_analytics.Common.{
  ℕ, suc, ◌≡◌, refl, subst, true, false, ◌||◌, Option, none, some, List, [], ◌∷◌, arith, Result, ok,
  is_positive, is_negative, ltb_signed, is_some, ◌==◌, bind-ok,
}
use homedns_analytics.App.Benchmark.{checked, lift, bad_names}
use homedns_analytics.Config.{Config}
use homedns_analytics.Benchmark.Path.{any_blank}
use homedns_analytics.Benchmark.Suite.{resolve_profile}
use homedns_analytics.App.Benchmark.{RunBenchmarkError, prepare_options}
use homedns_analytics.App.Options.{
  BenchmarkOptions, OptionsError, validate_options, first_blank, resolve,
  normalize_benchmark_query_names, no_name, type_a, type_aaaa,
}

-- What `BenchmarkOptions.Validate` asks for.
pub record IsReady (o : BenchmarkOptions) : Type 0 where
  pub profile : is_some (resolve_profile o.profile) ≡ true
  pub output : str_eq o.output_directory "" ≡ false
  pub queries : is_positive o.query_count ≡ true
  pub warmup : is_negative o.warmup_queries ≡ false
  pub workers : is_positive o.concurrent_workers ≡ true
  pub fewer : ltb_signed o.query_count o.concurrent_workers ≡ false
  pub timeout : is_positive o.timeout ≡ true
  pub interval : is_positive o.resource_sampling_interval ≡ true
  pub some_name : no_name o.query_names ≡ false
  pub names : any_blank o.query_names ≡ false
  pub query_type : (o.query_type == type_a || o.query_type == type_aaaa) ≡ true

first_blank-any_blank :
    (index : ℕ) (ns : List String) → first_blank index ns ≡ none → any_blank ns ≡ false
unfolding first_blank any_blank
first_blank-any_blank index [] h = refl
first_blank-any_blank index (n ∷ ns) h =
    let ih = first_blank-any_blank (suc index) ns in ground arith

pub validate_options-IsReady : (o : BenchmarkOptions) → validate_options o ≡ none → IsReady o
unfolding validate_options
validate_options-IsReady o h = record {
  profile = ground arith;
  output = ground arith;
  queries = ground arith;
  warmup = ground arith;
  workers = ground arith;
  fewer = ground arith;
  timeout = ground arith;
  interval = ground arith;
  some_name = ground arith;
  names = first_blank-any_blank 0 o.query_names (ground arith);
  query_type = ground arith;
}

checked-ok :
    {A E : Type 0} (v : Option OptionsError) {a b : A}
    → ◌≡◌ {A = Result (RunBenchmarkError E) A} (checked v a) (ok b)
    → (v ≡ none) × (a ≡ b)
checked-ok none h = (refl, ground (arith, h))
checked-ok (some e) h = absurd (ground (arith, h))

-- The options that `RunBenchmark` goes on with have passed `Validate`.
pub prepare_options-IsReady :
    {E : Type 0} (fqdn : String → String) (cfg : Config) (o ready : BenchmarkOptions)
    → ◌≡◌ {A = Result (RunBenchmarkError E) _} (prepare_options fqdn cfg o) (ok ready)
    → IsReady ready
unfolding prepare_options
prepare_options-IsReady {E} fqdn cfg o ready h =
    let o' = resolve cfg o in
    let (names, e, k) =
      bind-ok {E = RunBenchmarkError E}
        (lift bad_names (normalize_benchmark_query_names fqdn o'.query_names))
        (λ names.
          checked (validate_options (record o' { query_names = names }))
            (record o' { query_names = names }))
        h in
    let (v, same) = checked-ok {E = E} _ k in subst IsReady same (validate_options-IsReady _ v)
