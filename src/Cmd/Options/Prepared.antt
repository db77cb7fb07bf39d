-- ===== src/Cmd/Options/Prepared.antt =====
-- dns/cmd/homedns-dns/main.go and dns/internal/app/benchmark.go: `RunBenchmark` takes the options that
-- the benchmark command makes of its arguments.
use Prim.Native.String.{String}
use text.Mathlib.Text.{◌==◌ as str_eq}
use homedns_analytics.Common.{
  ℕ, suc, ◌≡◌, refl, ◌∙◌, Bool, true, false, none, some, List, [], ◌∷◌, arith, Result, ok, err,
  is_positive, is_blank, ◌==◌, inl, inr, Bool-cases, if◌then◌else◌,
}
use homedns_analytics.Net.{NetOps}
use homedns_analytics.Config.{Config}
use homedns_analytics.Config.Accepted.{IsAccepted}
use homedns_analytics.Strings.{is_empty, trim_space}
use homedns_analytics.Strings.Trim.{trim_space-blank, blank-trim_space}
use homedns_analytics.Benchmark.Path.{any_blank}
use homedns_analytics.App.Benchmark.{prepare_options, RunBenchmarkError}
use homedns_analytics.App.Options.{
  BenchmarkOptions, no_name, normalize_names, normalize_benchmark_query_names, resolve,
  validate_options, first_blank, OptionsError,
}
use homedns_analytics.Cmd.Options.{FlagValues, benchmark_arguments}
use homedns_analytics.Cmd.Options.Chosen.{Plain}
use homedns_analytics.Cmd.Options.Accepted.{IsChosen, benchmark_arguments-IsChosen}
use homedns_analytics.App.Benchmark.{bad_options, checked}
use homedns_analytics.App.Options.{missing_config_path, missing_output}

-- `dns.Fqdn` keeps a name from being blank.
abbrev pub IsNaming : (String → String) → Type 0
IsNaming fqdn = (n : String) → is_blank n ≡ false → is_blank (fqdn n) ≡ false

normalize_nonblank :
    (fqdn : String → String) (index k : ℕ) (ns : List String)
    → IsNaming fqdn
    → any_blank ns ≡ false
    → (names : List String) × (normalize_names fqdn index ns ≡ ok names)
      × (first_blank k names ≡ none)
      × (no_name names ≡ no_name ns)
unfolding normalize_names first_blank any_blank
normalize_nonblank fqdn index k [] law h = ([], refl, refl, refl)
normalize_nonblank fqdn index k (n ∷ ns) law h =
    let (names, e, f, g) = normalize_nonblank fqdn (suc index) (suc k) ns law (ground (arith, h)) in
    let blank : is_blank n ≡ false = ground (arith, h) in
    let filled : is_empty (trim_space n) ≡ false = trim_space-blank n ∙ blank in
    let named = law (trim_space n) (blank-trim_space n ∙ blank) in
    (fqdn (trim_space n) ∷ names, ground (arith, e, filled), rw (named, f) refl, refl)

resolve_timeout :
    (net : NetOps) (cfg : Config) (o : BenchmarkOptions)
    → IsAccepted net cfg
    → Plain o
    → (t : ℕ) × (is_positive t ≡ true) × (resolve cfg o ≡ record o { timeout = t })
unfolding resolve
resolve_timeout net cfg o a v =
    let interval : (o.resource_sampling_interval == 0) ≡ false = ground (arith, v.interval) in
    elim (Bool-cases (o.timeout == 0)) [
      | inl e ↦ (cfg.upstream.timeout, a.upstream_timeout, rw (e, interval) refl)
      | inr e ↦ (o.timeout, ground (arith, v.timeout, e), rw (e, interval) refl)
    ]

normalized :
    (fqdn : String → String) (ns : List String)
    → IsNaming fqdn
    → no_name ns ≡ false
    → any_blank ns ≡ false
    → (names : List String) × (normalize_benchmark_query_names fqdn ns ≡ ok names)
      × (first_blank 0 names ≡ none)
      × (no_name names ≡ false)
unfolding normalize_benchmark_query_names
normalized fqdn [] law h k = absurd (ground (arith, h))
normalized fqdn (n ∷ ns) law h k = normalize_nonblank fqdn 0 0 (n ∷ ns) law k

-- What `Validate` says of chosen options with the resolved timeout and the names normalized.
validate_chosen :
    (o : BenchmarkOptions) (t : ℕ) (names : List String)
    → IsChosen o
    → is_positive t ≡ true
    → first_blank 0 names ≡ none
    → no_name names ≡ false
    → validate_options (record o { timeout = t; query_names = names }) ≡ (
        if is_blank o.config_path
        then some missing_config_path
        else if str_eq o.output_directory ""
        then some missing_output
        else none)
unfolding validate_options
validate_chosen o t names v p f g =
    let plain = v.plain in
    ground (
      arith, plain.profile, plain.interval, plain.type, v.queries, v.warmup, v.workers, v.fewer, p,
      f, g,
    )

prepare_chosen :
    {E : Type 0} (net : NetOps) (fqdn : String → String) (cfg : Config) (o : BenchmarkOptions)
    → IsAccepted net cfg
    → IsNaming fqdn
    → IsChosen o
    → (t : ℕ) × (names : List String) × (◌≡◌ {A = Result (RunBenchmarkError E) BenchmarkOptions}
        (prepare_options fqdn cfg o)
        (checked
          (if is_blank o.config_path
            then some missing_config_path
            else if str_eq o.output_directory ""
            then some missing_output
            else none)
          (record o { timeout = t; query_names = names })))
unfolding prepare_options
prepare_chosen net fqdn cfg o a law v =
    let (t, p, r) = resolve_timeout net cfg o a v.plain in
    let (names, e, f, g) = normalized fqdn o.query_names law v.plain.some_name v.plain.names in
    let ok_options = validate_chosen o t names v p f g in
    (t, names, rw (r, prepare_options) (rw e (rw ok_options refl)))

checked_cases :
    {E : Type 0} (a b : Bool) (x y : OptionsError) (o : BenchmarkOptions)
    → ◌≡◌ {A = Result (RunBenchmarkError E) BenchmarkOptions}
        (checked (if a then some x else if b then some y else none) o)
        (if a then err (bad_options x) else if b then err (bad_options y) else ok o)
checked_cases true b x y o = refl
checked_cases false true x y o = refl
checked_cases false false x y o = refl

-- Options that the benchmark command makes of any arguments, with an accepted configuration:
-- `RunBenchmark` takes them, and changes nothing but the timeout and the names to query, unless the
-- path of the configuration is blank or the output directory is empty; these two it refuses.
-- `dns.Fqdn` makes no name blank.
pub benchmark_arguments-prepare_options :
    {E : Type 0} (net : NetOps) (fqdn : String → String) (cfg : Config) (vals : FlagValues)
    (args : List String) (o : BenchmarkOptions)
    → IsAccepted net cfg
    → IsNaming fqdn
    → benchmark_arguments vals args ≡ ok o
    → (t : ℕ) × (names : List String) × (◌≡◌ {A = Result (RunBenchmarkError E) BenchmarkOptions}
        (prepare_options fqdn cfg o)
        (if is_blank o.config_path
          then err (bad_options missing_config_path)
          else if str_eq o.output_directory ""
          then err (bad_options missing_output)
          else ok (record o { timeout = t; query_names = names })))
benchmark_arguments-prepare_options {E} net fqdn cfg vals args o a law h =
    let chosen = benchmark_arguments-IsChosen vals args o h in
    let (t, names, e) = prepare_chosen {E = E} net fqdn cfg o a law chosen in
    (t, names, e ∙ checked_cases (is_blank o.config_path) (str_eq o.output_directory "") _ _ _)
