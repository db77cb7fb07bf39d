-- ===== src/Cmd/Options/Chosen.antt =====
-- dns/cmd/homedns-dns/main.go: what holds of the options that the benchmark command makes of its
-- arguments, whichever flags are given.
use Prim.Native.Char.{Char, code}
use Prim.Native.String.{String}
use text.Mathlib.Text.{◌==◌ as str_eq}
use homedns_analytics.Common.{
  ℕ, suc, length, ◌≡◌, refl, sym, ap, ◌∙◌, subst, Bool, true, false, ◌||◌, List, [], ◌∷◌, All,
  arith, Result, ok, bind-ok, ok_inj, is_positive, is_some, is_blank, ◌==◌, inl, inr, Bool-cases,
}
use homedns_analytics.Strings.{split_on, before, is_empty}
use homedns_analytics.Strings.Trim.{trim_space-blank}
use homedns_analytics.Benchmark.Path.{any_blank}
use homedns_analytics.Benchmark.Suite.{resolve_profile}
use homedns_analytics.App.Options.{BenchmarkOptions, type_a, type_aaaa, no_name, default_interval}
use homedns_analytics.Cmd.Options.{
  BenchmarkFlags, override, override_checked, set_timeout, set_query_type, set_query_names,
  explicit_options, is_listed,
}
use homedns_analytics.Cmd.Values.{
  ArgumentError, parse_benchmark_query_type, parse_benchmark_domains,
}
use homedns_analytics.Cmd.Options.Domains.{IsDomain, parse_domains-IsDomain}

-- What holds before the counts are checked, of the fields that it is about.
pub record IsPlain (path name : String) (t i : ℕ) (ns : List String) (q : ℕ) : Type 0 where
  pub config : str_eq path "" ≡ false
  pub profile : is_some (resolve_profile name) ≡ true
  pub timeout : (t == 0 || is_positive t) ≡ true
  pub interval : i ≡ default_interval
  pub some_name : no_name ns ≡ false
  pub names : any_blank ns ≡ false
  pub type : (q == type_a || q == type_aaaa) ≡ true

module _ {path name : String} {t i : ℕ} {ns : List String} {q : ℕ} where
  with_timeout :
      (t' : ℕ)
      → IsPlain path name t i ns q
      → (t' == 0 || is_positive t') ≡ true
      → IsPlain path name t' i ns q
  with_timeout t' v h = record {
    config = v.config;
    profile = v.profile;
    timeout = h;
    interval = v.interval;
    some_name = v.some_name;
    names = v.names;
    type = v.type;
  }

  with_type :
      (q' : ℕ)
      → IsPlain path name t i ns q
      → (q' == type_a || q' == type_aaaa) ≡ true
      → IsPlain path name t i ns q'
  with_type q' v h = record {
    config = v.config;
    profile = v.profile;
    timeout = v.timeout;
    interval = v.interval;
    some_name = v.some_name;
    names = v.names;
    type = h;
  }

  with_names :
      (ns' : List String)
      → IsPlain path name t i ns q
      → no_name ns' ≡ false
      → any_blank ns' ≡ false
      → IsPlain path name t i ns' q
  with_names ns' v h k = record {
    config = v.config;
    profile = v.profile;
    timeout = v.timeout;
    interval = v.interval;
    some_name = h;
    names = k;
    type = v.type;
  }

abbrev pub Plain : BenchmarkOptions → Type 0
Plain o =
    IsPlain o.config_path o.profile o.timeout o.resource_sampling_interval o.query_names
      o.query_type

override_queries :
    (b : Bool) (n : ℕ) (o : BenchmarkOptions)
    → Plain o
    → Plain (override b (λ o. record o { query_count = n }) o)
override_queries false n o v = v
override_queries true n o v = v

override_warmup :
    (b : Bool) (n : ℕ) (o : BenchmarkOptions)
    → Plain o
    → Plain (override b (λ o. record o { warmup_queries = n }) o)
override_warmup false n o v = v
override_warmup true n o v = v

override_workers :
    (b : Bool) (n : ℕ) (o : BenchmarkOptions)
    → Plain o
    → Plain (override b (λ o. record o { concurrent_workers = n }) o)
override_workers false n o v = v
override_workers true n o v = v

-- A checked block keeps what its step keeps.
override_checked-Plain :
    (b : Bool) (f : BenchmarkOptions → Result ArgumentError BenchmarkOptions)
    (o o' : BenchmarkOptions)
    → ((o₁ : BenchmarkOptions) → f o ≡ ok o₁ → Plain o₁)
    → override_checked b f o ≡ ok o'
    → Plain o
    → Plain o'
override_checked-Plain false f o o' keeps h v = subst Plain (ok_inj {E = ArgumentError} h) v
override_checked-Plain true f o o' keeps h v =
    let (o₁, e, same) =
      bind-ok {E = ArgumentError} (f o) (λ o₁. ok (record o₁ { profile_customized = true }))
        {b = o'} h in
    subst Plain (ok_inj {E = ArgumentError} same) (keeps o₁ e)

set_timeout-Plain : (t : ℕ) (o o' : BenchmarkOptions) → set_timeout t o ≡ ok o' → Plain o → Plain o'
set_timeout-Plain t o o' h v = elim (Bool-cases (is_positive t)) [
  | inl e ↦
      subst Plain {x = record o { timeout = t }} {y = o'} (ground (arith, h, e))
        (with_timeout t v (ground (arith, e)))
  | inr e ↦ absurd (ground (arith, h, e))
]

query_type_supported :
    (name : String) (t : ℕ)
    → parse_benchmark_query_type name ≡ ok t
    → (t == type_a || t == type_aaaa) ≡ true
unfolding parse_benchmark_query_type
query_type_supported name t h = ground (arith, h)

set_query_type-Plain :
    (name : String) (o o' : BenchmarkOptions) → set_query_type name o ≡ ok o' → Plain o → Plain o'
set_query_type-Plain name o o' h v =
    let (t, e, same) =
      bind-ok {E = ArgumentError} (parse_benchmark_query_type name)
        (λ t. ok (record o { query_type = t })) {b = o'} h in
    subst Plain (ok_inj {E = ArgumentError} same) (with_type t v (query_type_supported name t e))

domain_nonblank : (n : String) → IsDomain n → is_blank n ≡ false
domain_nonblank n v = sym (trim_space-blank n) ∙ ap is_empty v.trimmed ∙ v.nonempty

domains_nonblank : (ns : List String) → All IsDomain ns → any_blank ns ≡ false
unfolding any_blank
domains_nonblank [] v = refl
domains_nonblank (n ∷ ns) v =
    let a = domain_nonblank n v.0 in let b = domains_nonblank ns v.1 in ground (arith, a, b)

before_some : (c : Char) (ps : List String) → (n : ℕ) × (length (before c ps) ≡ suc n)
before_some c [] = (0, refl)
before_some c (p ∷ ps) = (length ps, refl)

split_some : (sep : ℕ) (s : String) → (n : ℕ) × (length (split_on sep s) ≡ suc n)
unfolding split_on
split_some sep String.[] = (0, refl)
split_some sep (String.◌∷◌ c s) =
    let (n, e) = split_some sep s in
    elim (Bool-cases (code c == sep)) [
      | inl same ↦ rw same (_, refl)
      | inr other ↦ rw other (before_some c (split_on sep s))
    ]

some_domain :
    (text : String) (ns : List String)
    → length ns ≡ length (split_on b',' text)
    → no_name ns ≡ false
some_domain text [] h = let (n, e) = split_some b',' text in absurd (ground (arith, h, e))
some_domain text (n ∷ ns) h = refl

set_query_names-Plain :
    (text : String) (o o' : BenchmarkOptions) → set_query_names text o ≡ ok o' → Plain o → Plain o'
set_query_names-Plain text o o' h v =
    let (ns, e, same) =
      bind-ok {E = ArgumentError} (parse_benchmark_domains text)
        (λ ns. ok (record o { query_names = ns })) {b = o'} h in
    let (good, count) = parse_domains-IsDomain text ns e in
    subst Plain (ok_inj {E = ArgumentError} same)
      (with_names ns v (some_domain text ns count) (domains_nonblank ns good))

pub explicit_options-Plain :
    (s : BenchmarkFlags) (o o' : BenchmarkOptions)
    → explicit_options s o ≡ ok o'
    → Plain o
    → Plain o'
unfolding explicit_options
explicit_options-Plain s o o' h v =
    let v₁ = override_queries (is_listed "queries" s.actual) s.queries o v in
    let v₂ = override_warmup (is_listed "warmup" s.actual) s.warmup _ v₁ in
    let v₃ = override_workers (is_listed "concurrency" s.actual) s.concurrency _ v₂ in
    let (o₄, e₄, h₄) =
      bind-ok {E = ArgumentError}
        (override_checked (is_listed "timeout" s.actual) (set_timeout s.timeout) _) _ {b = o'} h in
    let v₄ =
      override_checked-Plain _ (set_timeout s.timeout) _ o₄
        (λ o₁ e. set_timeout-Plain s.timeout _ o₁ e v₃) e₄ v₃ in
    let (o₅, e₅, h₅) =
      bind-ok {E = ArgumentError}
        (override_checked (is_listed "query-type" s.actual) (set_query_type s.query_type) o₄) _
        {b = o'} h₄ in
    let v₅ =
      override_checked-Plain _ (set_query_type s.query_type) _ o₅
        (λ o₁ e. set_query_type-Plain s.query_type _ o₁ e v₄) e₅ v₄ in
    override_checked-Plain _ (set_query_names s.domains) _ o'
      (λ o₁ e. set_query_names-Plain s.domains _ o₁ e v₅) h₅ v₅
