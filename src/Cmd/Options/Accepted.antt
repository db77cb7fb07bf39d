-- ===== src/Cmd/Options/Accepted.antt =====
-- dns/cmd/homedns-dns/main.go: the options of an accepted command line.
use Prim.Native.String.{String}
use text.Mathlib.Text.{◌==◌ as str_eq}
use homedns_analytics.Common.{
  ◌≡◌, refl, sym, ◌∙◌, subst, true, false, Option, none, some, List, [], ◌∷◌, arith, Result, ok,
  err, bind-ok, ok_inj, is_positive, is_negative, ltb_signed, is_some, some_inj, is_blank, inl, inr,
  Bool-cases, all_space, is_space,
}
use homedns_analytics.Benchmark.Path.{any_blank}
use homedns_analytics.Benchmark.Suite.{Profile, resolve_profile}
use homedns_analytics.App.Options.{BenchmarkOptions, default_benchmark_options}
use homedns_analytics.Cmd.Flags.{parse, FlagError}
use homedns_analytics.Cmd.Options.{
  BenchmarkFlags, FlagValues, profile_options, explicit_options, check_counts, options_of_flags,
  parsed, benchmark_arguments, benchmark_flag_set, initial_flags, with_profile,
}
use homedns_analytics.Cmd.Values.{ArgumentError}
use homedns_analytics.Cmd.Options.Chosen.{Plain, explicit_options-Plain}

-- What the options are when the configuration is loaded.
pub record IsChosen (o : BenchmarkOptions) : Type 0 where
  pub plain : Plain o
  pub queries : is_positive o.query_count ≡ true
  pub warmup : is_negative o.warmup_queries ≡ false
  pub workers : is_positive o.concurrent_workers ≡ true
  pub fewer : ltb_signed o.query_count o.concurrent_workers ≡ false

abbrev Known : Profile → Type 0
Known p = is_some (resolve_profile p.name) ≡ true

profile_again :
    (n : String) (p : Profile)
    → resolve_profile n ≡ some p
    → is_some (resolve_profile p.name) ≡ true
unfolding resolve_profile
profile_again n p h = elim (Bool-cases (str_eq n "quick")) [
  | inl a ↦ subst Known (some_inj (rw a at h)) refl
  | inr a ↦ elim (Bool-cases (str_eq n "validation")) [
    | inl b ↦ subst Known (some_inj (rw (a, b) at h)) refl
    | inr b ↦ elim (Bool-cases (str_eq n "endurance")) [
      | inl c ↦ subst Known (some_inj (rw (a, b, c) at h)) refl
      | inr c ↦ absurd (ground (arith, a, b, c, h))
    ]
  ]
]

profile_options-Plain :
    (s : BenchmarkFlags) (p : Profile) (o : BenchmarkOptions)
    → str_eq s.config "" ≡ false
    → is_some (resolve_profile p.name) ≡ true
    → default_benchmark_options ≡ some o
    → Plain (profile_options s p o)
unfolding profile_options default_benchmark_options resolve_profile any_blank is_blank all_space
    is_space
profile_options-Plain s p o c n h =
    subst (λ o. Plain (profile_options s p o)) (some_inj h)
      (record {
        config = c;
        profile = n;
        timeout = refl;
        interval = refl;
        some_name = refl;
        names = refl;
        type = refl;
      })

check_counts-IsChosen : (o o' : BenchmarkOptions) → check_counts o ≡ ok o' → Plain o → IsChosen o'
unfolding check_counts
check_counts-IsChosen o o' h v = elim (Bool-cases (is_positive o.query_count)) [
  | inr a ↦ absurd (ground (arith, a, h))
  | inl a ↦ elim (Bool-cases (is_negative o.warmup_queries)) [
    | inl b ↦ absurd (ground (arith, a, b, h))
    | inr b ↦ elim (Bool-cases (is_positive o.concurrent_workers)) [
      | inr c ↦ absurd (ground (arith, a, b, c, h))
      | inl c ↦ elim (Bool-cases (ltb_signed o.query_count o.concurrent_workers)) [
        | inl d ↦ absurd (ground (arith, a, b, c, d, h))
        | inr d ↦
            subst IsChosen {x = o} (ok_inj {E = ArgumentError} (sym (rw (a, b, c, d) refl) ∙ h))
              (record { plain = v; queries = a; warmup = b; workers = c; fewer = d })
      ]
    ]
  ]
]

with_profile-IsChosen :
    (s : BenchmarkFlags) (p : Option Profile) (d : Option BenchmarkOptions) (o : BenchmarkOptions)
    → str_eq s.config "" ≡ false
    → resolve_profile s.profile ≡ p
    → default_benchmark_options ≡ d
    → with_profile s p d ≡ ok o
    → IsChosen o
with_profile-IsChosen s (some p) (some d) o c e f h =
    let (o', g, k) =
      bind-ok {E = ArgumentError} (explicit_options s (profile_options s p d)) check_counts {b = o}
        h in
    let start = profile_options-Plain s p d c (profile_again s.profile p e) f in
    check_counts-IsChosen o' o k (explicit_options-Plain s (profile_options s p d) o' g start)
with_profile-IsChosen s (some p) none o c e f h = absurd (ground (arith, h))
with_profile-IsChosen s none d o c e f h = absurd (ground (arith, h))

options_of_flags-IsChosen :
    (s : BenchmarkFlags) (args : List String) (o : BenchmarkOptions)
    → options_of_flags s args ≡ ok o
    → IsChosen o
unfolding options_of_flags
options_of_flags-IsChosen s (a ∷ args) o h = absurd (ground (arith, h))
options_of_flags-IsChosen s [] o h = elim (Bool-cases (str_eq s.config "")) [
  | inl c ↦ absurd (ground (arith, c, h))
  | inr c ↦
      with_profile-IsChosen s (resolve_profile s.profile) default_benchmark_options o c refl refl
        (rw c at h)
]

parsed-IsChosen :
    (r : Result FlagError (BenchmarkFlags × List String)) (o : BenchmarkOptions)
    → parsed r ≡ ok o
    → IsChosen o
parsed-IsChosen (err e) o h = absurd (ground (arith, h))
parsed-IsChosen (ok (s, args)) o h = options_of_flags-IsChosen s args o h

-- The options of every command line that the benchmark command does not refuse.
pub benchmark_arguments-IsChosen :
    (vals : FlagValues) (args : List String) (o : BenchmarkOptions)
    → benchmark_arguments vals args ≡ ok o
    → IsChosen o
unfolding benchmark_arguments
benchmark_arguments-IsChosen vals args o h =
    parsed-IsChosen (parse (benchmark_flag_set vals) args initial_flags) o h
