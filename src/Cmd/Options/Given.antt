-- ===== src/Cmd/Options/Given.antt =====
-- dns/cmd/homedns-dns/main.go: a command line of the benchmark command, told by the flags that it gives.
use Prim.Native.String.{String}
use text.Mathlib.Text.{◌==◌ as str_eq}
use homedns_analytics.Common.{
  ℕ, ◌≡◌, refl, Bool, false, ◌&&◌, ◌||◌, Option, none, some, List, [], ◌∷◌, is_some, arith,
}
use homedns_analytics.Cmd.Options.{FlagValues, BenchmarkFlags, is_listed}

-- A text that a flag reads as the number `value`.
pub record Figure (read : String → Option ℕ) : Type 0 where
  pub text : String
  pub value : ℕ
  pub reads : read text ≡ some value

-- The flags of a command line: the configuration, and those of the others that are given.
pub record Given (vals : FlagValues) : Type 0 where
  pub config : String
  pub profile : Option String
  pub output : Option String
  pub queries : Option (Figure vals.parse_int)
  pub warmup : Option (Figure vals.parse_int)
  pub concurrency : Option (Figure vals.parse_int)
  pub timeout : Option (Figure vals.parse_duration)
  pub query_type : Option String
  pub domains : Option String

abbrev pub text_of : {read : String → Option ℕ} → Option (Figure read) → Option String
text_of none = none
text_of (some f) = some f.text

abbrev pub value_of : {read : String → Option ℕ} → Option (Figure read) → ℕ → ℕ
value_of none n = n
value_of (some f) n = f.value

abbrev pub text_or : Option String → String → String
text_or none s = s
text_or (some t) s = t

-- A flag and its value, if it is given.
abbrev pub option : String → Option String → List String → List String
option flag none args = args
option flag (some v) args = flag ∷ v ∷ args

-- The names of the flags that are given.
unfoldable pub sees : List (String × Option String) → List String
sees [] = []
sees ((name, none) ∷ ps) = sees ps
sees ((name, some v) ∷ ps) = name ∷ sees ps

unfoldable pub is_given : String → List (String × Option String) → Bool
is_given n [] = false
is_given n ((name, o) ∷ ps) = (str_eq name n && is_some o) || is_given n ps

pub listed-sees :
    (n : String) (ps : List (String × Option String)) → is_listed n (sees ps) ≡ is_given n ps
unfolding sees is_listed is_given
listed-sees n [] = refl
listed-sees n ((name, none) ∷ ps) = let ih = listed-sees n ps in ground (arith, ih)
listed-sees n ((name, some v) ∷ ps) = let ih = listed-sees n ps in ground (arith, ih)

module _ {vals : FlagValues} where
  abbrev pub arguments_of : Given vals → List String
  arguments_of g =
      "--config"
      ∷ g.config
      ∷ option "--profile" g.profile (
          option "--output" g.output (
            option "--queries" (text_of g.queries) (
              option "--warmup" (text_of g.warmup) (
                option "--concurrency" (text_of g.concurrency) (
                  option "--timeout" (text_of g.timeout)
                    (option "--query-type" g.query_type (option "--domains" g.domains [])))))))

  abbrev pub named_flags : Given vals → List (String × Option String)
  named_flags g =
      ("domains", g.domains)
      ∷ ("query-type", g.query_type)
      ∷ ("timeout", text_of g.timeout)
      ∷ ("concurrency", text_of g.concurrency)
      ∷ ("warmup", text_of g.warmup)
      ∷ ("queries", text_of g.queries)
      ∷ ("output", g.output)
      ∷ ("profile", g.profile)
      ∷ ("config", some g.config)
      ∷ []

  abbrev pub flags_of : Given vals → BenchmarkFlags
  flags_of g = record {
    config = g.config;
    profile = text_or g.profile "quick";
    output = text_or g.output "benchmarks/runs";
    queries = value_of g.queries 0;
    warmup = value_of g.warmup 0;
    concurrency = value_of g.concurrency 0;
    timeout = value_of g.timeout 0;
    query_type = text_or g.query_type "";
    domains = text_or g.domains "";
    actual = sees (named_flags g);
  }
