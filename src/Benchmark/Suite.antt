-- ===== src/Benchmark/Suite.antt =====
-- dns/internal/benchmark/suite.go and profile.go: the four standard scenarios, and how a suite runs
-- them. The progress reporter and the clock are left out.
pub mod Results
mod Samples
use Prim.Native.String.{String}
use text.Mathlib.Text.{◌==◌ as str_eq}
use homedns_analytics.Common.{
  ℕ, Bool, true, false, not, Option, none, some, List, [], ◌∷◌, ok, err, is_positive, is_negative,
  ltb_signed, ◌==◌, if◌then◌else◌,
}
use homedns_analytics.Float.{FloatOps}
use homedns_analytics.Net.{NetOps}
use homedns_analytics.Benchmark.Report.{ScenarioResult}
use homedns_analytics.Benchmark.Scenario.{
  ScenarioConfig, ScenarioError, validate_scenario, RunError, Calls, Executor, Runs, and_then, give,
  fail, run_scenario,
}

pub record SuiteConfig : Type 0 where
  pub direct_address : String
  pub forwarded_address : String
  pub query_names : List String
  pub query_type : ℕ
  pub warmup_queries : ℕ
  pub query_count : ℕ
  pub concurrent_workers : ℕ
  pub timeout : ℕ

-- `SuiteConfig.scenario`
unfoldable pub scenario : SuiteConfig → String → String → ℕ → ScenarioConfig
scenario c name protocol concurrency = record {
  name = name;
  protocol = protocol;
  direct_address = c.direct_address;
  forwarded_address = c.forwarded_address;
  query_names = c.query_names;
  query_type = c.query_type;
  warmup_queries = c.warmup_queries;
  query_count = c.query_count;
  concurrency = concurrency;
  timeout = c.timeout;
}

unfoldable pub scenarios : SuiteConfig → List ScenarioConfig
scenarios c =
    scenario c "udp-sequential" "udp" 1
    ∷ scenario c "udp-concurrent" "udp" c.concurrent_workers
    ∷ scenario c "tcp-sequential" "tcp" 1
    ∷ scenario c "tcp-concurrent" "tcp" c.concurrent_workers
    ∷ []

-- `DefaultSuiteConfig`
unfoldable pub default_suite_config : String → String → SuiteConfig
default_suite_config direct_address forwarded_address = record {
  direct_address = direct_address;
  forwarded_address = forwarded_address;
  query_names = "example.com." ∷ "cloudflare.com." ∷ "google.com." ∷ "github.com." ∷ [];
  query_type = 1;
  warmup_queries = 10;
  query_count = 100;
  concurrent_workers = 10;
  timeout = 2_000_000_000;
}

pub data SuiteError : Type 0 where
  missing_direct missing_forwarded missing_names missing_type negative_warmup : SuiteError
  no_queries no_workers too_many_workers no_timeout : SuiteError
  invalid_scenario : String → ScenarioError → SuiteError

abbrev is_empty : List String → Bool
is_empty [] = true
is_empty (x ∷ xs) = false

-- The loop of `Validate`.
unfoldable pub validate_scenarios : NetOps → List ScenarioConfig → Option SuiteError
validate_scenarios net [] = none
validate_scenarios net (c ∷ cs) =
    let rest = validate_scenarios net cs in
    elim (validate_scenario net c) [ some e ↦ some (invalid_scenario c.name e) | none ↦ rest ]

-- `SuiteConfig.Validate`
unfoldable pub validate_suite : NetOps → SuiteConfig → Option SuiteError
validate_suite net c =
    if str_eq c.direct_address ""
    then some missing_direct
    else if str_eq c.forwarded_address ""
    then some missing_forwarded
    else if is_empty c.query_names
    then some missing_names
    else if c.query_type == 0
    then some missing_type
    else if is_negative c.warmup_queries
    then some negative_warmup
    else if not (is_positive c.query_count)
    then some no_queries
    else if not (is_positive c.concurrent_workers)
    then some no_workers
    else if ltb_signed c.query_count c.concurrent_workers
    then some too_many_workers
    else if not (is_positive c.timeout)
    then some no_timeout
    else validate_scenarios net (scenarios c)

pub data SuiteRunError : Type 0 where
  invalid_suite : SuiteError → SuiteRunError
  interrupted_before : String → SuiteRunError
  scenario_failed : String → RunError → SuiteRunError

module _ {F : Type 0} (executor : Executor F) (is_interrupted : Calls → Bool) where
  abbrev wrapped : String → Runs RunError (ScenarioResult F) → Runs SuiteRunError (ScenarioResult F)
  wrapped name p calls =
      let (r, calls') = p calls in
      elim r [ ok a ↦ (ok a, calls') | err e ↦ (err (scenario_failed name e), calls') ]

  -- The loop of `Run`; `is_interrupted` is whether the context has ended after the calls so far.
  unfoldable pub run_scenarios :
      FloatOps F → NetOps → List ScenarioConfig → Runs SuiteRunError (List (ScenarioResult F))
  run_scenarios ops net [] = give []
  run_scenarios ops net (c ∷ cs) = λ calls.
      if is_interrupted calls
      then fail (interrupted_before c.name) calls
      else and_then (wrapped c.name (run_scenario executor ops net c))
          (λ r. and_then (run_scenarios ops net cs) (λ rs. give (r ∷ rs))) calls

  -- `SuiteRunner.Run` of a runner that is initialised.
  unfoldable pub run_suite :
      FloatOps F → NetOps → SuiteConfig → Runs SuiteRunError (List (ScenarioResult F))
  run_suite ops net c = elim (validate_suite net c) [
    | some e ↦ fail (invalid_suite e)
    | none ↦ run_scenarios ops net (scenarios c)
  ]

-- profile.go
pub record Profile : Type 0 where
  pub name : String
  pub query_count : ℕ
  pub warmup_queries : ℕ
  pub concurrent_workers : ℕ

unfoldable pub resolve_profile : String → Option Profile
resolve_profile name =
    if str_eq name "quick"
    then some
        (record { name = "quick"; query_count = 100; warmup_queries = 10; concurrent_workers = 10 })
    else if str_eq name "validation"
    then some (record {
      name = "validation";
      query_count = 1_000;
      warmup_queries = 25;
      concurrent_workers = 10;
    })
    else if str_eq name "endurance"
    then some (record {
      name = "endurance";
      query_count = 17_000;
      warmup_queries = 50;
      concurrent_workers = 10;
    })
    else none
