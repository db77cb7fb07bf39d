-- ===== src/Benchmark/Suite/Results.antt =====
-- dns/internal/benchmark/suite.go: what a suite that returns has run.
use homedns_analytics.Common.{
  ◌≡◌, refl, sym, ap, ◌∙◌, Bool, none, List, [], ◌∷◌, arith, Result, ok, err, Option-cases, inl,
  inr,
}
use mathlib.Core.Path.{subst}
use homedns_analytics.Float.{FloatOps}
use homedns_analytics.Net.{NetOps}
use homedns_analytics.Benchmark.Report.{ScenarioResult}
use homedns_analytics.Benchmark.Scenario.{ScenarioConfig, RunError, Calls, Executor, run_scenario}
use homedns_analytics.Benchmark.Scenario.Order.{with_paths, run_scenario_order}
use homedns_analytics.Benchmark.Suite.{
  SuiteConfig, SuiteRunError, scenarios, validate_suite, run_scenarios, run_suite,
}

-- The calls once the scenarios have run one after the other.
abbrev pub with_scenarios : List ScenarioConfig → Calls → Calls
with_scenarios [] calls = calls
with_scenarios (c ∷ cs) calls = with_scenarios cs (with_paths c calls)

module _ {F : Type 0} (executor : Executor F) (is_interrupted : Calls → Bool) (ops : FloatOps F)
    (net : NetOps) where
  -- Each result is what its scenario returns after those before it.
  abbrev pub AreResults : List ScenarioConfig → Calls → List (ScenarioResult F) → Type 0
  AreResults [] calls [] = Unit
  AreResults [] calls (r ∷ rs) = ⊥
  AreResults (c ∷ cs) calls [] = ⊥
  AreResults (c ∷ cs) calls (r ∷ rs) =
      ((run_scenario executor ops net c calls).0 ≡ ok r)
      × (r.name ≡ c.name)
      × AreResults cs (with_paths c calls) rs

  record IsCons (c : ScenarioConfig) (cs : List ScenarioConfig) (calls : Calls)
      (rs : List (ScenarioResult F)) : Type 0 where
    first : ScenarioResult F
    others : List (ScenarioResult F)
    split : rs ≡ first ∷ others
    ran : (run_scenario executor ops net c calls).0 ≡ ok first
    rest :
        (run_scenarios executor is_interrupted ops net cs
          (run_scenario executor ops net c calls).1).0
        ≡ ok others
    after :
        (run_scenarios executor is_interrupted ops net (c ∷ cs) calls).1
        ≡ (run_scenarios executor is_interrupted ops net cs
            (run_scenario executor ops net c calls).1).1

  run_scenarios-IsCons :
      (c : ScenarioConfig) (cs : List ScenarioConfig) (calls : Calls)
      (one : Result RunError (ScenarioResult F))
      (many : Result SuiteRunError (List (ScenarioResult F)))
      → (run_scenario executor ops net c calls).0 ≡ one
      → (run_scenarios executor is_interrupted ops net cs
          (run_scenario executor ops net c calls).1).0
        ≡ many
      → {rs : List (ScenarioResult F)}
      → (run_scenarios executor is_interrupted ops net (c ∷ cs) calls).0 ≡ ok rs
      → IsCons c cs calls rs
  unfolding run_scenarios
  run_scenarios-IsCons c cs calls (err e) many a b h = absurd (ground arith)
  run_scenarios-IsCons c cs calls (ok r) (err e) a b h = absurd (ground arith)
  run_scenarios-IsCons c cs calls (ok r) (ok rs') a b h = record {
    first = r;
    others = rs';
    split = ground arith;
    ran = a;
    rest = b;
    after = ground arith;
  }

  run_scenarios-AreResults :
      (cs : List ScenarioConfig) (calls : Calls) (rs : List (ScenarioResult F))
      → (run_scenarios executor is_interrupted ops net cs calls).0 ≡ ok rs
      → AreResults cs calls rs
        × ((run_scenarios executor is_interrupted ops net cs calls).1 ≡ with_scenarios cs calls)
  unfolding run_scenarios
  run_scenarios-AreResults [] calls [] h = (tt, refl)
  run_scenarios-AreResults [] calls (r ∷ rs) h = absurd (ground arith)
  run_scenarios-AreResults (c ∷ cs) calls rs h =
      let v = run_scenarios-IsCons c cs calls _ _ refl refl h in
      let (valid, moved, d, f, name) = run_scenario_order executor ops net c calls v.ran in
      let rest = ap (λ k. (run_scenarios executor is_interrupted ops net cs k).0) moved in
      let (results, ended) =
        run_scenarios-AreResults cs (with_paths c calls) v.others (sym rest ∙ v.rest) in
      let moved_on = ap (λ k. (run_scenarios executor is_interrupted ops net cs k).1) moved in
      (
        subst (AreResults (c ∷ cs) calls) (sym v.split) (v.ran, name, results),
        v.after ∙ moved_on ∙ ended,
      )

  run_suite_valid :
      (c : SuiteConfig)
      → validate_suite net c ≡ none
      → run_suite executor is_interrupted ops net c []
        ≡ run_scenarios executor is_interrupted ops net (scenarios c) []
  unfolding run_suite
  run_suite_valid c e = rw (e, run_suite) refl

  -- A suite that returns results is valid and has run its four scenarios in their declared order,
  -- each from where the one before it ended, with all their paths and no other call; the results are
  -- those of the scenarios, one for each, under their names.
  pub run_suite_order :
      (c : SuiteConfig) {rs : List (ScenarioResult F)}
      → (run_suite executor is_interrupted ops net c []).0 ≡ ok rs
      → (validate_suite net c ≡ none)
        × AreResults (scenarios c) [] rs
        × ((run_suite executor is_interrupted ops net c []).1 ≡ with_scenarios (scenarios c) [])
  unfolding run_suite
  run_suite_order c {rs} h = elim (Option-cases (validate_suite net c)) [
    | inl e ↦
        let same = run_suite_valid c e in
        let (results, calls) =
          run_scenarios-AreResults (scenarios c) [] rs (sym (ap (λ p. p.0) same) ∙ h) in
        (e, results, ap (λ p. p.1) same ∙ calls)
    | inr (e', e) ↦ absurd (ground (arith, e, h))
  ]
