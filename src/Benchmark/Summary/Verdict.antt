-- ===== src/Benchmark/Summary/Verdict.antt =====
-- dns/internal/benchmark/report_runner.go: the status of the whole benchmark, and the scenarios that
-- the summary lists under each status.
use Prim.Native.Nat.{max}
use Prim.Native.String.{String}
use mathlib.Core.List.{append-nil, append_assoc}
use homedns_analytics.Common.{
  ℕ, ◌≡◌, refl, true, List, [], ◌∷◌, ◌++◌, arith, if◌then◌else◌, ◌==◌, ap, ◌∙◌, sym,
}
use homedns_analytics.Float.{FloatOps}
use homedns_analytics.Benchmark.Report.{Status, passed, degraded, failed, ScenarioResult}
use homedns_analytics.Benchmark.Classify.{status_severity}
use homedns_analytics.Benchmark.Summary.{
  BenchmarkSummary, ScenarioStatusSummary, file_scenario, summarize_scenario_statuses,
  accumulate_scenario, accumulate_all, new_benchmark_summary, finish_summary, summarize_scenarios,
  is_nonempty,
}

-- How bad a scenario's status is; an unknown status counts as invalid.
abbrev pub rank : Status → ℕ
rank passed = 1
rank degraded = 2
rank failed = 3
rank _ = 4

module _ {F : Type 0} where
  abbrev pub worst_rank : List (ScenarioResult F) → ℕ
  worst_rank [] = 0
  worst_rank (s ∷ ss) = max (rank s.status) (worst_rank ss)

  abbrev pub benchmark_rank : List (ScenarioResult F) → ℕ
  benchmark_rank [] = 4
  benchmark_rank (s ∷ ss) = worst_rank (s ∷ ss)

  -- The names of the scenarios of one rank, in order.
  abbrev pub names_of_rank : ℕ → List (ScenarioResult F) → List String
  names_of_rank n [] = []
  names_of_rank n (s ∷ ss) = (if rank s.status == n then s.name ∷ [] else []) ++ names_of_rank n ss

is_nonempty-append : (xs : List String) (x : String) → is_nonempty (xs ++ (x ∷ [])) ≡ true
is_nonempty-append [] x = refl
is_nonempty-append (y ∷ xs) x = refl

summarize-file_scenario :
    (status : Status) (name : String) (r : ScenarioStatusSummary)
    → status_severity (summarize_scenario_statuses (file_scenario status name r))
      ≡ max (status_severity (summarize_scenario_statuses r)) (rank status)
unfolding file_scenario summarize_scenario_statuses status_severity
summarize-file_scenario passed name r = ground (arith, is_nonempty-append r.passed name)
summarize-file_scenario degraded name r = ground (arith, is_nonempty-append r.degraded name)
summarize-file_scenario failed name r = ground (arith, is_nonempty-append r.failed name)
summarize-file_scenario _ name r = ground (arith, is_nonempty-append r.invalid name)

module _ {F : Type 0} (ops : FloatOps F) where
  accumulate_all-rank :
      (b : BenchmarkSummary F) (ss : List (ScenarioResult F))
      → status_severity (summarize_scenario_statuses (accumulate_all ops b ss).scenario_results)
        ≡ max (status_severity (summarize_scenario_statuses b.scenario_results)) (worst_rank ss)
  unfolding accumulate_all accumulate_scenario
  accumulate_all-rank b [] = omega arith
  accumulate_all-rank b (s ∷ ss) = omega (
    arith,
    accumulate_all-rank (accumulate_scenario ops b s) ss,
    summarize-file_scenario s.status s.name b.scenario_results,
  )

  -- The status of the benchmark is that of its worst scenario (an unknown status counting as
  -- invalid), and invalid if there is no scenario.
  pub summarize_scenarios-rank :
      (ss : List (ScenarioResult F)) (duration : F)
      → status_severity (summarize_scenarios ops ss duration).status ≡ benchmark_rank ss
  unfolding summarize_scenarios finish_summary new_benchmark_summary summarize_scenario_statuses
      status_severity
  summarize_scenarios-rank [] duration = refl
  summarize_scenarios-rank (s ∷ ss) duration =
      omega (arith, accumulate_all-rank (new_benchmark_summary ops) (s ∷ ss))

  -- The lists of `r` are those of `q` with the scenarios `ss` added, each under its status.
  record IsFiled (q r : ScenarioStatusSummary) (ss : List (ScenarioResult F)) : Type 0 where
    passed : r.passed ≡ q.passed ++ names_of_rank 1 ss
    degraded : r.degraded ≡ q.degraded ++ names_of_rank 2 ss
    failed : r.failed ≡ q.failed ++ names_of_rank 3 ss
    invalid : r.invalid ≡ q.invalid ++ names_of_rank 4 ss

  abbrev at_rank : ℕ → Status → String → List String
  at_rank n status name = if rank status == n then name ∷ [] else []

  file_scenario_lists :
      (status : Status) (name : String) (q : ScenarioStatusSummary)
      → let r = file_scenario status name q in
        (r.passed ≡ q.passed ++ at_rank 1 status name)
        × (r.degraded ≡ q.degraded ++ at_rank 2 status name)
        × (r.failed ≡ q.failed ++ at_rank 3 status name)
        × (r.invalid ≡ q.invalid ++ at_rank 4 status name)
  unfolding file_scenario
  file_scenario_lists passed name q = simp append-nil (refl, refl, refl, refl)
  file_scenario_lists _ name q = simp append-nil (refl, refl, refl, refl)

  regroup : {x y : List String} (q a n : List String) → x ≡ y ++ n → y ≡ q ++ a → x ≡ q ++ (a ++ n)
  regroup q a n e f = e ∙ ap (λ z. z ++ n) f ∙ append_assoc q a n

  accumulate_all-IsFiled :
      (b : BenchmarkSummary F) (ss : List (ScenarioResult F))
      → IsFiled b.scenario_results (accumulate_all ops b ss).scenario_results ss
  unfolding accumulate_all accumulate_scenario
  accumulate_all-IsFiled b [] = record {
    passed = sym (append-nil _);
    degraded = sym (append-nil _);
    failed = sym (append-nil _);
    invalid = sym (append-nil _);
  }
  accumulate_all-IsFiled b (s ∷ ss) =
      let rest = accumulate_all-IsFiled (accumulate_scenario ops b s) ss in
      let (p, d, f, i) = file_scenario_lists s.status s.name b.scenario_results in
      record {
        passed = regroup _ _ _ rest.passed p;
        degraded = regroup _ _ _ rest.degraded d;
        failed = regroup _ _ _ rest.failed f;
        invalid = regroup _ _ _ rest.invalid i;
      }

  -- The summary lists the name of every scenario under its own status (an unknown one under
  -- invalid), in the order of the scenarios, and no other name.
  pub summarize_scenarios-lists :
      (ss : List (ScenarioResult F)) (duration : F)
      → let r = (summarize_scenarios ops ss duration).scenario_results in
        (r.passed ≡ names_of_rank 1 ss)
        × (r.degraded ≡ names_of_rank 2 ss)
        × (r.failed ≡ names_of_rank 3 ss)
        × (r.invalid ≡ names_of_rank 4 ss)
  unfolding summarize_scenarios finish_summary new_benchmark_summary
  summarize_scenarios-lists [] duration = (refl, refl, refl, refl)
  summarize_scenarios-lists (s ∷ ss) duration =
      let h = accumulate_all-IsFiled (new_benchmark_summary ops) (s ∷ ss) in
      (h.passed, h.degraded, h.failed, h.invalid)
