-- ===== src/Benchmark/Scenario/Order.antt =====
-- dns/internal/benchmark/scenario.go: the order in which a scenario runs its paths.
use homedns_analytics.Common.{◌≡◌, none, [], ◌∷◌, ◌++◌, arith, is_positive, ok, if◌then◌else◌}
use homedns_analytics.Float.{FloatOps}
use homedns_analytics.Net.{NetOps}
use homedns_analytics.Benchmark.Report.{ScenarioResult}
use homedns_analytics.Benchmark.Scenario.{
  ScenarioConfig, Executor, Calls, run_scenario, warm_up, warmup_path, measure, call_path,
  direct_path, forwarded_path, direct_warmup, forwarded_warmup, validate_scenario,
}

-- The calls once the warmups of a scenario have run, if it has any, and once its paths have.
abbrev pub with_warmups : ScenarioConfig → Calls → Calls
with_warmups c calls =
    if is_positive c.warmup_queries
    then calls ++ (direct_warmup c ∷ []) ++ (forwarded_warmup c ∷ [])
    else calls

abbrev pub with_paths : ScenarioConfig → Calls → Calls
with_paths c calls = with_warmups c calls ++ (direct_path c ∷ []) ++ (forwarded_path c ∷ [])

-- A scenario that returns a result is valid, and has run exactly its warmups, if it has any, then
-- the direct path and then the forwarded path; the result carries what the last two calls
-- returned, under the scenario's name. This holds whatever ran before.
pub run_scenario_order :
    {F : Type 0} (executor : Executor F) (ops : FloatOps F) (net : NetOps) (c : ScenarioConfig)
    (calls : Calls) {r : ScenarioResult F}
    → (run_scenario executor ops net c calls).0 ≡ ok r
    → (validate_scenario net c ≡ none)
      × ((run_scenario executor ops net c calls).1 ≡ with_paths c calls)
      × (executor (with_warmups c calls) (direct_path c) ≡ ok r.direct)
      × (executor (with_warmups c calls ++ (direct_path c ∷ [])) (forwarded_path c)
          ≡ ok r.forwarded)
      × (r.name ≡ c.name)
unfolding run_scenario measure warm_up warmup_path call_path
run_scenario_order executor ops net c calls h = ground arith
