-- ===== src/Benchmark/Summary/Samples.antt =====
-- The summary of two concrete scenarios, with percentages as natural numbers.
use mathlib.Core.List.{Memᴰ}
use homedns_analytics.Common.{ℕ, ◌≡◌, false, some, [], ◌∷◌, arith, All}
use homedns_analytics.Float.{natural_ops, natural_laws}
use homedns_analytics.Benchmark.Report.{passed, failed, ScenarioResult}
use homedns_analytics.Benchmark.Classify.Samples.{scenario}
use homedns_analytics.Benchmark.Summary.{
  WorstScenarioSummary, is_worse_scenario, summarize_scenarios,
}
use homedns_analytics.Benchmark.Summary.Totals.{
  IsSum, plus, direct_requests, forwarded_requests, summarize_scenarios-IsSum,
}
use homedns_analytics.Benchmark.Summary.Worst.{candidates, summarize_scenarios-worst}

abbrev good : ScenarioResult ℕ
good = record (scenario "udp-sequential" 0) { status = passed }

abbrev bad : ScenarioResult ℕ
bad = record (scenario "tcp-sequential" 6) { status = failed }

summarize_scenarios-IsSum_example :
    let b = summarize_scenarios natural_ops (good ∷ bad ∷ []) 9 in
    IsSum b.direct.requests (direct_requests (good ∷ bad ∷ []))
    × IsSum b.forwarded.requests (forwarded_requests (good ∷ bad ∷ []))
    × IsSum b.requests
        (plus (direct_requests (good ∷ bad ∷ [])) (forwarded_requests (good ∷ bad ∷ [])))
summarize_scenarios-IsSum_example = summarize_scenarios-IsSum natural_ops (good ∷ bad ∷ []) 9

summarize_scenarios-worst_example :
    (w : WorstScenarioSummary ℕ) × ((summarize_scenarios natural_ops
        (good ∷ bad ∷ [])
        9).worst_scenario
      ≡ some w)
    × Memᴰ w (candidates natural_ops (good ∷ bad ∷ []))
    × All
        (λ c. is_worse_scenario natural_ops c w ≡ false)
        (candidates natural_ops (good ∷ bad ∷ []))
summarize_scenarios-worst_example =
    summarize_scenarios-worst natural_ops natural_laws good (bad ∷ []) 9 (ground arith)
