-- ===== src/Benchmark/Progress/Samples.antt =====
-- Progress events at concrete figures.
use homedns_analytics.Common.{◌+◌, ◌-◌, ◌*◌, ◌/◌, ◌≤◌, ◌<◌, ◌≡◌, ◌⊎◌, refl, arith, div_signed}
use homedns_analytics.Benchmark.Progress.{
  ProgressEvent, direct, forwarded, overall_completed, overall_total, estimated_remaining,
}
use homedns_analytics.Benchmark.Progress.Overall.{
  IsRunningEvent, measured, overall_counts, estimate_bounds,
}

-- The second of four scenarios, with 60 of 100 forwarded queries done after 36 seconds.
abbrev event : ProgressEvent
event = record {
  scenario_index = 2;
  scenario_count = 4;
  phase = forwarded;
  current = 60;
  total = 100;
  elapsed = 36_000_000_000;
}

event-IsRunningEvent : IsRunningEvent event 100
event-IsRunningEvent = record {
  index = omega arith;
  last = omega arith;
  some_queries = omega arith;
  current = omega arith;
  fits = omega arith;
}

overall_counts_example :
    (overall_total event 100 ≡ 4 * 2 * 100)
    × (overall_completed event 100 ≡ (2 - 1) * 2 * 100 + measured forwarded 100 60)
    × (overall_completed event 100 ≤ overall_total event 100)
    × (event.phase ≡ forwarded
        → event.scenario_index ≡ event.scenario_count
        → event.current ≡ 100
        → overall_completed event 100 ≡ overall_total event 100)
overall_counts_example = overall_counts event 100 event-IsRunningEvent

-- The first of four scenarios, with 11 of 149 direct queries done after 11 seconds: 11 of 1192.
abbrev early : ProgressEvent
early = record {
  scenario_index = 1;
  scenario_count = 4;
  phase = direct;
  current = 11;
  total = 149;
  elapsed = 11_000_000_000;
}

early-IsRunningEvent : IsRunningEvent early 149
early-IsRunningEvent = record {
  index = omega arith;
  last = omega arith;
  some_queries = omega arith;
  current = omega arith;
  fits = omega arith;
}

estimate_bounds_example :
    let completed = overall_completed early 149 in
    let total = overall_total early 149 in
    let estimate = estimated_remaining early 149 in
    (completed < 10 ⊎ (completed < total / 100 ⊎ completed ≡ total) → estimate ≡ 0)
    × (10 ≤ completed
        → total / 100 ≤ completed
        → completed < total
        → estimate ≡ early.elapsed / completed * (total - completed))
    × (estimate ≤ 109 * early.elapsed)
estimate_bounds_example = estimate_bounds early 149 early-IsRunningEvent (omega arith) (omega arith)

-- Less than one query in a hundred is done, and the estimate is shown: a second for each query left.
shown_early : (11 * 100 < 4 * 2 * 149) × (estimated_remaining early 149 ≡ 1_181_000_000_000)
unfolding estimated_remaining overall_completed overall_total div_signed
shown_early = (omega arith, refl)

-- 360 of 800 queries took 36 seconds: 44 are left.
forty_four_seconds : estimated_remaining event 100 ≡ 44_000_000_000
unfolding estimated_remaining overall_completed overall_total div_signed
forty_four_seconds = refl
