-- ===== src/Benchmark/Runner/Samples.antt =====
-- One benchmark path at concrete answers.
use Prim.Native.String.{String}
use homedns_analytics.Common.{
  ℕ, suc, zero, ◌+◌, ◌*◌, ◌≤◌, ◌≡◌, ◌⊎◌, ◌↔◌, refl, true, false, none, some, List, [], ◌∷◌, arith,
  GoError, is_some,
}
use homedns_analytics.Float.{natural_ops}
use homedns_analytics.Messages.{PlainMsg, plain_ops}
use homedns_analytics.Benchmark.Runner.{
  collect_all, new_collector, new_result, collect, count_observation, report_progress,
  should_report_progress, record_failure, record_kind, finish_counts, record_unscheduled_failures,
}
use homedns_analytics.Benchmark.Query.{
  Answer, Observation, no_failure, timeout, exchange_failed, judge_answer,
}
use homedns_analytics.Benchmark.Runner.Pool.{
  Pool, Step, schedules, interrupted, finishes, collects, leaves, closes, Reach, here, later,
  IsOver, in_turn,
}
use homedns_analytics.Benchmark.Runner.Counts.{Tally, IsAccounted}
use homedns_analytics.Benchmark.Runner.Termination.{run_path_ends}
use homedns_analytics.Benchmark.Runner.Outcome.{run_path-IsAccounted, run_path-Tally}
use homedns_analytics.Benchmark.Runner.Query.{IsGood, judge_answer_iff}

abbrev deadline : GoError
deadline = record { deadline_exceeded = true; canceled = false; net_error = some true }

-- The query 0 is answered after 7 ms, the query 1 runs into a timeout.
abbrev observe : ℕ → Observation
observe zero = record { latency = 7_000_000; failure = no_failure; error = none }
observe (suc n) = record { latency = 0; failure = timeout; error = some (exchange_failed deadline) }

-- Two workers, three queries; the second query is done first, and the third is never scheduled.
abbrev over : Pool
over = record {
  scheduled = 2;
  jobs_closed = true;
  workers = 0;
  in_flight = [];
  observations = [];
  observations_closed = true;
  collected = observe 1 ∷ observe 0 ∷ [];
}

-- The last worker leaves while an observation is still in the channel.
over-Reach : Reach 3 2 (some deadline) observe 10 over
over-Reach =
    let sent : Reach 3 2 (some deadline) observe 3 _ =
      later
        (later (later here (schedules refl (omega arith) (omega arith)))
          (schedules refl (omega arith) (omega arith)))
        (interrupted refl (omega arith) refl) in
    let answered : Reach 3 2 (some deadline) observe 6 _ =
      later
        (later (later sent (finishes [] 1 (0 ∷ []) refl (omega arith))) (leaves refl (omega arith)))
        (finishes [] 0 [] refl (omega arith)) in
    let closed : Reach 3 2 (some deadline) observe 9 _ =
      later
        (later (later answered (collects (observe 1) (observe 0 ∷ []) refl))
          (leaves refl (omega arith)))
        (closes refl refl) in
    later closed (collects (observe 0) [] refl)

over-IsOver : IsOver 3 2 (some deadline) observe over
over-IsOver = record { jobs_closed = refl; observations_closed = refl; observations = refl }

abbrev clock : ℕ → ℕ
clock n = n * 2_000_000_000

run_path_ends_example :
    (10 ≤ 3 * 3 + 2 + 2)
    × (IsOver 3 2 (some deadline) observe over
        ⊎ ((q : Pool) × Step 3 2 (some deadline) observe over q))
    × (over.observations_closed ≡ true → (over.in_flight ≡ []) × (over.jobs_closed ≡ true))
run_path_ends_example = run_path_ends 3 2 (some deadline) observe (omega arith) over-Reach

run_path-IsAccounted_example : IsAccounted 3 (
    finish_counts natural_ops 2 5_000_000_000
      (some deadline)
      (collect_all 3 clock over.collected (new_collector natural_ops 3)).result)
run_path-IsAccounted_example =
    run_path-IsAccounted 3 2 (some deadline) observe natural_ops clock 5_000_000_000 (omega arith)
      over-Reach over-IsOver

run_path-Tally_example :
    Tally 3
      (in_turn 3 2 (some deadline) observe 2)
      (collect_all 3 clock over.collected (new_collector natural_ops 3))
    × (is_some (some deadline) ≡ false → over.scheduled ≡ 3)
run_path-Tally_example =
    run_path-Tally 3 2 (some deadline) observe natural_ops clock (omega arith) over-Reach
      over-IsOver

-- The path above counts two timeouts, one of them for the query that was never scheduled.
two_timeouts :
    (finish_counts natural_ops 2 5_000_000_000
      (some deadline)
      (collect_all 3 clock over.collected (new_collector natural_ops 3)).result).requests.timeouts
    ≡ 2
unfolding finish_counts collect_all new_collector new_result collect count_observation
    report_progress should_report_progress record_failure record_kind record_unscheduled_failures
two_timeouts = refl

abbrev question : PlainMsg
question = record { id = 17; rcode = 0; truncated = false; question_count = 1 }

abbrev good_answer : Answer PlainMsg
good_answer = record { response = some question; latency = 7_000_000; error = none }

judge_answer_iff_example :
    let o = judge_answer plain_ops question good_answer in
    ((o.error ≡ none) ↔ ((response : PlainMsg) × IsGood plain_ops question good_answer response))
    × (o.error ≡ none → o.latency ≡ good_answer.latency)
    × ((o.error ≡ none) ↔ (o.failure ≡ no_failure))
judge_answer_iff_example = judge_answer_iff plain_ops question good_answer

abbrev two_names : List String
two_names = "example.com." ∷ "github.com." ∷ []
