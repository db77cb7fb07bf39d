-- ===== src/Benchmark/Runner/Outcome.antt =====
-- dns/internal/benchmark/runner.go: what `RunPath` has counted when its loop is over, in whatever
-- order the workers finished.
use homedns_analytics.Common.{
  ℕ, ◌≤◌, ◌<◌, ◌^◌, ◌≡◌, ap, ◌∙◌, Option, length, sym, sum_by, sum_by-one, arith, GoError, is_some,
  false,
}
use homedns_analytics.Float.{FloatOps}
use homedns_analytics.Benchmark.Runner.{collect_all, new_collector, finish_counts}
use homedns_analytics.Benchmark.Query.{Observation}
use homedns_analytics.Benchmark.Runner.Pool.{
  Pool, Reach, IsOver, Reach-Inv, none_in_flight, in_turn, length-in_turn,
}
use homedns_analytics.Benchmark.Runner.Counts.{
  Tally, collect_all-Tally, IsAccounted, finish_counts-IsAccounted, ok_weight, failed_weight, weigh,
  timeout_kind, network_kind, dns_response_kind, invalid_response_kind, internal_kind, other_kind,
}

module _ (count concurrency : ℕ) (context_error : Option GoError) (observe : ℕ → Observation) where
  -- At the end the loop has taken out just the observations of the scheduled queries.
  collected_weight :
      {n : ℕ} {p : Pool}
      → Reach count concurrency context_error observe n p
      → IsOver count concurrency context_error observe p
      → (w : Observation → ℕ)
      → sum_by w p.collected
        ≡ sum_by w (in_turn count concurrency context_error observe p.scheduled)
  collected_weight {n} {p} r o w =
      let v = Reach-Inv count concurrency context_error observe r in
      omega (
        arith,
        v.weight w,
        ap (sum_by w) o.observations,
        ap (sum_by (λ i. w (observe i)))
            (none_in_flight count concurrency context_error observe v o.observations_closed),
      )

  length_collected :
      {n : ℕ} {p : Pool}
      → Reach count concurrency context_error observe n p
      → IsOver count concurrency context_error observe p
      → length p.collected ≡ p.scheduled
  length_collected {n} {p} r o =
      let turn = in_turn count concurrency context_error observe p.scheduled in
      omega (
        arith,
        collected_weight r o (λ x. 1),
        sum_by-one p.collected,
        sum_by-one turn,
        length-in_turn count concurrency context_error observe p.scheduled,
      )

  scheduled_bound :
      {n : ℕ} {p : Pool} → Reach count concurrency context_error observe n p → p.scheduled ≤ count
  scheduled_bound r = (Reach-Inv count concurrency context_error observe r).bound

  -- Once the loop of a path is over, every query that the path was to send is counted exactly once,
  -- as a success or as a failure of one kind, those that were never scheduled included; the timeouts
  -- and the other failures add up. The clock and the order of the workers are arbitrary, and
  -- the path has fewer than 2 ^ 63 queries.
  pub run_path-IsAccounted :
      {F : Type 0} {n : ℕ} {p : Pool} (ops : FloatOps F) (clock : ℕ → ℕ) (elapsed : ℕ)
      → count < 2 ^ 63
      → Reach count concurrency context_error observe n p
      → IsOver count concurrency context_error observe p
      → IsAccounted count (
          finish_counts ops p.scheduled elapsed context_error
            (collect_all count clock p.collected (new_collector ops count)).result)
  run_path-IsAccounted {F} {n} {p} ops clock elapsed h r o =
      let bound = scheduled_bound r in
      let long = length_collected r o in
      let tally =
        collect_all-Tally count ops count clock p.collected (omega (arith, h, bound, long)) in
      rw (sym long) (
        finish_counts-IsAccounted ops count elapsed context_error p.collected _
          (omega (arith, bound, long)) h tally)

  -- What the loop has counted at its end does not depend on the order in which the workers finish:
  -- it is what the scheduled queries give when they are asked in turn. All the queries of the path
  -- are scheduled unless the context ended. The path has fewer than 2 ^ 63 queries.
  pub run_path-Tally :
      {F : Type 0} {n : ℕ} {p : Pool} (ops : FloatOps F) (clock : ℕ → ℕ)
      → count < 2 ^ 63
      → Reach count concurrency context_error observe n p
      → IsOver count concurrency context_error observe p
      → Tally count
          (in_turn count concurrency context_error observe p.scheduled)
          (collect_all count clock p.collected (new_collector ops count))
        × (is_some context_error ≡ false → p.scheduled ≡ count)
  run_path-Tally {F} {n} {p} ops clock h r o =
      let bound = scheduled_bound r in
      let long = length_collected r o in
      let t = collect_all-Tally count ops count clock p.collected (omega (arith, h, bound, long)) in
      let same = collected_weight r o in
      (
        record {
          completed =
              t.completed
              ∙ long
              ∙ sym (length-in_turn count concurrency context_error observe p.scheduled);
          latencies = t.latencies ∙ same ok_weight;
          attempted = t.attempted;
          successful = t.successful ∙ same ok_weight;
          failed = t.failed ∙ same failed_weight;
          timeouts = t.timeouts ∙ same (weigh timeout_kind);
          timeout = t.timeout ∙ same (weigh timeout_kind);
          network = t.network ∙ same (weigh network_kind);
          dns_response = t.dns_response ∙ same (weigh dns_response_kind);
          invalid_response = t.invalid_response ∙ same (weigh invalid_response_kind);
          internal = t.internal ∙ same (weigh internal_kind);
          other = t.other ∙ same (weigh other_kind);
        },
        (Reach-Inv count concurrency context_error observe r).complete o.jobs_closed,
      )
