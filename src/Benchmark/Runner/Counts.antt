-- ===== src/Benchmark/Runner/Counts.antt =====
-- dns/internal/benchmark/runner.go: what the loop of `RunPath` counts, by sums over the observations.
use homedns_analytics.Common.{
  ℕ, ◌+◌, ◌≤◌, ◌<◌, ◌^◌, ◌≡◌, refl, Option, List, [], ◌∷◌, ◌++◌, length, length-append, sym, sum_by,
  sum_by-append, arith, GoError, is_some, if◌then◌else◌,
}
use mathlib.Core.List.{append-nil, append_assoc}
use homedns_analytics.Float.{FloatOps}
use homedns_analytics.Benchmark.Report.{PathResult}
use homedns_analytics.Benchmark.Runner.{
  Collector, count_observation, report_progress, collect, collect_all, new_collector, new_result,
  record_failure, record_kind, record_unscheduled_failures, finish_counts,
}
use homedns_analytics.Benchmark.Query.{
  Observation, FailureKind, no_failure, timeout, network, dns_response, invalid_response, internal,
  other,
}

-- The weights: an observation counts once where it belongs.
abbrev pub ok_weight : Observation → ℕ
ok_weight o = if is_some o.error then 0 else 1

abbrev pub failed_weight : Observation → ℕ
failed_weight o = if is_some o.error then 1 else 0

abbrev pub timeout_kind : FailureKind → ℕ
timeout_kind timeout = 1
timeout_kind _ = 0

abbrev pub network_kind : FailureKind → ℕ
network_kind network = 1
network_kind _ = 0

abbrev pub dns_response_kind : FailureKind → ℕ
dns_response_kind dns_response = 1
dns_response_kind _ = 0

abbrev pub invalid_response_kind : FailureKind → ℕ
invalid_response_kind invalid_response = 1
invalid_response_kind _ = 0

abbrev pub internal_kind : FailureKind → ℕ
internal_kind internal = 1
internal_kind _ = 0

abbrev pub other_kind : FailureKind → ℕ
other_kind no_failure = 1
other_kind other = 1
other_kind _ = 0

abbrev pub weigh : (FailureKind → ℕ) → Observation → ℕ
weigh kind o = if is_some o.error then kind o.failure else 0

pub ok-failed : (os : List Observation) → sum_by ok_weight os + sum_by failed_weight os ≡ length os
ok-failed [] = refl
ok-failed (o ∷ os) = let ih = ok-failed os in ground arith

-- Every failed observation is of one kind.
pub kinds-failed :
    (os : List Observation)
    → sum_by (weigh timeout_kind) os
        + sum_by (weigh network_kind) os
        + sum_by (weigh dns_response_kind) os
        + sum_by (weigh invalid_response_kind) os
        + sum_by (weigh internal_kind) os
        + sum_by (weigh other_kind) os
      ≡ sum_by failed_weight os
kinds-failed [] = refl
kinds-failed (o ∷ os) = let ih = kinds-failed os in ground arith

-- What a collector holds after the observations `os`.
pub record Tally {F : Type 0} (count : ℕ) (os : List Observation) (c : Collector F) : Type 0 where
  pub completed : c.completed ≡ length os
  pub latencies : length c.latencies ≡ sum_by ok_weight os
  pub attempted : c.result.requests.attempted ≡ count
  pub successful : c.result.requests.successful ≡ sum_by ok_weight os
  pub failed : c.result.requests.failed ≡ sum_by failed_weight os
  pub timeouts : c.result.requests.timeouts ≡ sum_by (weigh timeout_kind) os
  pub timeout : c.result.failures.timeout ≡ sum_by (weigh timeout_kind) os
  pub network : c.result.failures.network ≡ sum_by (weigh network_kind) os
  pub dns_response : c.result.failures.dns_response ≡ sum_by (weigh dns_response_kind) os
  pub invalid_response :
      c.result.failures.invalid_response ≡ sum_by (weigh invalid_response_kind) os
  pub internal : c.result.failures.internal ≡ sum_by (weigh internal_kind) os
  pub other : c.result.failures.other ≡ sum_by (weigh other_kind) os

module _ {F : Type 0} (count : ℕ) where
  new_collector-Tally : (ops : FloatOps F) → Tally count [] (new_collector ops count)
  unfolding new_collector new_result
  new_collector-Tally ops = ground arith

  count_observation-Tally :
      (os : List Observation) (o : Observation) (c : Collector F)
      → length os + 1 < 2 ^ 63
      → Tally count os c
      → Tally count (os ++ o ∷ []) (count_observation o c)
  unfolding count_observation record_failure record_kind
  count_observation-Tally os o c h t =
      let sum = λ (w : Observation → ℕ). sum_by-append w os (o ∷ []) in
      let a = ok-failed os in
      let b = kinds-failed os in
      record {
        completed = ground (arith, t.completed, length-append os (o ∷ []));
        latencies =
            ground (arith, t.latencies, sum ok_weight, length-append c.latencies (o.latency ∷ []));
        attempted = ground (arith, t.attempted);
        successful = ground (arith, t.successful, sum ok_weight);
        failed = ground (arith, t.failed, sum failed_weight);
        timeouts = ground (arith, t.timeouts, sum (weigh timeout_kind));
        timeout = ground (arith, t.timeout, sum (weigh timeout_kind));
        network = ground (arith, t.network, sum (weigh network_kind));
        dns_response = ground (arith, t.dns_response, sum (weigh dns_response_kind));
        invalid_response = ground (arith, t.invalid_response, sum (weigh invalid_response_kind));
        internal = ground (arith, t.internal, sum (weigh internal_kind));
        other = ground (arith, t.other, sum (weigh other_kind));
      }

  report_progress-Tally :
      (total now : ℕ) (os : List Observation) (c : Collector F)
      → Tally count os c
      → Tally count os (report_progress total now c)
  unfolding report_progress
  report_progress-Tally total now os c t = ground arith

  collect-Tally :
      (total now : ℕ) (os : List Observation) (o : Observation) (c : Collector F)
      → length os + 1 < 2 ^ 63
      → Tally count os c
      → Tally count (os ++ o ∷ []) (collect total now o c)
  unfolding collect
  collect-Tally total now os o c h t =
      report_progress-Tally total now _ _ (count_observation-Tally os o c h t)

  collect_all-Tally_from :
      (total : ℕ) (clock : ℕ → ℕ) (done os : List Observation) (c : Collector F)
      → length done + length os < 2 ^ 63
      → Tally count done c
      → Tally count (done ++ os) (collect_all total clock os c)
  unfolding collect_all
  collect_all-Tally_from total clock done [] c h t = rw (append-nil done) t
  collect_all-Tally_from total clock done (o ∷ os) c h t =
      let step = collect-Tally total (clock c.completed) done o c (omega (arith, h)) t in
      let long = length-append done (o ∷ []) in
      let rest =
        collect_all-Tally_from total clock (done ++ o ∷ []) os
          (collect total (clock c.completed) o c) (omega (arith, h, long)) step in
      rw (sym (append_assoc done (o ∷ []) os)) rest

  pub collect_all-Tally :
      (ops : FloatOps F) (total : ℕ) (clock : ℕ → ℕ) (os : List Observation)
      → length os < 2 ^ 63
      → Tally count os (collect_all total clock os (new_collector ops count))
  collect_all-Tally ops total clock os h =
      collect_all-Tally_from total clock [] os _ (omega (arith, h)) (new_collector-Tally ops)

-- The counts of a finished path fit together: every query that the path was to send is counted
-- exactly once, as a success or as a failure of one kind.
pub record IsAccounted {F : Type 0} (count : ℕ) (r : PathResult F) : Type 0 where
  pub attempted : r.requests.attempted ≡ count
  pub total : r.requests.successful + r.requests.failed ≡ count
  pub split : r.requests.timeouts + r.requests.non_timeout_failures ≡ r.requests.failed
  pub timeouts : r.failures.timeout ≡ r.requests.timeouts
  pub kinds :
      r.failures.timeout + r.failures.network + r.failures.dns_response
        + r.failures.invalid_response + r.failures.internal + r.failures.other
      ≡ r.requests.failed

pub finish_counts-IsAccounted :
    {F : Type 0} (ops : FloatOps F) (count elapsed : ℕ) (context_error : Option GoError)
    (os : List Observation) (c : Collector F)
    → length os ≤ count
    → count < 2 ^ 63
    → Tally count os c
    → IsAccounted count (finish_counts ops (length os) elapsed context_error c.result)
unfolding finish_counts record_unscheduled_failures
finish_counts-IsAccounted ops count elapsed context_error os c h k t =
    let a = ok-failed os in
    let b = kinds-failed os in
    record {
      attempted = ground (arith, t.attempted);
      total = ground (arith, t.attempted, t.successful, t.failed);
      split = ground (arith, t.attempted, t.failed, t.timeouts);
      timeouts = ground (arith, t.attempted, t.timeouts, t.timeout);
      kinds = ground (
        arith, t.attempted, t.failed, t.timeout, t.network, t.dns_response, t.invalid_response,
        t.internal, t.other,
      );
    }
