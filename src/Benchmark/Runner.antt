-- ===== src/Benchmark/Runner.antt =====
-- dns/internal/benchmark/runner.go: one benchmark path. The observations that the workers hand over
-- are counted (the loop of `RunPath`). Runner/Pool.antt has the scheduler and the workers.
pub mod Pool
pub mod Counts
pub mod Termination
pub mod Outcome
pub mod Query
pub mod Events
mod Samples
use Prim.Native.String.{String}
use homedns_analytics.Common.{
  ℕ, suc, ◌-◌, ◌%◌, Bool, true, false, Option, none, some, List, [], ◌∷◌, ◌++◌, length, nth,
  GoError, add64, sub64, is_positive, leb, leb_signed, ◌==◌, if◌then◌else◌, not,
}
use homedns_analytics.Float.{FloatOps, duration_milliseconds, round_six}
use homedns_analytics.Messages.{MsgOps}
use homedns_analytics.Benchmark.Report.{
  RequestCounts, RequestRates, ThroughputMetrics, SuccessfulLatencyStatistics, FailureBreakdown,
  PathResult,
}
use homedns_analytics.Benchmark.Rates.{calculate_request_rates, calculate_throughput}
use homedns_analytics.Benchmark.Query.{
  FailureKind, no_failure, timeout, network, dns_response, invalid_response, internal, other,
  QueryError, exchange_failed, no_response, id_mismatch, response_code, Observation, is_timeout,
  is_network, classify_exchange_error, Answer, failure_of, judge_answer, execute_query,
}

-- `shouldReportProgress`; times are nanoseconds, and `none` is the zero time.
unfoldable pub should_report_progress : ℕ → ℕ → Option ℕ → ℕ → Bool
should_report_progress current total last now =
    if not (is_positive current)
    then false
    else if leb_signed total current
    then true
    else elim last [ none ↦ true | some t ↦ leb 1_000_000_000 (now - t) ]

-- The counts of one `phase-progress` event.
pub record Progress : Type 0 where
  pub current : ℕ
  pub successful : ℕ
  pub failed : ℕ
  pub timeouts : ℕ

abbrev is_deadline : Option GoError → Bool
is_deadline none = false
is_deadline (some e) = e.deadline_exceeded

abbrev is_canceled : Option GoError → Bool
is_canceled none = false
is_canceled (some e) = e.canceled

abbrev increment : ℕ → ℕ
increment n = add64 n 1

module _ {F : Type 0} where
  -- The `switch` of `recordFailure`.
  unfoldable pub record_kind : FailureKind → PathResult F → PathResult F
  record_kind timeout r = record r {
    requests = record r.requests { timeouts = increment r.requests.timeouts };
    failures = record r.failures { timeout = increment r.failures.timeout };
  }
  record_kind network r = record r {
    failures = record r.failures { network = increment r.failures.network };
  }
  record_kind dns_response r = record r {
    failures = record r.failures { dns_response = increment r.failures.dns_response };
  }
  record_kind invalid_response r = record r {
    failures = record r.failures { invalid_response = increment r.failures.invalid_response };
  }
  record_kind internal r = record r {
    failures = record r.failures { internal = increment r.failures.internal };
  }
  record_kind _ r = record r { failures = record r.failures { other = increment r.failures.other } }

  unfoldable pub record_failure : FailureKind → PathResult F → PathResult F
  unfolding record_kind
  record_failure kind r =
      record_kind kind
        (record r { requests = record r.requests { failed = increment r.requests.failed } })

  unfoldable pub record_unscheduled_failures : ℕ → Option GoError → PathResult F → PathResult F
  record_unscheduled_failures count context_error r =
      if not (is_positive count)
      then r
      else let r' : PathResult F = record r {
        requests = record r.requests { failed = add64 r.requests.failed count };
      } in
        if is_deadline context_error
        then record r' {
          requests = record r'.requests { timeouts = add64 r'.requests.timeouts count };
          failures = record r'.failures { timeout = add64 r'.failures.timeout count };
        }
        else if is_canceled context_error
        then record r' {
          failures = record r'.failures { internal = add64 r'.failures.internal count };
        }
        else record r' { failures = record r'.failures { other = add64 r'.failures.other count } }

-- The variables of the loop of `RunPath`, and the progress events that it has sent.
pub record Collector (F : Type 0) : Type 0 where
  pub result : PathResult F
  pub latencies : List ℕ
  pub completed : ℕ
  pub last_progress_at : Option ℕ
  pub events : List Progress

module _ {F : Type 0} where
  -- The first half of the loop's body: the observation is counted.
  unfoldable pub count_observation : Observation → Collector F → Collector F
  unfolding record_failure
  count_observation o c = elim o.error [
    | some e ↦ record c {
      completed = increment c.completed;
      result = record_failure o.failure c.result;
    }
    | none ↦ record c {
      completed = increment c.completed;
      result = record c.result {
        requests = record c.result.requests { successful = increment c.result.requests.successful };
      };
      latencies = c.latencies ++ (o.latency ∷ []);
    }
  ]

  -- The second half, at the time `now`.
  unfoldable pub report_progress : ℕ → ℕ → Collector F → Collector F
  unfolding should_report_progress
  report_progress total now c =
      if should_report_progress c.completed total c.last_progress_at now
      then record c {
        events =
            c.events
            ++ (record {
              current = c.completed;
              successful = c.result.requests.successful;
              failed = c.result.requests.failed;
              timeouts = c.result.requests.timeouts;
            }
                ∷ []);
        last_progress_at = some now;
      }
      else c

  unfoldable pub collect : ℕ → ℕ → Observation → Collector F → Collector F
  collect total now o c = report_progress total now (count_observation o c)

module _ {F : Type 0} where
  -- The loop over the observations, in the order in which they arrive; `clock n` is the time once
  -- `n` of them are done.
  unfoldable pub collect_all : ℕ → (ℕ → ℕ) → List Observation → Collector F → Collector F
  collect_all total clock [] c = c
  collect_all total clock (o ∷ os) c =
      collect_all total clock os (collect total (clock c.completed) o c)

module _ {F : Type 0} (ops : FloatOps F) where
  open ops use {of_int}

  -- `PathResult{Requests: RequestCounts{Attempted: count}}`
  unfoldable pub new_result : ℕ → PathResult F
  new_result count = record {
    requests = record {
      attempted = count;
      successful = 0;
      failed = 0;
      timeouts = 0;
      non_timeout_failures = 0;
    };
    rates = record {
      success_percent = of_int 0;
      failure_percent = of_int 0;
      timeout_percent = of_int 0;
    };
    duration_milliseconds = of_int 0;
    throughput = record {
      attempted_queries_per_second = of_int 0;
      successful_queries_per_second = of_int 0;
    };
    latency = record {
      sample_count = 0;
      minimum = of_int 0;
      mean = of_int 0;
      median = of_int 0;
      p95 = of_int 0;
      p99 = of_int 0;
      maximum = of_int 0;
    };
    failures = record {
      timeout = 0;
      network = 0;
      dns_response = 0;
      invalid_response = 0;
      internal = 0;
      other = 0;
    };
  }

  unfoldable pub new_collector : ℕ → Collector F
  unfolding new_result
  new_collector count = record {
    result = new_result count;
    latencies = [];
    completed = 0;
    last_progress_at = none;
    events = [];
  }

  -- `RunPath` after the loop, up to the latency statistics: the queries that were never scheduled
  -- count as failures, and the derived figures are filled in.
  unfoldable pub finish_counts :
      (scheduled elapsed : ℕ) → Option GoError → PathResult F → PathResult F
  finish_counts scheduled elapsed context_error r =
      let r' = record_unscheduled_failures (sub64 r.requests.attempted scheduled) context_error r in
      let requests : RequestCounts = record r'.requests {
        non_timeout_failures = sub64 r'.requests.failed r'.requests.timeouts;
      } in
      record r' {
        duration_milliseconds = round_six ops (duration_milliseconds ops elapsed);
        requests = requests;
        rates = calculate_request_rates ops requests;
        throughput = calculate_throughput ops requests elapsed;
      }
