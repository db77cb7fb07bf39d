-- ===== src/Benchmark/Query.antt =====
-- dns/internal/benchmark/runner.go: a query is sent and its answer judged (`executeQuery`).
use Prim.Native.String.{String}
use homedns_analytics.Common.{
  ℕ, ◌%◌, Bool, true, false, Option, none, some, List, length, nth, GoError, ◌==◌, if◌then◌else◌,
  not,
}
use homedns_analytics.Messages.{MsgOps}

-- `failureNone` to `failureOther`.
pub data FailureKind : Type 0 where
  no_failure timeout network dns_response invalid_response internal other : FailureKind

-- The error of an observation.
pub data QueryError : Type 0 where
  exchange_failed : GoError → QueryError
  no_response id_mismatch : QueryError
  response_code : ℕ → QueryError

-- `queryObservation`
pub record Observation : Type 0 where
  pub latency : ℕ
  pub failure : FailureKind
  pub error : Option QueryError

-- `isTimeout`
unfoldable pub is_timeout : GoError → Bool
is_timeout e = if e.deadline_exceeded then true else net_timeout e.net_error
  where
    net_timeout : Option Bool → Bool
    net_timeout none = false
    net_timeout (some t) = t

abbrev pub is_network : Option Bool → Bool
is_network none = false
is_network (some t) = true

unfoldable pub classify_exchange_error : Option GoError → FailureKind
unfolding is_timeout
classify_exchange_error none = no_failure
classify_exchange_error (some e) =
    if is_timeout e
    then timeout
    else if is_network e.net_error
    then network
    else if e.canceled
    then internal
    else if e.deadline_exceeded
    then internal
    else other

-- What `r.exchange` returns.
pub record Answer (M : Type 0) : Type 0 where
  pub response : Option M
  pub latency : ℕ
  pub error : Option GoError

abbrev pub failure_of : FailureKind → QueryError → Observation
failure_of kind e = record { latency = 0; failure = kind; error = some e }

module _ {M : Type 0} (ops : MsgOps M) where
  -- `executeQuery` from the answer on.
  unfoldable pub judge_answer : M → Answer M → Observation
  unfolding classify_exchange_error
  judge_answer message answer = elim answer.error [
    | some e ↦ failure_of (classify_exchange_error (some e)) (exchange_failed e)
    | none ↦ elim answer.response [
      | none ↦ failure_of invalid_response no_response
      | some response ↦
          if not (ops.id response == ops.id message)
          then failure_of invalid_response id_mismatch
          else if not (ops.rcode response == 0)
          then failure_of dns_response (response_code (ops.rcode response))
          else record { latency = answer.latency; failure = no_failure; error = none }
    ]
  ]

  -- `executeQuery`. `new_query` makes the message of a query, its random identifier included, and
  -- `exchange` sends it; both may answer each query in their own way. `none` is a panic: there is no
  -- name to ask for.
  unfoldable pub execute_query :
      (ℕ → String → M) → (ℕ → M → Answer M) → List String → ℕ → Option Observation
  unfolding judge_answer
  execute_query new_query exchange names index = elim (nth (index % length names) names) [
    | none ↦ none
    | some name ↦
        let message = new_query index name in some (judge_answer message (exchange index message))
  ]
