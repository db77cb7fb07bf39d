-- ===== src/Benchmark/Runner/Query.antt =====
-- dns/internal/benchmark/runner.go: how one query is judged.
use Prim.Native.String.{String}
use homedns_analytics.Common.{
  ℕ, ◌%◌, ◌<◌, ◌≡◌, ◌↔◌, refl, Option, none, some, List, length, arith, nth, nth_below,
}
use homedns_analytics.Messages.{MsgOps}
use homedns_analytics.Benchmark.Query.{
  Answer, no_failure, judge_answer, execute_query, classify_exchange_error,
}

-- What an answer must be to count as a success.
pub record IsGood {M : Type 0} (ops : MsgOps M) (message : M) (answer : Answer M) (response : M)
    : Type 0 where
  pub no_error : answer.error ≡ none
  pub answered : answer.response ≡ some response
  pub same_id : ops.id response ≡ ops.id message
  pub success : ops.rcode response ≡ 0

module _ {M : Type 0} (ops : MsgOps M) where
  judge_answer-IsGood :
      (message : M) (answer : Answer M) (o : Option M)
      → answer.response ≡ o
      → (judge_answer ops message answer).error ≡ none
      → (response : M) × IsGood ops message answer response
  unfolding judge_answer
  judge_answer-IsGood message answer none e h = absurd (ground arith)
  judge_answer-IsGood message answer (some response) e h = (
    response,
    record {
      no_error = ground arith;
      answered = e;
      same_id = ground arith;
      success = ground arith;
    },
  )

  -- An answer counts as a success exactly if the exchange returned no error, and a response with the
  -- identifier of the query and the code NOERROR; the latency kept is then that of the exchange.
  -- Otherwise the observation has a failure of some kind.
  pub judge_answer_iff :
      (message : M) (answer : Answer M)
      → let o = judge_answer ops message answer in
        ((o.error ≡ none) ↔ ((response : M) × IsGood ops message answer response))
        × (o.error ≡ none → o.latency ≡ answer.latency)
        × ((o.error ≡ none) ↔ (o.failure ≡ no_failure))
  unfolding judge_answer classify_exchange_error
  judge_answer_iff message answer = (
    (
      judge_answer-IsGood message answer answer.response refl,
      λ g. ground (arith, g.1.no_error, g.1.answered, g.1.same_id, g.1.success),
    ),
    λ h. ground arith,
    (λ h. ground arith, λ h. ground arith),
  )

  -- A query of a path with at least one name never panics, whatever its index: a message is made for
  -- one of the names, and its answer is judged.
  pub execute_query_total :
      (new_query : ℕ → String → M) (exchange : ℕ → M → Answer M) (names : List String) (index : ℕ)
      → 0 < length names
      → (name : String) × (nth (index % length names) names ≡ some name)
        × (execute_query ops new_query exchange names index
            ≡ some
                (judge_answer ops (new_query index name) (exchange index (new_query index name))))
  unfolding execute_query
  execute_query_total new_query exchange names index h =
      let found = nth_below (index % length names) names (omega (arith, h)) in
      (found.0, found.1, rw (found.1, execute_query) refl)
