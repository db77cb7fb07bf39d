-- ===== src/Benchmark/Scenario.antt =====
-- dns/internal/benchmark/scenario.go: how a scenario runs its paths and compares them. What `RunPath` returns is an argument, which sees the
-- calls made so far. The progress reporter and the clock are left out.
pub mod Paths
pub mod Order
pub mod Samples
use Prim.Native.String.{String}
use text.Mathlib.Text.{◌==◌ as str_eq}
use homedns_analytics.Common.{
  ℕ, ◌+◌, Bool, true, false, not, Option, none, some, List, [], ◌∷◌, ◌++◌, ◌&&◌, ◌||◌, ◌==◌,
  GoError, Result, ok, err, is_positive, is_negative, ltb_signed, is_blank, if◌then◌else◌,
}
use homedns_analytics.Float.{FloatOps, round_six}
use homedns_analytics.Net.{NetOps}
use homedns_analytics.Benchmark.Report.{
  unknown, PathResult, LatencyComparison, ScenarioComparison, ScenarioResult,
}
use homedns_analytics.Benchmark.Progress.{Phase, warmup_direct, warmup_forwarded, direct, forwarded}
use homedns_analytics.Benchmark.Path.{
  PathConfig, PathError, missing_address, invalid_address, unsupported_protocol, missing_names,
  empty_name, unsupported_type, no_queries, no_workers, too_many_workers, no_timeout,
  supported_protocol, supported_type, is_empty, any_blank, is_host_port, validate_path,
}

pub record ScenarioConfig : Type 0 where
  pub name : String
  pub protocol : String
  pub direct_address : String
  pub forwarded_address : String
  pub query_names : List String
  pub query_type : ℕ
  pub warmup_queries : ℕ
  pub query_count : ℕ
  pub concurrency : ℕ
  pub timeout : ℕ

unfoldable pub path_config : ScenarioConfig → String → ℕ → ℕ → Phase → PathConfig
path_config c address query_count concurrency phase = record {
  address = address;
  protocol = c.protocol;
  query_names = c.query_names;
  query_type = c.query_type;
  query_count = query_count;
  concurrency = concurrency;
  timeout = c.timeout;
  scenario_name = c.name;
  phase = phase;
}

abbrev pub direct_path : ScenarioConfig → PathConfig
direct_path c = path_config c c.direct_address c.query_count c.concurrency direct

abbrev pub forwarded_path : ScenarioConfig → PathConfig
forwarded_path c = path_config c c.forwarded_address c.query_count c.concurrency forwarded

abbrev pub direct_warmup : ScenarioConfig → PathConfig
direct_warmup c = path_config c c.direct_address c.warmup_queries 1 warmup_direct

abbrev pub forwarded_warmup : ScenarioConfig → PathConfig
forwarded_warmup c = path_config c c.forwarded_address c.warmup_queries 1 warmup_forwarded

pub data ScenarioError : Type 0 where
  missing_name negative_warmup : ScenarioError
  invalid_direct invalid_forwarded : PathError → ScenarioError

-- `ScenarioConfig.Validate`
unfoldable pub validate_scenario : NetOps → ScenarioConfig → Option ScenarioError
validate_scenario net c =
    if str_eq c.name ""
    then some missing_name
    else if is_negative c.warmup_queries
    then some negative_warmup
    else elim (validate_path net (direct_path c)) [
      | some e ↦ some (invalid_direct e)
      | none ↦ elim (validate_path net (forwarded_path c)) [
        | some e ↦ some (invalid_forwarded e)
        | none ↦ none
      ]
    ]

-- The tests of `NewRunner`.
unfoldable pub new_runner_ok : String → ℕ → Bool
new_runner_ok protocol timeout = supported_protocol protocol && is_positive timeout

-- The tests at the start of `RunPath`, of a runner for `protocol`.
unfoldable pub run_path_ok : NetOps → String → PathConfig → Bool
run_path_ok net protocol c =
    if not (str_eq protocol "") && not (str_eq protocol c.protocol)
    then false
    else elim (validate_path net c) [ none ↦ true | some e ↦ false ]

pub data RunError : Type 0 where
  invalid_scenario : ScenarioError → RunError
  no_runner : RunError
  warmup_failed path_failed : Phase → GoError → RunError
  warmup_incomplete : Phase → ℕ → RunError

-- A procedure that runs paths: the calls made so far go in, and come out with its own.
abbrev pub Calls : Type 0
Calls = List PathConfig

abbrev pub Executor : Type 0 → Type 0
Executor F = Calls → PathConfig → Result GoError (PathResult F)

-- with errors of type `E`
abbrev pub Runs : Type 0 → Type 0 → Type 0
Runs E A = Calls → Result E A × Calls

abbrev pub and_then : {E A B : Type 0} → Runs E A → (A → Runs E B) → Runs E B
and_then p f calls =
    let (r, calls') = p calls in elim r [ ok a ↦ f a calls' | err e ↦ (err e, calls') ]

abbrev pub give : {E A : Type 0} → A → Runs E A
give a calls = (ok a, calls)

abbrev pub fail : {E A : Type 0} → E → Runs E A
fail e calls = (err e, calls)

module _ {F : Type 0} (ops : FloatOps F) where
  open ops use {of_int, sub, div, mul, eq}

  unfoldable pub difference : F → F → F
  difference baseline value = round_six ops (sub value baseline)

  unfoldable pub percentage_change : F → F → F
  percentage_change baseline value =
      if eq baseline (of_int 0)
      then of_int 0
      else round_six ops (mul (div (sub value baseline) baseline) (of_int 100))

  -- `percentagePointDifference` is the same calculation as `difference`.
  unfoldable pub calculate_scenario_comparison : PathResult F → PathResult F → ScenarioComparison F
  calculate_scenario_comparison d f = record {
    latency_overhead_milliseconds = record {
      mean = difference d.latency.mean f.latency.mean;
      median = difference d.latency.median f.latency.median;
      p95 = difference d.latency.p95 f.latency.p95;
      p99 = difference d.latency.p99 f.latency.p99;
    };
    latency_overhead_percent = record {
      mean = percentage_change d.latency.mean f.latency.mean;
      median = percentage_change d.latency.median f.latency.median;
      p95 = percentage_change d.latency.p95 f.latency.p95;
      p99 = percentage_change d.latency.p99 f.latency.p99;
    };
    throughput_attempted =
        percentage_change d.throughput.attempted_queries_per_second
          f.throughput.attempted_queries_per_second;
    throughput_successful =
        percentage_change d.throughput.successful_queries_per_second
          f.throughput.successful_queries_per_second;
    reliability_success = difference d.rates.success_percent f.rates.success_percent;
    reliability_failure = difference d.rates.failure_percent f.rates.failure_percent;
    reliability_timeout = difference d.rates.timeout_percent f.rates.timeout_percent;
  }

module _ {F : Type 0} (executor : Executor F) where
  unfoldable pub call_path : (GoError → RunError) → PathConfig → Runs RunError (PathResult F)
  call_path wrap c calls =
      let calls' = calls ++ (c ∷ []) in
      elim (executor calls c) [ ok r ↦ (ok r, calls') | err e ↦ (err (wrap e), calls') ]

  unfoldable pub warmup_path : PathConfig → Runs RunError Unit
  warmup_path c = and_then (call_path (warmup_failed c.phase) c) (λ r.
      if r.requests.successful == c.query_count
      then give tt
      else fail (warmup_incomplete c.phase r.requests.successful))

  -- The two warmups of `RunScenario`.
  unfoldable pub warm_up : ScenarioConfig → Runs RunError Unit
  warm_up c =
      if is_positive c.warmup_queries
      then and_then (warmup_path (direct_warmup c)) (λ u. warmup_path (forwarded_warmup c))
      else give tt

  -- The two measurements of `RunScenario`, and its result.
  unfoldable pub measure : FloatOps F → ScenarioConfig → Runs RunError (ScenarioResult F)
  measure ops c = and_then (call_path (path_failed direct) (direct_path c)) (λ d.
      and_then (call_path (path_failed forwarded) (forwarded_path c)) (λ f. give (record {
        name = c.name;
        protocol = c.protocol;
        concurrency = c.concurrency;
        query_count_per_path = c.query_count;
        status = unknown;
        status_reasons = [];
        direct = d;
        forwarded = f;
        comparison = calculate_scenario_comparison ops d f;
      })))

  -- `RunScenario` of a runner that is initialised.
  unfoldable pub run_scenario :
      FloatOps F → NetOps → ScenarioConfig → Runs RunError (ScenarioResult F)
  run_scenario ops net c = elim (validate_scenario net c) [
    | some e ↦ fail (invalid_scenario e)
    | none ↦
        if new_runner_ok c.protocol c.timeout
        then and_then (warm_up c) (λ u. measure ops c)
        else fail no_runner
  ]
