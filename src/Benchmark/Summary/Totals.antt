-- ===== src/Benchmark/Summary/Totals.antt =====
-- dns/internal/benchmark/report_runner.go: the request counts of the summary.
use homedns_analytics.Common.{◌+◌, ◌%◌, ◌^◌, ◌≡◌, List, [], ◌∷◌, arith}
use homedns_analytics.Float.{FloatOps}
use homedns_analytics.Benchmark.Report.{RequestCounts, ScenarioResult}
use homedns_analytics.Benchmark.Summary.{
  BenchmarkSummary, no_requests, accumulate_path_summary, accumulate_scenario, accumulate_all,
  new_benchmark_summary, finish_summary, summarize_scenarios,
}

-- Sums of counts, without wrapping.
abbrev pub plus : RequestCounts → RequestCounts → RequestCounts
plus a b = record {
  attempted = a.attempted + b.attempted;
  successful = a.successful + b.successful;
  failed = a.failed + b.failed;
  timeouts = a.timeouts + b.timeouts;
  non_timeout_failures = a.non_timeout_failures + b.non_timeout_failures;
}

-- `r` holds the sums `k`, modulo 2 ^ 64.
pub record IsSum (r k : RequestCounts) : Type 0 where
  pub attempted : r.attempted ≡ k.attempted % 2 ^ 64
  pub successful : r.successful ≡ k.successful % 2 ^ 64
  pub failed : r.failed ≡ k.failed % 2 ^ 64
  pub timeouts : r.timeouts ≡ k.timeouts % 2 ^ 64
  pub non_timeout_failures : r.non_timeout_failures ≡ k.non_timeout_failures % 2 ^ 64

accumulate_path_summary-IsSum :
    (r k p : RequestCounts) → IsSum r k → IsSum (accumulate_path_summary r p) (plus k p)
unfolding accumulate_path_summary
accumulate_path_summary-IsSum r k p h = omega arith

module _ {F : Type 0} where
  abbrev pub direct_requests : List (ScenarioResult F) → RequestCounts
  direct_requests [] = no_requests
  direct_requests (s ∷ ss) = plus s.direct.requests (direct_requests ss)

  abbrev pub forwarded_requests : List (ScenarioResult F) → RequestCounts
  forwarded_requests [] = no_requests
  forwarded_requests (s ∷ ss) = plus s.forwarded.requests (forwarded_requests ss)

module _ {F : Type 0} (ops : FloatOps F) where
  -- The three groups of counts, from sums `d` and `f` for the two kinds of path.
  record Holds (b : BenchmarkSummary F) (d f : RequestCounts) : Type 0 where
    all : IsSum b.requests (plus d f)
    direct : IsSum b.direct.requests d
    forwarded : IsSum b.forwarded.requests f

  accumulate_scenario-Holds :
      (b : BenchmarkSummary F) (s : ScenarioResult F) (d f : RequestCounts)
      → Holds b d f
      → Holds (accumulate_scenario ops b s) (plus d s.direct.requests) (plus f s.forwarded.requests)
  unfolding accumulate_scenario accumulate_path_summary
  accumulate_scenario-Holds b s d f h = omega arith

  accumulate_all-Holds :
      (b : BenchmarkSummary F) (ss : List (ScenarioResult F)) (d f : RequestCounts)
      → Holds b d f
      → Holds
          (accumulate_all ops b ss)
          (plus d (direct_requests ss))
          (plus f (forwarded_requests ss))
  unfolding accumulate_all
  accumulate_all-Holds b [] d f h = omega arith
  accumulate_all-Holds b (s ∷ ss) d f h =
      let rest =
        accumulate_all-Holds (accumulate_scenario ops b s) ss (plus d s.direct.requests)
          (plus f s.forwarded.requests) (accumulate_scenario-Holds b s d f h) in
      omega (arith, rest)

  -- Modulo 2 ^ 64, every count of the summary is the sum of that count over the direct paths, over
  -- the forwarded paths, or over both.
  pub summarize_scenarios-IsSum :
      (ss : List (ScenarioResult F)) (duration : F)
      → let b = summarize_scenarios ops ss duration in
        IsSum b.direct.requests (direct_requests ss)
        × IsSum b.forwarded.requests (forwarded_requests ss)
        × IsSum b.requests (plus (direct_requests ss) (forwarded_requests ss))
  unfolding summarize_scenarios finish_summary new_benchmark_summary
  summarize_scenarios-IsSum [] duration = omega arith
  summarize_scenarios-IsSum (s ∷ ss) duration = omega (
    arith,
    accumulate_all-Holds (new_benchmark_summary ops) (s ∷ ss) no_requests no_requests (omega arith),
  )
