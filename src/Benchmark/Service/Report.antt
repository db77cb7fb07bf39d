-- ===== src/Benchmark/Service/Report.antt =====
-- dns/internal/benchmark/report_runner.go: `ReportRunner.Run`, which the service calls. The suite runner
-- and the resource collector are parameters; the metadata that is only copied is left out.
use Prim.Native.String.{String}
use homedns_analytics.Common.{
  ℕ, ◌≡◌, inl, inr, refl, sym, ap, ◌∙◌, Bool, true, false, Option, Option-cases, none, some, List,
  [], arith, GoError, Result, ok, err, sub64, ok_inj,
}
use homedns_analytics.Float.{FloatOps, round_six, duration_milliseconds}
use homedns_analytics.Net.{NetOps}
use homedns_analytics.Benchmark.Report.{Status, StatusReason, ScenarioResult}
use homedns_analytics.Benchmark.Classify.{
  classify_scenarios, resolved_status_thresholds, status_severity,
}
use homedns_analytics.Benchmark.Summary.{BenchmarkSummary, summarize_scenarios}
use homedns_analytics.Benchmark.Summary.Verdict.{benchmark_rank, summarize_scenarios-rank}
use homedns_analytics.Benchmark.Suite.{SuiteConfig}
use homedns_analytics.Benchmark.Service.{
  ReportRunConfig, ResourceCollectionConfig, ServiceError, validate_report_run,
}

-- What the report takes from the resources: the flags that the summary of the samples has.
pub record ResourceFlags : Type 0 where
  pub restart_detected : Bool
  pub throttling_observed : Bool

abbrev pub no_flags : ResourceFlags
no_flags = record { restart_detected = false; throttling_observed = false }

-- The part of `Report` that `Run` computes.
pub record Report (F : Type 0) : Type 0 where
  pub id : String
  pub status : Status
  pub status_reasons : List (StatusReason F)
  pub notes : List String
  pub scenarios : List (ScenarioResult F)
  pub resources : ResourceFlags
  pub duration_milliseconds : F
  pub summary : BenchmarkSummary F
  pub stability : ResourceFlags

pub data ReportError (E : Type 0) : Type 0 where
  invalid_run : ServiceError → ReportError E
  suite_failed : E → ReportError E
  collection_failed : GoError → ReportError E

-- The runner's parts: the suite, which is the function that the collector is given and may call; the
-- collector's own outcome; and the clock before and after.
pub record RunnerEnv (F E : Type 0) : Type 0 where
  pub run_suite : SuiteConfig → Result E (List (ScenarioResult F))
  pub calls_run : Bool
  pub collect : ResourceCollectionConfig → Result GoError ResourceFlags
  pub started_at : ℕ
  pub ended_at : ℕ

module _ {F E : Type 0} (ops : FloatOps F) (net : NetOps) (env : RunnerEnv F E) where
  -- `scenarios` and `suiteErr` after the collector has called the function or not.
  abbrev suite_called : Bool → SuiteConfig → Result E (List (ScenarioResult F))
  suite_called true suite = env.run_suite suite
  suite_called false suite = ok []

  abbrev settled :
      Result E (List (ScenarioResult F))
      → Result GoError ResourceFlags
      → Result (ReportError E) (List (ScenarioResult F) × ResourceFlags)
  settled (err e) collected = err (suite_failed e)
  settled (ok scenarios) (err e) = err (collection_failed e)
  settled (ok scenarios) (ok flags) = ok (scenarios, flags)

  -- The scenarios and the resources of a run.
  unfoldable pub gather :
      SuiteConfig
      → Option ResourceCollectionConfig
      → Result (ReportError E) (List (ScenarioResult F) × ResourceFlags)
  gather suite none = settled (env.run_suite suite) (ok no_flags)
  gather suite (some c) = settled (suite_called env.calls_run suite) (env.collect c)

  -- The report, from the scenarios and the resources.
  unfoldable pub build_report :
      ReportRunConfig F → List (ScenarioResult F) × ResourceFlags → Report F
  build_report c (results, flags) =
      let thresholds = resolved_status_thresholds ops c.status_thresholds in
      let scenarios = classify_scenarios ops thresholds results in
      let duration =
        round_six ops (duration_milliseconds ops (sub64 env.ended_at env.started_at)) in
      let summary = summarize_scenarios ops scenarios duration in
      record {
        id = c.id;
        status = summary.status;
        status_reasons = summary.status_reasons;
        notes = summary.notes;
        scenarios = scenarios;
        resources = flags;
        duration_milliseconds = duration;
        summary = summary;
        stability = flags;
      }

  abbrev reported :
      ReportRunConfig F
      → Result (ReportError E) (List (ScenarioResult F) × ResourceFlags)
      → Result (ReportError E) (Report F)
  reported c (ok gathered) = ok (build_report c gathered)
  reported c (err e) = err e

  -- `Run` of a runner that is initialised.
  unfoldable pub run_report : ReportRunConfig F → Result (ReportError E) (Report F)
  run_report c = elim (validate_report_run ops net c) [
    | some e ↦ err (invalid_run e)
    | none ↦ reported c (gather c.suite c.resource_collection)
  ]

  gathered-reported :
      (c : ReportRunConfig F) (g : Result (ReportError E) (List (ScenarioResult F) × ResourceFlags))
      (r : Report F)
      → reported c g ≡ ok r
      → (results : List (ScenarioResult F)) × (flags : ResourceFlags) × (g ≡ ok (results, flags))
        × (build_report c (results, flags) ≡ r)
  gathered-reported c (ok (results, flags)) r h =
      (results, flags, refl, ok_inj {E = ReportError E} h)
  gathered-reported c (err e) r h = absurd (ground (arith, h))

  -- The status of a report that the runner returns is that of its worst scenario, classified by the
  -- thresholds of the configuration where they are set, and invalid if there is none; and the flags of its
  -- stability are those of the resources collected in the same run.
  pub run_report-rank :
      (c : ReportRunConfig F) (r : Report F)
      → run_report c ≡ ok r
      → (results : List (ScenarioResult F)) × (flags : ResourceFlags) × (gather c.suite
            c.resource_collection
          ≡ ok (results, flags))
        × (status_severity r.status
            ≡ benchmark_rank (
                classify_scenarios ops
                  (resolved_status_thresholds ops c.status_thresholds)
                  results))
        × (r.stability ≡ flags)
  unfolding run_report build_report
  run_report-rank c r h = elim (Option-cases (validate_report_run ops net c)) [
    | inr (e, v) ↦ absurd (ground (arith, h, v))
    | inl v ↦
        let (results, flags, g, same) =
          gathered-reported c (gather c.suite c.resource_collection) r (rw (v, run_report) at h) in
        (
          results,
          flags,
          g,
          ap (λ r. status_severity r.status) (sym same) ∙ summarize_scenarios-rank ops _ _,
          ap (λ r. r.stability) (sym same),
        )
  ]
