-- ===== src/Benchmark/Service/Whole.antt =====
-- dns/internal/benchmark/service.go with dns/internal/benchmark/report_runner.go: the service with its
-- report runner.
use Prim.Native.String.{String}
use homedns_analytics.Common.{
  ◌≡◌, ◌≢◌, ap, inl, inr, none, List, [], ◌∷◌, arith, ok, err, subst, ok_inj,
}
use homedns_analytics.Float.{FloatOps}
use homedns_analytics.Net.{NetOps}
use homedns_analytics.Benchmark.Report.{ScenarioResult}
use homedns_analytics.Benchmark.Classify.{
  classify_scenarios, resolved_status_thresholds, status_severity,
}
use homedns_analytics.Benchmark.Summary.Verdict.{benchmark_rank}
use homedns_analytics.Benchmark.Service.{
  ServiceConfig, ServiceEnv, ServiceError, ServiceRunError, ServiceResult, report_failed,
  run_service, ReportRunConfig, validate_report_run, report_config, benchmark_id,
}
use homedns_analytics.Benchmark.Service.Report.{
  RunnerEnv, Report, ReportError, ResourceFlags, invalid_run, gather, run_report, run_report-rank,
}
use homedns_analytics.Benchmark.Service.Steps.{run_service_cases, validate_report_config}

module _ {F E : Type 0} (ops : FloatOps F) (net : NetOps) (runner : RunnerEnv F E)
    (env : ServiceEnv F (ReportError E) (Report F)) where
  -- The environment of the service, with the report runner in it.
  abbrev pub whole : ServiceEnv F (ReportError E) (Report F)
  whole = record env { run_report = run_report ops net runner }

  -- The runner finds nothing wrong with a configuration that passes its validation.
  run_report-accepted :
      (c : ReportRunConfig F) (e : ServiceError)
      → validate_report_run ops net c ≡ none
      → run_report ops net runner c ≢ err (invalid_run e)
  unfolding run_report gather
  run_report-accepted c e v h = ground (arith, v, h)

  -- What the status and the stability of a report come from.
  abbrev pub IsReportOf : ServiceConfig F → Report F → Type 0
  IsReportOf c r =
      (results : List (ScenarioResult F)) × (flags : ResourceFlags) × (gather ops net runner c.suite
          c.resource_collection
        ≡ ok (results, flags))
      × (status_severity r.status
          ≡ benchmark_rank
              (classify_scenarios ops (resolved_status_thresholds ops c.status_thresholds) results))
      × (r.stability ≡ flags)

  report_config-IsReportOf :
      (c : ServiceConfig F) (id : String) (r : Report F)
      → run_report ops net runner (report_config id c) ≡ ok r
      → IsReportOf c r
  unfolding report_config
  report_config-IsReportOf c id r h = run_report-rank ops net runner (report_config id c) r h

  -- A run of the service with its report runner: the runner never refuses the configuration that the
  -- service has accepted; and a run that returns a result has written just the report that it returns,
  -- once, under the path that it returns, with the status of the worst scenario of the suite that it ran
  -- for the configuration and the stability flags of its resources.
  pub run_service-report :
      (c : ServiceConfig F)
      → let result = (run_service ops net whole c).0 in
        let writes = (run_service ops net whole c).1 in
        ((e : ServiceError) → result ≢ err (report_failed (invalid_run e)))
        × ((s : ServiceResult (Report F))
            → result ≡ ok s
            → (writes ≡ (s.path, s.report) ∷ []) × IsReportOf c s.report)
  run_service-report c = elim (run_service_cases ops net whole c) [
    | inl (e, v, f) ↦ rw f (λ e' h. ground (arith, h), λ s h. absurd (ground (arith, h)))
    | inr (v, inl (e, r, f)) ↦ rw f (
      λ e' h.
          run_report-accepted (report_config (benchmark_id env.stamp) c) e'
            (validate_report_config ops net whole c v) (ground (arith, h, r)),
      λ s h. absurd (ground (arith, h)),
    )
    | inr (v, inr (report, r, inl (e, w, f))) ↦
        rw f (λ e' h. ground (arith, h), λ s h. absurd (ground (arith, h)))
    | inr (v, inr (report, r, inr (w, f))) ↦ rw f (
      λ e' h. ground (arith, h),
      λ s h. (
        ground (arith, h),
        subst (λ r. IsReportOf c r)
            (ap (λ s. s.report) (ok_inj {E = ServiceRunError (ReportError E)} h))
            (report_config-IsReportOf c (benchmark_id env.stamp) report r),
      ),
    )
  ]
