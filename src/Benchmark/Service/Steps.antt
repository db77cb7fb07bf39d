-- ===== src/Benchmark/Service/Steps.antt =====
-- dns/internal/benchmark/service.go: the outcomes of `Service.Run`.
use Prim.Native.String.{String}
use text.Mathlib.Text.{◌==◌ as str_eq}
use text.Mathlib.TextEquality.{eq_iff}
use text.Mathlib.TextLemmas.{nil≢cons}
use homedns_analytics.Common.{
  ◌≡◌, sym, Bool-cases, false, arith, ◌⊎◌, inl, inr, refl, Option-cases, none, some, [], ◌∷◌,
  GoError, Result-cases, ok, err,
}
use homedns_analytics.Strings.{append}
use homedns_analytics.Float.{FloatOps}
use homedns_analytics.Net.{NetOps}
use homedns_analytics.Benchmark.Service.{
  ServiceConfig, ServiceEnv, ServiceError, ServiceRunError, invalid_configuration, report_failed,
  write_failed, run_service, validate_service, validate_report_run, report_config, benchmark_id,
}

module _ {F E R : Type 0} (ops : FloatOps F) (net : NetOps) (env : ServiceEnv F E R)
    (c : ServiceConfig F) where
  -- The path of the report.
  abbrev pub report_path : String
  report_path = env.join_path c.output_directory (append (benchmark_id env.stamp) ".json")

  -- An error and no report, or the report written once under its path.
  abbrev pub Failed : ServiceRunError E → Type 0
  Failed e = run_service ops net env c ≡ (err e, [])

  abbrev pub Written : R → Type 0
  Written r =
      (env.write_report report_path r ≡ none)
      × (run_service ops net env c
          ≡ (ok (record { report = r; path = report_path }), (report_path, r) ∷ []))

  named : str_eq (benchmark_id env.stamp) "" ≡ false
  named = elim (Bool-cases (str_eq (benchmark_id env.stamp) "")) [
    | inl e ↦ absurd (nil≢cons (sym ((eq_iff (benchmark_id env.stamp) "").0 e)))
    | inr e ↦ e
  ]

  -- A configuration that the service accepts is accepted by the report runner as well, which checks it
  -- again with the identifier that the service makes up.
  pub validate_report_config :
      validate_service ops net c ≡ none
      → validate_report_run ops net (report_config (benchmark_id env.stamp) c) ≡ none
  unfolding validate_service validate_report_run report_config
  validate_report_config h = let n = named in ground (arith, h, n)

  -- What a run of the service may come to: the configuration is invalid, or the report runner fails, or
  -- the report cannot be written; or it is written, once, under the path of the report.
  pub run_service_cases :
      ((e : ServiceError) × (validate_service ops net c ≡ some e)
        × Failed (invalid_configuration e))
      ⊎ ((validate_service ops net c ≡ none)
          × (((e : E) × (env.run_report (report_config (benchmark_id env.stamp) c) ≡ err e)
                × Failed (report_failed e))
              ⊎ ((r : R) × (env.run_report (report_config (benchmark_id env.stamp) c) ≡ ok r)
                  × (((e : GoError) × (env.write_report report_path r ≡ some e)
                        × Failed (write_failed e))
                      ⊎ Written r))))
  unfolding run_service
  run_service_cases = elim (Option-cases (validate_service ops net c)) [
    | inr (e, v) ↦ inl (e, v, rw (v, run_service) refl)
    | inl v ↦ inr (
      v,
      elim (Result-cases (env.run_report (report_config (benchmark_id env.stamp) c))) [
        | inl (e, r) ↦ inl (e, r, rw (v, run_service) (rw r refl))
        | inr (report, r) ↦ inr (
          report,
          r,
          elim (Option-cases (env.write_report report_path report)) [
            | inr (e, w) ↦ inl (e, w, rw (v, run_service) (rw r (rw w refl)))
            | inl w ↦ inr (w, rw (v, run_service) (rw r (rw w refl)))
          ],
        )
      ],
    )
  ]
