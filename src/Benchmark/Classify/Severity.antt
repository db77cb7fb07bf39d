-- ===== src/Benchmark/Classify/Severity.antt =====
-- dns/internal/benchmark/report_runner.go: what the status of a scenario says of its paths.
use Prim.Native.Nat.{max}
use Prim.Native.String.{String}
use homedns_analytics.Common.{
  ℕ, ◌≤◌, ◌≡◌, refl, ◌↔◌, true, [], ◌∷◌, ◌++◌, arith, length, length-append, is_positive,
  if◌then◌else◌, Bool-cases, ◌∙◌, ◌⊎◌, inl, inr,
}
use homedns_analytics.Float.{FloatOps, FloatLaws}
use homedns_analytics.Benchmark.Report.{
  Status, passed, degraded, failed, invalid, StatusThresholds, StatusReason, PathResult,
  ScenarioResult,
}
use homedns_analytics.Benchmark.Classify.{
  status_severity, higher_status, classify_rate, apply_rate, classify_path, classify_scenario,
}

severity-higher_status :
    (a b : Status)
    → status_severity (higher_status a b) ≡ max (status_severity a) (status_severity b)
unfolding higher_status status_severity
severity-higher_status a b = ground arith

module _ {F : Type 0} (ops : FloatOps F) where
  -- How bad a rate is, a path, and a scenario by its two paths: 1 passed, 2 degraded, 3 failed, 4
  -- not measured.
  abbrev pub rate_severity : F → F → F → ℕ
  rate_severity observed degraded_threshold failed_threshold =
      if ops.le failed_threshold observed
      then 3
      else if ops.le degraded_threshold observed
      then 2
      else 1

  abbrev pub path_severity : StatusThresholds F → PathResult F → ℕ
  path_severity t p =
      if is_positive p.requests.attempted
      then max
          (rate_severity p.rates.failure_percent t.degraded_failure_percent
            t.failed_failure_percent)
          (rate_severity p.rates.timeout_percent t.degraded_timeout_percent
            t.failed_timeout_percent)
      else 4

  -- Between two classifications: passed with no reason, or worse with a reason.
  abbrev IsFlagged : ScenarioResult F → Type 0
  IsFlagged s =
      ((status_severity s.status ≡ 1) × (length s.status_reasons ≡ 0))
      ⊎ ((2 ≤ status_severity s.status) × (1 ≤ length s.status_reasons))

  -- What a step does to the status and to the reasons.
  record Raises (n : ℕ) (s s' : ScenarioResult F) : Type 0 where
    severity : status_severity s'.status ≡ max (status_severity s.status) n
    flagged : IsFlagged s'
    name_kept : s'.name ≡ s.name

  -- A reason is added with a status that is at least degraded.
  flag-Raises :
      (c : Status) (r : StatusReason F) (s : ScenarioResult F)
      → 2 ≤ status_severity c
      → IsFlagged s
      → Raises (status_severity c) s (record s {
        status = higher_status s.status c;
        status_reasons = s.status_reasons ++ (r ∷ []);
      })
  flag-Raises c r s h f =
      ground (arith, severity-higher_status s.status c, length-append s.status_reasons (r ∷ []))

  apply_rate-Raises :
      (code name path : String) (x d f : F) (message : String) (s : ScenarioResult F)
      → IsFlagged s
      → Raises
          (rate_severity x d f)
          s
          (apply_rate ops (classify_rate ops code name path x d f message) s)
  unfolding classify_rate apply_rate status_severity
  apply_rate-Raises code name path x d f message s h = elim (Bool-cases (ops.le f x)) [
    | inl p ↦ rw p (flag-Raises failed _ s (omega arith) h)
    | inr p ↦ elim (Bool-cases (ops.le d x)) [
      | inl q ↦ rw (p, q) (flag-Raises degraded _ s (omega arith) h)
      | inr q ↦ rw (p, q) (ground arith)
    ]
  ]

  Raises-trans :
      {m n : ℕ} {s t u : ScenarioResult F} → Raises m s t → Raises n t u → Raises (max m n) s u
  Raises-trans p q = record {
    severity = omega (arith, p.severity, q.severity);
    flagged = q.flagged;
    name_kept = q.name_kept ∙ p.name_kept;
  }

  classify_path-Raises :
      (path_name : String) (path : PathResult F) (t : StatusThresholds F) (s : ScenarioResult F)
      → IsFlagged s
      → Raises (path_severity t path) s (classify_path ops path_name path t s)
  unfolding classify_path status_severity
  classify_path-Raises path_name path t s h =
      elim (Bool-cases (is_positive path.requests.attempted)) [
        | inl p ↦
            let first =
              apply_rate-Raises _ s.name path_name path.rates.failure_percent
                t.degraded_failure_percent t.failed_failure_percent _ s h in
            rw p (
              Raises-trans first (
                apply_rate-Raises _ _ path_name path.rates.timeout_percent
                  t.degraded_timeout_percent t.failed_timeout_percent _ _ first.flagged))
        | inr p ↦ rw p (flag-Raises invalid _ s (omega arith) h)
      ]

  -- The severity of a scenario is that of the worse of its two paths, where a path that attempted
  -- nothing is the worst and any other is as bad as the worse of its two rates; and the scenario
  -- passed exactly if it has no reasons. The status and the reasons from before do not count.
  pub classify_scenario_severity :
      (t : StatusThresholds F) (s : ScenarioResult F)
      → let s' = classify_scenario ops t s in
        (status_severity s'.status ≡ max (path_severity t s.direct) (path_severity t s.forwarded))
        × ((s'.status ≡ passed) ↔ (s'.status_reasons ≡ []))
  unfolding classify_scenario status_severity
  classify_scenario_severity t s =
      let fresh : ScenarioResult F = record s { status = passed; status_reasons = [] } in
      let direct = classify_path-Raises "direct" s.direct t fresh (inl (refl, refl)) in
      let forwarded = classify_path-Raises "forwarded" s.forwarded t _ direct.flagged in
      (
        ground (arith, direct.severity, forwarded.severity, path_severity_pos t s.direct),
        passed-iff (classify_scenario ops t s) forwarded.flagged,
      )
    where
      path_severity_pos : (t : StatusThresholds F) (p : PathResult F) → 1 ≤ path_severity t p
      path_severity_pos t p = ground arith

      passed-iff :
          (s : ScenarioResult F) → IsFlagged s → (s.status ≡ passed) ↔ (s.status_reasons ≡ [])
      passed-iff s h = (λ e. ground arith, λ e. ground arith)

  module _ (laws : FloatLaws ops) where
    open laws use {le_trans}

    -- Every threshold of `t` is at most that of `u`.
    pub record IsStricter (t u : StatusThresholds F) : Type 0 where
      pub degraded_failure : ops.le t.degraded_failure_percent u.degraded_failure_percent ≡ true
      pub failed_failure : ops.le t.failed_failure_percent u.failed_failure_percent ≡ true
      pub degraded_timeout : ops.le t.degraded_timeout_percent u.degraded_timeout_percent ≡ true
      pub failed_timeout : ops.le t.failed_timeout_percent u.failed_timeout_percent ≡ true

    rate_severity_mono :
        (x d f d' f' : F)
        → ops.le d d' ≡ true
        → ops.le f f' ≡ true
        → rate_severity x d' f' ≤ rate_severity x d f
    rate_severity_mono x d f d' f' p q = ground (arith, le_trans d d' x p, le_trans f f' x q)

    path_severity_mono :
        (t u : StatusThresholds F) (p : PathResult F)
        → IsStricter t u
        → path_severity u p ≤ path_severity t p
    path_severity_mono t u p h = ground (
      arith,
      rate_severity_mono p.rates.failure_percent _ _ _ _ h.degraded_failure h.failed_failure,
      rate_severity_mono p.rates.timeout_percent _ _ _ _ h.degraded_timeout h.failed_timeout,
    )

    -- Stricter thresholds never give a scenario a better status.
    pub classify_scenario_mono :
        (t u : StatusThresholds F) (s : ScenarioResult F)
        → IsStricter t u
        → status_severity (classify_scenario ops u s).status
          ≤ status_severity (classify_scenario ops t s).status
    classify_scenario_mono t u s h = omega (
      arith,
      (classify_scenario_severity t s).0,
      (classify_scenario_severity u s).0,
      path_severity_mono t u s.direct h,
      path_severity_mono t u s.forwarded h,
    )
