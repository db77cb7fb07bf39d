-- ===== src/App/Report.antt =====
-- dns/internal/app/app.go and health/handler.go: what GET /health says of the running program.
use Prim.Native.String.{String}
use text.Mathlib.Text.{◌==◌ as str_eq}
use homedns_analytics.Common.{
  ℕ, ◌+◌, ◌*◌, ◌-◌, ◌≤◌, ◌<◌, ◌^◌, ◌≡◌, refl, Bool, true, false, Option, none, some, arith, ap, ◌∙◌,
  if◌then◌else◌,
}
use homedns_analytics.Float.{FloatOps}
use homedns_analytics.Metrics.{Registry}
use homedns_analytics.DnsServer.Lifecycle as Dns
use homedns_analytics.DnsServer.Lifecycle.Startup.{IsRunning}
use homedns_analytics.DnsServer.Lifecycle.Interleaving.{System, Reach, ready-IsRunning}
use homedns_analytics.Health.Handler.{
  State, Response, not_found, method_not_allowed, health, serve_http, build_response,
}
use homedns_analytics.App.{health_state}

status_ready : (b : Bool) → ◌≡◌ {A = String} (if b then "ok" else "not_ready") "ok" → b ≡ true
status_ready true h = refl
status_ready false h = ap (λ s. str_eq s "ok") h

module _ {F : Type 0} where
  serve_http-health :
      (s : State F) (now : ℕ) (path method : String) {r : Response F}
      → serve_http s now path method ≡ health r
      → build_response s now ≡ r
  unfolding serve_http
  serve_http-health s now path method h = ground arith

  -- A request to another path than /health is answered by 404, another method than GET by 405, and
  -- else the answer carries the state of the moment: readiness, the DNS listeners and the
  -- counters unchanged, and as uptime the whole seconds since the start. The uptime is 0 without a
  -- start time or before it, and the clock stays below 2 ^ 63 nanoseconds.
  pub serve_http_report :
      (s : State F) (now t : ℕ) (path method : String)
      → now < 2 ^ 63
      → (str_eq path "/health" ≡ false → serve_http s now path method ≡ not_found)
        × (str_eq path "/health" ≡ true
            → str_eq method "GET" ≡ false
            → serve_http s now path method ≡ method_not_allowed)
        × (str_eq path "/health" ≡ true
            → str_eq method "GET" ≡ true
            → (r : Response F) × (serve_http s now path method ≡ health r)
              × (r.ready ≡ s.ready)
              × (r.dns ≡ s.dns)
              × (r.metrics ≡ s.metrics)
              × (s.started_at ≡ none → r.uptime_seconds ≡ 0)
              × (s.started_at ≡ some t → now ≤ t → r.uptime_seconds ≡ 0)
              × (s.started_at ≡ some t
                  → t ≤ now
                  → (r.uptime_seconds * 1_000_000_000 ≤ now - t)
                    × (now - t < (r.uptime_seconds + 1) * 1_000_000_000)))
  unfolding serve_http build_response
  serve_http_report s now t path method h = (
    λ p. rw p refl,
    λ p m. rw (p, m) refl,
    λ p m. (
      build_response s now,
      rw (p, m) refl,
      refl,
      refl,
      refl,
      λ e. ground (arith, e),
      λ e l. ground (arith, e, l),
      λ e l. ground (arith, e, l, h),
    ),
  )

-- If GET /health reports the status ok, then the DNS server is started with both its listeners and
-- is not shutting down. This holds in every state that the server reaches while at most one caller
-- at a time shuts it down.
pub health_ok-IsRunning :
    {F : Type 0} {c : Dns.Config} {t : System} (ops : FloatOps F)
    (version commit build_time dns_address upstream_address : String) (started_at : Option ℕ)
    (registry : Registry) (now : ℕ) (path method : String) {r : Response F}
    → Reach c t
    → serve_http
        (health_state ops version commit build_time dns_address upstream_address started_at registry
          t.server)
        now
        path
        method
      ≡ health r
    → r.status ≡ "ok"
    → (n : ℕ) × IsRunning n t.server
unfolding health_state build_response Dns.is_ready
health_ok-IsRunning ops v c b d u at registry now path method reach h ok =
    let built = serve_http-health _ now path method h in
    ready-IsRunning reach (status_ready _ (ap (λ x. x.status) built ∙ ok))
