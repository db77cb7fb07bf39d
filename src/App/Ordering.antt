-- ===== src/App/Ordering.antt =====
-- dns/internal/app/app.go: the order in which `Run` starts and stops the two servers.
use homedns_analytics.Common.{
  ℕ, ◌≡◌, ◌↔◌, Bool, true, false, Option, none, some, List, [], ◌∷◌, arith, GoError, All,
  All-append, ◌∙◌, Option-cases, inl, inr,
}
use homedns_analytics.DnsServer.Lifecycle as Dns
use homedns_analytics.DnsServer.Lifecycle.Startup.{IsIdle, CanStart, start_failure, start_success}
use homedns_analytics.Health.Server as HealthServer
use homedns_analytics.App.{
  App, Environment, Happening, dns_listener_ended, health_listener_ended, Progression, set_dns,
  set_health, begin_at, shutdown_dns, shutdown_health, end_health, happen, shutdown, run_health,
  run, shutdown_error, shutdown_health_error, start_health, shutdown_dns_errors,
}

-- Where the health server answers as ready to serve, the DNS server is started and not being shut
-- down.
abbrev pub IsCovered : App → Type 0
IsCovered a = a.health.ready ≡ true → (a.dns.started ≡ true) × (a.dns.shutting_down ≡ false)

-- The health server is not running.
pub record IsDown (s : HealthServer.Server) : Type 0 where
  pub no_server : s.http_server ≡ none
  pub no_listener : s.listener ≡ none
  pub not_ready : s.ready ≡ false

record IsUp (p : Progression) : Type 0 where
  started : p.app.dns.started ≡ true
  serving : p.app.dns.shutting_down ≡ false
  history : All IsCovered p.history

set_dns-IsCovered :
    (s : Dns.Server) (p : Progression)
    → All IsCovered p.history
    → IsCovered (set_dns s p).app
    → All IsCovered (set_dns s p).history
set_dns-IsCovered s p h c = All-append IsCovered p.history _ h (c, tt)

set_health-IsCovered :
    (s : HealthServer.Server) (p : Progression)
    → All IsCovered p.history
    → IsCovered (set_health s p).app
    → All IsCovered (set_health s p).history
set_health-IsCovered s p h c = All-append IsCovered p.history _ h (c, tt)

observe_listener-kept :
    (s : Dns.Server)
    → ((Dns.observe_listener s).started ≡ s.started)
      × ((Dns.observe_listener s).shutting_down ≡ s.shutting_down)
unfolding Dns.observe_listener
observe_listener-kept s = ground arith

set_health-IsUp : (s : HealthServer.Server) (p : Progression) → IsUp p → IsUp (set_health s p)
set_health-IsUp s p v = record {
  started = v.started;
  serving = v.serving;
  history = set_health-IsCovered s p v.history (λ r. (v.started, v.serving));
}

set_dns-IsUp :
    (s : Dns.Server) (p : Progression)
    → s.started ≡ true
    → s.shutting_down ≡ false
    → IsUp p
    → IsUp (set_dns s p)
set_dns-IsUp s p a b v = record {
  started = a;
  serving = b;
  history = set_dns-IsCovered s p v.history (λ r. (a, b));
}

happen-IsUp : (n : ℕ) (hs : List Happening) (p : Progression) → IsUp p → IsUp (happen n hs p)
unfolding happen
happen-IsUp n [] p v = v
happen-IsUp n (dns_listener_ended ∷ hs) p v =
    let (a, b) = observe_listener-kept p.app.dns in
    happen-IsUp n hs _
      (set_dns-IsUp (Dns.observe_listener p.app.dns) p (a ∙ v.started) (b ∙ v.serving) v)
happen-IsUp n (health_listener_ended ∷ hs) p v =
    happen-IsUp n hs _ (set_health-IsUp (HealthServer.serve_end n p.app.health) p v)

end_health-IsUp : (first : Bool) (n : ℕ) (p : Progression) → IsUp p → IsUp (end_health first n p)
unfolding end_health
end_health-IsUp true n p v = set_health-IsUp _ _ (set_health-IsUp _ p v)
end_health-IsUp false n p v = set_health-IsUp _ p v

shutdown_health-IsUp : (first : Bool) (p : Progression) → IsUp p → IsUp (shutdown_health first p)
unfolding shutdown_health
shutdown_health-IsUp first p v =
    let begun = set_health-IsUp (HealthServer.shutdown_begin p.app.health).0 p v in
    elim (Option-cases (HealthServer.shutdown_begin p.app.health).1) [
      | inl e ↦ rw (e, shutdown_health) begun
      | inr (n, e) ↦ rw (e, shutdown_health) (end_health-IsUp first n _ begun)
    ]

shutdown_health-IsDown :
    (first : Bool) (p : Progression) → IsDown (shutdown_health first p).app.health
unfolding shutdown_health HealthServer.shutdown_begin HealthServer.shutdown_end
    HealthServer.serve_end
shutdown_health-IsDown first p = ground arith

shutdown_health-dns :
    (first : Bool) (p : Progression) → (shutdown_health first p).app.dns ≡ p.app.dns
unfolding shutdown_health
shutdown_health-dns first p = ground arith

shutdown_dns-health : (p : Progression) → (shutdown_dns p).app.health ≡ p.app.health
unfolding shutdown_dns
shutdown_dns-health p = ground arith

shutdown_dns-IsIdle : (p : Progression) → p.app.dns.started ≡ true → IsIdle (shutdown_dns p).app.dns
unfolding shutdown_dns Dns.shutdown_begin Dns.shutdown_end
shutdown_dns-IsIdle p h = ground arith

shutdown_dns-IsCovered :
    (p : Progression)
    → All IsCovered p.history
    → p.app.health.ready ≡ false
    → All IsCovered (shutdown_dns p).history
unfolding shutdown_dns
shutdown_dns-IsCovered p h r =
    let begun =
      set_dns-IsCovered (Dns.shutdown_begin p.app.dns).0 p h (λ k. ground (arith, r, k)) in
    elim (Option-cases (Dns.shutdown_begin p.app.dns).1) [
      | inl e ↦ rw (e, shutdown_dns) begun
      | inr (pair, e) ↦
          let p' = set_dns (Dns.shutdown_begin p.app.dns).0 p in
          rw (e, shutdown_dns)
            (set_dns-IsCovered (Dns.shutdown_end p'.app.dns) p' begun (λ k. ground (arith, r, k)))
    ]

-- How `Run` ends.
pub record IsStopped (p : Progression) : Type 0 where
  pub dns : IsIdle p.app.dns
  pub health : IsDown p.app.health
  pub covered : All IsCovered p.history

shutdown-IsStopped : (first : Bool) (p : Progression) → IsUp p → IsStopped (shutdown first p)
unfolding shutdown
shutdown-IsStopped first p v =
    let half = shutdown_health first p in
    let up = shutdown_health-IsUp first p v in
    let down = shutdown_health-IsDown first p in
    record {
      dns = shutdown_dns-IsIdle half up.started;
      health = rw (shutdown_dns-health half) down;
      covered = shutdown_dns-IsCovered half up.history down.not_ready;
    }

start_failed-IsDown :
    (listen : Option GoError) (n : ℕ) (s : HealthServer.Server) {e : HealthServer.StartError}
    → IsDown s
    → (HealthServer.start listen n s).1 ≡ some e
    → IsDown (HealthServer.start listen n s).0
unfolding HealthServer.start
start_failed-IsDown listen n s d h = ground (arith, d, h)

run_health-IsStopped :
    (n : ℕ) (env : Environment) (p : Progression)
    → IsUp p
    → IsDown p.app.health
    → IsStopped (run_health n env p).0
unfolding run_health
run_health-IsStopped n env p v d =
    let tried = set_health-IsUp (HealthServer.start env.listen n p.app.health).0 p v in
    elim (Option-cases (HealthServer.start env.listen n p.app.health).1) [
      | inl e ↦
          rw (e, run_health)
            (shutdown-IsStopped env.serve_first _ (happen-IsUp n env.happenings _ tried))
      | inr (err, e) ↦
          let down = start_failed-IsDown env.listen n p.app.health d e in
          rw (e, run_health)
            (record {
              dns = shutdown_dns-IsIdle _ tried.started;
              health = rw (shutdown_dns-health _) down;
              covered = shutdown_dns-IsCovered _ tried.history down.not_ready;
            })
    ]

-- `Run` of an application whose servers are down leaves them down again, whatever the binds, the
-- listeners and the three shutdown calls do and whichever listener ends in between: it can be run
-- again. In every state on the way, if the health server is ready then the DNS server is
-- started and not being shut down.
pub run-IsStopped :
    (c : Dns.Config) (n : ℕ) (env : Environment) (a : App)
    → IsIdle a.dns
    → IsDown a.health
    → IsStopped (run c n env a).0
unfolding run
run-IsStopped c n env a i d = elim (Option-cases (Dns.start c n env.binding a.dns).error) [
  | inl e ↦
      let (up, udp, tcp) = start_success c n env.binding a.dns e in
      let p = set_dns (Dns.start c n env.binding a.dns).server (begin_at a) in
      rw (e, run)
        (run_health-IsStopped n env p
          (record {
            started = up.started;
            serving = up.not_shutting_down;
            history = (
              λ k. ground (arith, d.not_ready, k),
              (λ k. (up.started, up.not_shutting_down), tt),
            );
          })
          d)
  | inr (err, e) ↦
      let (udp, tcp, logged, idle_same) = start_failure c n env.binding a.dns e in
      let same = idle_same i in
      rw (e, run)
        (record {
          dns = rw same i;
          health = d;
          covered =
              (λ k. ground (arith, d.not_ready, k), (λ k. ground (arith, d.not_ready, k), tt));
        })
]

-- A quiet run: nothing happens before the context ends, and the three calls return no error.
pub record IsQuiet (env : Environment) : Type 0 where
  pub happenings : env.happenings ≡ []
  pub health : env.health_shutdown ≡ none
  pub udp : env.udp_shutdown ≡ none
  pub tcp : env.tcp_shutdown ≡ none

-- With quiet surroundings `Run` returns no error exactly if the DNS server can start and the health
-- address can be bound; if only the health server fails, the error is that of the health server.
pub run_iff :
    (c : Dns.Config) (n : ℕ) (env : Environment) (a : App)
    → IsIdle a.dns
    → IsDown a.health
    → IsQuiet env
    → (((run c n env a).1 ≡ none) ↔ (CanStart c env.binding × (env.listen ≡ none)))
      × ((e : GoError)
          → CanStart c env.binding
          → env.listen ≡ some e
          → (run c n env a).1 ≡ some (start_health (HealthServer.listen_failed e) []))
unfolding run run_health shutdown_error shutdown_health_error shutdown_dns_errors happen Dns.start
    HealthServer.start HealthServer.shutdown_begin Dns.shutdown_begin Dns.wrap_shutdown_error
run_iff c n env a i d q =
    ((λ h. ground (arith, i, d, q), λ h. ground (arith, i, d, q)), λ e k h. ground (arith, i, d, q))
