-- ===== src/App.antt =====
-- dns/internal/app/app.go: the program composed. `Run` starts the DNS server and then the health
-- server, waits, and stops them in the opposite order; a health server that does not start takes the
-- DNS server down again.
pub mod Ordering
pub mod Report
pub mod Create
pub mod Process
pub mod Options
pub mod Benchmark
pub mod Local
mod Samples
use homedns_analytics.Common.{
  ℕ, Bool, true, false, Option, none, some, List, [], ◌∷◌, ◌++◌, GoError, if◌then◌else◌,
}
use Prim.Native.String.{String}
use homedns_analytics.Float.{FloatOps, duration_milliseconds}
use homedns_analytics.Metrics.{Registry, snapshot}
use homedns_analytics.Health.Handler.{State}
use homedns_analytics.DnsServer.Lifecycle as Dns
use homedns_analytics.Health.Server as HealthServer

pub record App : Type 0 where
  pub dns : Dns.Server
  pub health : HealthServer.Server

-- What may happen while `Run` waits for the context: a DNS listener ends, or the health listener.
pub data Happening : Type 0 where
  dns_listener_ended health_listener_ended : Happening

-- The environment of one `Run`: the binds, what happens before the context ends, whether the
-- goroutine `serve` ends before or after the second section of `Shutdown`, and the results of the
-- three calls that shut a server down.
pub record Environment : Type 0 where
  pub binding : Dns.Binding
  pub listen : Option GoError
  pub happenings : List Happening
  pub serve_first : Bool
  pub health_shutdown : Option GoError
  pub udp_shutdown : Option GoError
  pub tcp_shutdown : Option GoError

pub data RunError : Type 0 where
  start_dns : Dns.StartError → RunError
  start_health : HealthServer.StartError → List Dns.ShutdownError → RunError
  shutdown_failed : Option GoError → List Dns.ShutdownError → RunError

-- The state, and all the states passed through, the present one included.
pub record Progression : Type 0 where
  pub app : App
  pub history : List App

abbrev pub enter : App → Progression → Progression
enter a p = record { app = a; history = p.history ++ (a ∷ []) }

-- The application that `New` composes; the health server is as `make_server` leaves it.
abbrev pub new_app : App
new_app = record { dns = Dns.new_server; health = HealthServer.new_server }

abbrev pub begin_at : App → Progression
begin_at a = record { app = a; history = a ∷ [] }

abbrev pub set_dns : Dns.Server → Progression → Progression
set_dns s p = enter (record p.app { dns = s }) p

abbrev pub set_health : HealthServer.Server → Progression → Progression
set_health s p = enter (record p.app { health = s }) p

-- `a.dnsServer.Shutdown`
unfoldable pub shutdown_dns : Progression → Progression
shutdown_dns p =
    let (s, servers) = Dns.shutdown_begin p.app.dns in
    let p' = set_dns s p in
    elim servers [ none ↦ p' | some pair ↦ set_dns (Dns.shutdown_end p'.app.dns) p' ]

abbrev failed_call : Option ℕ → Option GoError → Option GoError
failed_call none e = none
failed_call (some n) e = e

-- The error of that call, empty for nil.
unfoldable pub shutdown_dns_errors : Environment → Dns.Server → List Dns.ShutdownError
shutdown_dns_errors env s = elim (Dns.shutdown_begin s).1 [
  | none ↦ []
  | some (udp, tcp) ↦
      Dns.wrap_shutdown_error Dns.udp_failed (failed_call udp env.udp_shutdown)
      ++ Dns.wrap_shutdown_error Dns.tcp_failed (failed_call tcp env.tcp_shutdown)
]

-- `a.healthServer.Shutdown` once the health server `n` is shut down.
unfoldable pub end_health : Bool → ℕ → Progression → Progression
end_health serve_first n p =
    let p' = if serve_first then set_health (HealthServer.serve_end n p.app.health) p else p in
    set_health (HealthServer.shutdown_end n p'.app.health) p'

-- `a.healthServer.Shutdown`
unfoldable pub shutdown_health : Bool → Progression → Progression
unfolding end_health
shutdown_health serve_first p =
    let (s, server) = HealthServer.shutdown_begin p.app.health in
    let p' = set_health s p in elim server [ none ↦ p' | some n ↦ end_health serve_first n p' ]

unfoldable pub shutdown_health_error : Environment → HealthServer.Server → Option GoError
shutdown_health_error env s = elim (HealthServer.shutdown_begin s).1 [
  | none ↦ none
  | some n ↦ env.health_shutdown
]

-- The sections of the goroutines; `n` is the health server that `Run` has started.
unfoldable pub happen : ℕ → List Happening → Progression → Progression
happen n [] p = p
happen n (dns_listener_ended ∷ hs) p = happen n hs (set_dns (Dns.observe_listener p.app.dns) p)
happen n (health_listener_ended ∷ hs) p =
    happen n hs (set_health (HealthServer.serve_end n p.app.health) p)

-- `shutdown`
unfoldable pub shutdown : Bool → Progression → Progression
shutdown serve_first p = shutdown_dns (shutdown_health serve_first p)

unfoldable pub shutdown_error : Environment → App → Option RunError
shutdown_error env a = elim (shutdown_health_error env a.health) [
  | some e ↦ some (shutdown_failed (some e) (shutdown_dns_errors env a.dns))
  | none ↦ elim (shutdown_dns_errors env a.dns) [
    | [] ↦ none
    | e ∷ es ↦ some (shutdown_failed none (e ∷ es))
  ]
]

-- `Run` once the DNS server is started.
unfoldable pub run_health : ℕ → Environment → Progression → Progression × Option RunError
run_health n env p =
    let (s, e) = HealthServer.start env.listen n p.app.health in
    let p' = set_health s p in
    elim e [
      | some e ↦ (shutdown_dns p', some (start_health e (shutdown_dns_errors env p'.app.dns)))
      | none ↦
          let p'' = happen n env.happenings p' in
          (shutdown env.serve_first p'', shutdown_error env p''.app)
    ]

-- `Run`, on an application with its servers; `n` names what is started.
unfoldable pub run : Dns.Config → ℕ → Environment → App → Progression × Option RunError
run c n env a =
    let r = Dns.start c n env.binding a.dns in
    let p = set_dns r.server (begin_at a) in
    elim r.error [ some e ↦ (p, some (start_dns e)) | none ↦ run_health n env p ]

-- `healthState`, from the registry, the DNS server and what is fixed.
module _ {F : Type 0} (ops : FloatOps F) where
  unfoldable pub health_state :
      (version commit build_time dns_address upstream_address : String) (started_at : Option ℕ)
      → Registry
      → Dns.Server
      → State F
  health_state version commit build_time dns_address upstream_address started_at registry server =
      let s = snapshot registry in
      let dns_ready = Dns.is_ready (some server) in
      record {
        ready = dns_ready;
        version = version;
        commit = commit;
        build_time = build_time;
        started_at = started_at;
        dns = record {
          udp_listening = dns_ready;
          tcp_listening = dns_ready;
          listen_address = dns_address;
        };
        upstream_address = upstream_address;
        metrics = record {
          requests_total = s.requests_total;
          requests_udp = s.requests_udp;
          requests_tcp = s.requests_tcp;
          responses_no_error = s.responses_no_error;
          responses_nxdomain = s.responses_nxdomain;
          responses_servfail = s.responses_servfail;
          responses_other = s.responses_other;
          upstream_timeouts = s.upstream_timeouts;
          upstream_errors = s.upstream_errors;
          invalid_requests = s.invalid_requests;
          response_write_errors = s.response_write_errors;
          handler_panics = s.handler_panics;
          average_upstream_latency_milliseconds =
              duration_milliseconds ops s.average_upstream_latency;
        };
      }
