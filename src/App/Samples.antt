-- ===== src/App/Samples.antt =====
-- The program at concrete environments.
use homedns_analytics.Common.{ℕ, ◌≡◌, ◌↔◌, refl, true, false, none, some, [], ◌∷◌, arith, GoError}
use homedns_analytics.Float.{natural_ops}
use homedns_analytics.Metrics.{empty}
use homedns_analytics.DnsServer.Lifecycle as Dns
use homedns_analytics.DnsServer.Lifecycle.Startup.{IsIdle, IsRunning, CanStart}
use homedns_analytics.DnsServer.Lifecycle.Interleaving as Interleaving
use homedns_analytics.Health.Server as HealthServer
use homedns_analytics.Health.Handler.{State, serve_http, build_response}
use homedns_analytics.App.{
  Environment, new_app, run, dns_listener_ended, start_health, health_state,
}
use homedns_analytics.App.Ordering.{IsDown, IsStopped, run-IsStopped, run_iff}
use homedns_analytics.App.Report.{health_ok-IsRunning}

abbrev usual : Dns.Config
usual = record { address_blank = false; has_handler = true }

abbrev good : Dns.Binding
good = record {
  udp_bind = none;
  tcp_bind = none;
  udp_startup = Dns.confirmed;
  tcp_startup = Dns.confirmed;
  udp_close = none;
  tcp_close = none;
}

abbrev taken : GoError
taken = record { deadline_exceeded = false; canceled = false; net_error = some false }

abbrev quiet : Environment
quiet = record {
  binding = good;
  listen = none;
  happenings = [];
  serve_first = true;
  health_shutdown = none;
  udp_shutdown = none;
  tcp_shutdown = none;
}

abbrev busy : Environment
busy = record quiet { happenings = dns_listener_ended ∷ []; udp_shutdown = some taken }

new_dns-IsIdle : IsIdle new_app.dns
new_dns-IsIdle = ground arith

new_health-IsDown : IsDown new_app.health
new_health-IsDown = ground arith

run-IsStopped_example : IsStopped (run usual 0 busy new_app).0
run-IsStopped_example = run-IsStopped usual 0 busy new_app new_dns-IsIdle new_health-IsDown

run_iff_example :
    (((run usual 0 quiet new_app).1 ≡ none) ↔ (CanStart usual good × (quiet.listen ≡ none)))
    × ((e : GoError)
        → CanStart usual good
        → quiet.listen ≡ some e
        → (run usual 0 quiet new_app).1 ≡ some (start_health (HealthServer.listen_failed e) []))
run_iff_example =
    run_iff usual 0 quiet new_app new_dns-IsIdle new_health-IsDown
      (record { happenings = refl; health = refl; udp = refl; tcp = refl })

abbrev started : Interleaving.System
started = record {
  server = (Dns.start usual 0 good Dns.new_server).server;
  pending = 0;
  observing = false;
  next = 1;
}

started-Reach : Interleaving.Reach usual started
started-Reach = Interleaving.later Interleaving.here (Interleaving.starts good)

abbrev state : State ℕ
unfolding health_state
state =
    health_state natural_ops "1.0" "abc" "today" "127.0.0.1:5353" "192.168.1.1:53" (some 5) empty
      started.server

health_ok-IsRunning_example : (n : ℕ) × IsRunning n started.server
unfolding health_state serve_http build_response Dns.start Dns.is_ready
health_ok-IsRunning_example =
    health_ok-IsRunning natural_ops "1.0" "abc" "today" "127.0.0.1:5353" "192.168.1.1:53" (some 5)
      empty 9_000_000_000 "/health" "GET" started-Reach refl refl
