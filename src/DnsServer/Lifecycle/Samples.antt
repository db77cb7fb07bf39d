-- ===== src/DnsServer/Lifecycle/Samples.antt =====
-- The life of the DNS server at concrete environments.
use homedns_analytics.Common.{ℕ, ◌≡◌, refl, true, false, none, some, arith, is_some, GoError}
use homedns_analytics.DnsServer.Lifecycle.{
  Server, Config, Binding, confirmed, finished, tcp_stopped, new_server, start, shutdown_begin,
  shutdown_end, observe_listener,
}
use homedns_analytics.DnsServer.Lifecycle.Startup.{IsIdle, IsRunning, start_failure, failures_of}
use homedns_analytics.DnsServer.Lifecycle.Interleaving.{
  System, Reach, here, later, starts, ready-IsRunning, overlapping_shutdowns, late_observer,
}

abbrev usual : Config
usual = record { address_blank = false; has_handler = true }

abbrev good : Binding
good = record {
  udp_bind = none;
  tcp_bind = none;
  udp_startup = confirmed;
  tcp_startup = confirmed;
  udp_close = none;
  tcp_close = none;
}

abbrev busy : GoError
busy = record { deadline_exceeded = false; canceled = false; net_error = none }

abbrev half_good : Binding
half_good = record good { tcp_startup = finished none; tcp_close = some busy }

abbrev running : Server
running = record {
  ready = true;
  started = true;
  shutting_down = false;
  udp_server = some 0;
  tcp_server = some 0;
}

start_failure_example :
    let r = start usual 0 half_good new_server in
    (r.udp_open ≡ true → is_some half_good.udp_close ≡ true)
    × (r.tcp_open ≡ true → is_some half_good.tcp_close ≡ true)
    × (r.logged ≡ failures_of half_good r)
    × (IsIdle new_server → r.server ≡ new_server)
unfolding start
start_failure_example = start_failure usual 0 half_good new_server {e = tcp_stopped none} refl

abbrev after_start : System
after_start = record {
  server = (start usual 0 good new_server).server;
  pending = 0;
  observing = false;
  next = 1;
}

one_start : Reach usual after_start
one_start = later here (starts good)

ready-IsRunning_example : (n : ℕ) × IsRunning n after_start.server
unfolding start
ready-IsRunning_example = ready-IsRunning one_start refl

overlapping_shutdowns_example :
    let second = shutdown_begin (shutdown_begin running).0 in
    let restarted = start usual 1 good (shutdown_end second.0) in
    let lost = shutdown_end restarted.server in
    (second.1 ≡ some (some 0, some 0))
    × (restarted.error ≡ none)
    × (restarted.udp_open ≡ true)
    × (restarted.tcp_open ≡ true)
    × (lost.ready ≡ true)
    × (lost.udp_server ≡ none)
    × ((shutdown_begin lost).1 ≡ none)
overlapping_shutdowns_example =
    overlapping_shutdowns usual 0 1 good running (ground arith) (ground arith)

late_observer_example :
    let restarted = start usual 1 good (shutdown_end (shutdown_begin running).0) in
    let observed = observe_listener restarted.server in
    (restarted.error ≡ none)
    × (restarted.udp_open ≡ true)
    × (restarted.tcp_open ≡ true)
    × (observed.ready ≡ false)
    × (observed.started ≡ true)
    × (observed.udp_server ≡ some 1)
late_observer_example = late_observer usual 0 1 good running (ground arith) (ground arith)
