-- ===== src/DnsServer/Lifecycle.antt =====
-- dns/internal/dnsserver/server.go: the life of the UDP and the TCP listener of the DNS server.
-- `Start` holds the mutex from end to end, and so is one function of the server's state. `Shutdown`
-- and the observers give the mutex up, and are cut into the sections that hold it. What the sockets
-- and the miekg/dns servers do is an argument. A listener pair is named by a number.
pub mod Startup
pub mod Interleaving
mod Samples
use homedns_analytics.Common.{
  ℕ, Bool, true, false, Option, none, some, List, [], ◌∷◌, GoError, if◌then◌else◌, ◌||◌, ◌&&◌, not,
  is_some, ◌++◌,
}

-- The fields of `Server` that change.
pub record Server : Type 0 where
  pub ready : Bool
  pub started : Bool
  pub shutting_down : Bool
  pub udp_server : Option ℕ
  pub tcp_server : Option ℕ

-- `NewServer`: the address, whether it is blank, and whether there is a handler, are fixed.
pub record Config : Type 0 where
  pub address_blank : Bool
  pub has_handler : Bool

abbrev pub new_server : Server
new_server = record {
  ready = false;
  started = false;
  shutting_down = false;
  udp_server = none;
  tcp_server = none;
}

-- `Ready`; `none` is the nil server.
unfoldable pub is_ready : Option Server → Bool
is_ready none = false
is_ready (some s) = s.ready

-- What reaches `waitForListenerStartup` first: the start is confirmed, or the listener is done.
pub data FirstSignal : Type 0 where
  confirmed : FirstSignal
  finished : Option GoError → FirstSignal

-- The environment of one `Start`: the results of the two binds, then of the two servers, and what
-- `Close` of the two sockets returns if it is called.
pub record Binding : Type 0 where
  pub udp_bind : Option GoError
  pub tcp_bind : Option GoError
  pub udp_startup : FirstSignal
  pub tcp_startup : FirstSignal
  pub udp_close : Option GoError
  pub tcp_close : Option GoError

pub data StartError : Type 0 where
  nil_server already_started missing_address missing_handler : StartError
  open_udp open_tcp : GoError → StartError
  udp_stopped tcp_stopped : Option GoError → StartError

-- A failing `Close`, as it is logged.
pub data CloseFailure : Type 0 where
  udp_not_closed tcp_not_closed : GoError → CloseFailure

unfoldable pub log_close : (GoError → CloseFailure) → Option GoError → List CloseFailure
log_close report none = []
log_close report (some e) = report e ∷ []

-- The state after `Start`, its error, the failures of `Close` that it logged, and which of the sockets
-- that it opened are still open: a socket whose `Close` fails counts as open.
pub record Started : Type 0 where
  pub server : Server
  pub error : Option StartError
  pub udp_open : Bool
  pub tcp_open : Bool
  pub logged : List CloseFailure

unfoldable pub wait_for_listener_startup :
    (Option GoError → StartError) → FirstSignal → Option StartError
wait_for_listener_startup wrap confirmed = none
wait_for_listener_startup wrap (finished e) = some (wrap e)

-- `rollbackStartup` resets the state and closes both sockets, even if the first `Close` fails.
unfoldable pub rollback_startup : Binding → Server → StartError → Started
unfolding log_close
rollback_startup b s e = record {
  server = record s {
    ready = false;
    started = false;
    shutting_down = false;
    udp_server = none;
    tcp_server = none;
  };
  error = some e;
  udp_open = is_some b.udp_close;
  tcp_open = is_some b.tcp_close;
  logged = log_close udp_not_closed b.udp_close ++ log_close tcp_not_closed b.tcp_close;
}

-- `Start` with both sockets open.
unfoldable pub serve_both : ℕ → Binding → Server → Started
unfolding wait_for_listener_startup rollback_startup
serve_both n b s =
    let s' : Server = record s { udp_server = some n; tcp_server = some n } in
    elim (wait_for_listener_startup udp_stopped b.udp_startup) [
      | some e ↦ rollback_startup b s' e
      | none ↦ elim (wait_for_listener_startup tcp_stopped b.tcp_startup) [
        | some e ↦ rollback_startup b s' e
        | none ↦ record {
          server = record s' { started = true; ready = true };
          error = none;
          udp_open = true;
          tcp_open = true;
          logged = [];
        }
      ]
    ]

abbrev pub refused : Server → StartError → Started
refused s e = record { server = s; error = some e; udp_open = false; tcp_open = false; logged = [] }

-- `Start` from the binds on. A TCP listener that does not open closes the UDP socket.
unfoldable pub open_both : ℕ → Binding → Server → Started
unfolding serve_both log_close
open_both n b s = elim b.udp_bind [
  | some e ↦ refused s (open_udp e)
  | none ↦ elim b.tcp_bind [
    | some e ↦ record (refused s (open_tcp e)) {
      udp_open = is_some b.udp_close;
      logged = log_close udp_not_closed b.udp_close;
    }
    | none ↦ serve_both n b s
  ]
]

-- `Start`, with `n` for the pair of servers that it makes.
unfoldable pub start : Config → ℕ → Binding → Server → Started
unfolding open_both
start c n b s =
    if s.started || s.shutting_down
    then refused s already_started
    else if c.address_blank
    then refused s missing_address
    else if c.has_handler
    then open_both n b s
    else refused s missing_handler

-- The first section of `Shutdown`: `none` if it returns at once, else the servers to stop.
unfoldable pub shutdown_begin : Server → Server × Option (Option ℕ × Option ℕ)
shutdown_begin s =
    if s.started
    then (record s { ready = false; shutting_down = true }, some (s.udp_server, s.tcp_server))
    else (record s { ready = false }, none)

-- The last section, after the two calls of `ShutdownContext`.
unfoldable pub shutdown_end : Server → Server
shutdown_end s = record s {
  started = false;
  shutting_down = false;
  udp_server = none;
  tcp_server = none;
}

-- The error that `Shutdown` returns: those of the two calls, joined, each with its network.
pub data ShutdownError : Type 0 where
  udp_failed tcp_failed : GoError → ShutdownError

unfoldable pub wrap_shutdown_error : (GoError → ShutdownError) → Option GoError → List ShutdownError
wrap_shutdown_error wrap none = []
wrap_shutdown_error wrap (some e) = wrap e ∷ []

-- The section of `observeListener`, once its listener is done: whether it goes on.
unfoldable pub observe_section : Server → Bool
observe_section s = s.started && not s.shutting_down

-- What it does then, without the mutex: `ready.Store(false)`.
unfoldable pub clear_ready : Server → Server
clear_ready s = record s { ready = false }

-- An observer that nobody interrupts.
unfoldable pub observe_listener : Server → Server
unfolding observe_section clear_ready
observe_listener s = if observe_section s then clear_ready s else s
