-- ===== src/DnsServer/Lifecycle/Startup.antt =====
-- dns/internal/dnsserver/server.go: what `Start` leaves behind, on every branch.
use homedns_analytics.Common.{
  ℕ, ◌≡◌, true, false, none, some, arith, ◌↔◌, List, [], ◌++◌, is_some, if◌then◌else◌,
}
use homedns_analytics.DnsServer.Lifecycle.{
  Server, Config, Binding, confirmed, StartError, start, Started, CloseFailure, log_close,
  udp_not_closed, tcp_not_closed,
}

-- A server that is not started has no servers, and is neither ready nor shutting down.
pub record IsIdle (s : Server) : Type 0 where
  pub not_ready : s.ready ≡ false
  pub not_started : s.started ≡ false
  pub not_shutting_down : s.shutting_down ≡ false
  pub no_udp : s.udp_server ≡ none
  pub no_tcp : s.tcp_server ≡ none

-- Both listeners serve.
pub record IsRunning (n : ℕ) (s : Server) : Type 0 where
  pub ready : s.ready ≡ true
  pub started : s.started ≡ true
  pub not_shutting_down : s.shutting_down ≡ false
  pub udp : s.udp_server ≡ some n
  pub tcp : s.tcp_server ≡ some n

-- The failures of `Close` that go with the sockets that stay open.
abbrev pub failures_of : Binding → Started → List CloseFailure
unfolding log_close
failures_of b r =
    (if r.udp_open then log_close udp_not_closed b.udp_close else [])
    ++ (if r.tcp_open then log_close tcp_not_closed b.tcp_close else [])

-- A start that fails leaves an idle server as it was, whichever of the checks, the binds and the
-- listeners fails. It closes every socket that it opened: one is left open only if its `Close` fails,
-- and it logs just these failures.
pub start_failure :
    (c : Config) (n : ℕ) (b : Binding) (s : Server) {e : StartError}
    → (start c n b s).error ≡ some e
    → let r = start c n b s in
      (r.udp_open ≡ true → is_some b.udp_close ≡ true)
      × (r.tcp_open ≡ true → is_some b.tcp_close ≡ true)
      × (r.logged ≡ failures_of b r)
      × (IsIdle s → r.server ≡ s)
unfolding start log_close
start_failure c n b s h = (λ o. ground arith, λ o. ground arith, ground arith, λ i. ground arith)

-- What `Start` needs of its configuration and of the network.
pub record CanStart (c : Config) (b : Binding) : Type 0 where
  pub address : c.address_blank ≡ false
  pub handler : c.has_handler ≡ true
  pub udp_bound : b.udp_bind ≡ none
  pub tcp_bound : b.tcp_bind ≡ none
  pub udp_confirmed : b.udp_startup ≡ confirmed
  pub tcp_confirmed : b.tcp_startup ≡ confirmed

-- An idle server starts without an error exactly if it has an address and a handler, both binds
-- succeed and both listeners confirm.
pub start_iff :
    (c : Config) (n : ℕ) (b : Binding) (s : Server)
    → IsIdle s
    → ((start c n b s).error ≡ none) ↔ CanStart c b
unfolding start
start_iff c n b s i = (λ h. ground arith, λ h. ground arith)

-- A start that returns no error leaves the server ready and started on the new UDP and TCP listeners,
-- with both sockets open.
pub start_success :
    (c : Config) (n : ℕ) (b : Binding) (s : Server)
    → (start c n b s).error ≡ none
    → IsRunning n (start c n b s).server
      × ((start c n b s).udp_open ≡ true)
      × ((start c n b s).tcp_open ≡ true)
unfolding start
start_success c n b s h = ground arith
