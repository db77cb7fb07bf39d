-- ===== src/DnsServer/Lifecycle/Interleaving.antt =====
-- dns/internal/dnsserver/server.go under concurrent callers: `Start`, the sections of `Shutdown` and
-- the observers of the listeners, in any order.
use homedns_analytics.Common.{
  ℕ, ◌+◌, ◌≤◌, ◌≡◌, refl, Bool, true, false, ◌||◌, Option, none, some, arith, if◌then◌else◌,
  is_some,
}
use homedns_analytics.DnsServer.Lifecycle.{
  Server, Config, Binding, new_server, start, shutdown_begin, shutdown_end, observe_listener,
  observe_section, clear_ready,
}
use homedns_analytics.DnsServer.Lifecycle.Startup.{IsRunning, CanStart, IsIdle}

-- `pending` is the number of `Shutdown` calls between their two sections; `observing`: an observer has
-- left its section and may still clear the readiness; `next` names the next pair of servers.
pub record System : Type 0 where
  pub server : Server
  pub pending : ℕ
  pub observing : Bool
  pub next : ℕ

-- One caller at a time shuts down; observers run whenever they like, also late, and clear the readiness
-- at any time after their section, as often as there are observers.
pub data Step (c : Config) (t : System) : System → Type 0 where
  starts :
      (b : Binding)
      → Step c t (record t { server = (start c t.next b t.server).server; next = t.next + 1 })
  begins :
      t.pending ≡ 0
      → Step c t (record t {
        server = (shutdown_begin t.server).0;
        pending = if is_some (shutdown_begin t.server).1 then 1 else 0;
      })
  ends : t.pending ≡ 1 → Step c t (record t { server = shutdown_end t.server; pending = 0 })
  observes : Step c t (record t { observing = observe_section t.server || t.observing })
  clears : t.observing ≡ true → Step c t (record t { server = clear_ready t.server })

abbrev pub initial : System
initial = record { server = new_server; pending = 0; observing = false; next = 0 }

pub data Reach (c : Config) : System → Type 0 where
  here : Reach c initial
  later : {t u : System} → Reach c t → Step c t u → Reach c u

-- What holds between two steps.
record Inv (t : System) : Type 0 where
  one_pending : t.pending ≤ 1
  flagged : t.pending ≡ 1 → t.server.shutting_down ≡ true
  unflagged : t.pending ≡ 0 → t.server.shutting_down ≡ false
  stopping : t.server.shutting_down ≡ true → t.server.started ≡ true
  closing : t.server.shutting_down ≡ true → t.server.ready ≡ false
  ready : t.server.ready ≡ true → t.server.started ≡ true
  idle : t.server.started ≡ false → t.server.udp_server ≡ none
  paired : t.server.udp_server ≡ t.server.tcp_server
  serving : t.server.started ≡ true → is_some t.server.udp_server ≡ true

initial-Inv : Inv initial
initial-Inv = ground arith

Step-Inv : {c : Config} {t u : System} → Step c t u → Inv t → Inv u
unfolding start shutdown_begin shutdown_end clear_ready
Step-Inv (starts b) v = ground arith
Step-Inv (begins p) v = ground arith
Step-Inv (ends p) v = ground arith
Step-Inv observes v = record {
  one_pending = v.one_pending;
  flagged = v.flagged;
  unflagged = v.unflagged;
  stopping = v.stopping;
  closing = v.closing;
  ready = v.ready;
  idle = v.idle;
  paired = v.paired;
  serving = v.serving;
}
Step-Inv (clears o) v = ground arith

Reach-Inv : {c : Config} {t : System} → Reach c t → Inv t
Reach-Inv here = initial-Inv
Reach-Inv (later r st) = Step-Inv st (Reach-Inv r)

-- While only one caller at a time shuts down, a server that reports itself ready is started, is not
-- shutting down, and has both its listeners, of one pair.
pub ready-IsRunning :
    {c : Config} {t : System} → Reach c t → t.server.ready ≡ true → (n : ℕ) × IsRunning n t.server
ready-IsRunning {t} r h = pair (Reach-Inv r) h t.server.udp_server refl
  where
    pair :
        Inv t
        → t.server.ready ≡ true
        → (o : Option ℕ) → t.server.udp_server ≡ o
        → (n : ℕ) × IsRunning n t.server
    pair v h none e = absurd (ground (arith, v.serving (v.ready h)))
    pair v h (some n) e = (n, ground (arith, v.ready h, v.paired, v.closing))

-- A `Shutdown` that nobody interrupts leaves a reachable server idle, so that it can be started
-- again.
pub shutdown-IsIdle :
    {c : Config} {t : System}
    → Reach c t
    → t.pending ≡ 0
    → IsIdle (elim (shutdown_begin t.server).1 as (λ _. Server) [
      | none ↦ (shutdown_begin t.server).0
      | some pair ↦ shutdown_end (shutdown_begin t.server).0
    ])
unfolding shutdown_begin shutdown_end
shutdown-IsIdle r p = ground (arith, Reach-Inv r)

-- Two calls of `Shutdown` overlap, and between their last sections the server is started again: the
-- second call forgets the new listeners. The server then reports itself ready while both sockets
-- are open, but counts as not started, so that a further `Shutdown` stops nothing.
pub overlapping_shutdowns :
    (c : Config) (m n : ℕ) (b : Binding) (s : Server)
    → IsRunning m s
    → CanStart c b
    → let first = shutdown_begin s in
      let second = shutdown_begin first.0 in
      let restarted = start c n b (shutdown_end second.0) in
      let lost = shutdown_end restarted.server in
      (second.1 ≡ some (some m, some m))
      × (restarted.error ≡ none)
      × (restarted.udp_open ≡ true)
      × (restarted.tcp_open ≡ true)
      × (lost.ready ≡ true)
      × (lost.udp_server ≡ none)
      × ((shutdown_begin lost).1 ≡ none)
unfolding shutdown_begin shutdown_end start
overlapping_shutdowns c m n b s running can = ground arith

-- An observer of a listener that a `Shutdown` stopped may run only after the next `Start`: it then
-- takes the new listeners for stopped, and the server is not ready, although it is started
-- with both sockets open.
pub late_observer :
    (c : Config) (m n : ℕ) (b : Binding) (s : Server)
    → IsRunning m s
    → CanStart c b
    → let restarted = start c n b (shutdown_end (shutdown_begin s).0) in
      let observed = observe_listener restarted.server in
      (restarted.error ≡ none)
      × (restarted.udp_open ≡ true)
      × (restarted.tcp_open ≡ true)
      × (observed.ready ≡ false)
      × (observed.started ≡ true)
      × (observed.udp_server ≡ some n)
unfolding shutdown_begin shutdown_end start observe_listener
late_observer c m n b s running can = ground arith
