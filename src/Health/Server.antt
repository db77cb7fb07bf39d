-- ===== src/Health/Server.antt =====
-- dns/internal/health/server.go: the life of the internal health HTTP server. Each function is a
-- section that holds the mutex; `Shutdown` has two, and the goroutine `serve` has one at its end. What
-- happens after a section, such as `go s.serve` at the end of `Start`, is a step of its own in
-- Interleaving.
-- The HTTP server and the listener that one `Start` makes are named by a number.
pub mod Interleaving
pub mod Address
mod Samples
use homedns_analytics.Common.{
  ℕ, Bool, true, false, Option, none, some, GoError, ◌||◌, ◌==◌, if◌then◌else◌, is_some,
}

-- The fields of `Server` that change.
pub record Server : Type 0 where
  pub http_server : Option ℕ
  pub listener : Option ℕ
  pub ready : Bool

abbrev pub new_server : Server
new_server = record { http_server = none; listener = none; ready = false }

pub data StartError : Type 0 where
  nil_server server_running : StartError
  listen_failed : GoError → StartError

-- The section of `Start`, with the result of `net.Listen` and the number for what it makes. If it
-- gives no error, then the goroutine `serve` of that number is started after it, without the mutex.
unfoldable pub start : Option GoError → ℕ → Server → Server × Option StartError
start listen n s =
    if is_some s.http_server || is_some s.listener || s.ready
    then (s, some server_running)
    else elim listen [
      | some e ↦ (s, some (listen_failed e))
      | none ↦ (record s { listener = some n; http_server = some n; ready = true }, none)
    ]

-- The first section of `Shutdown` with a context: `none` if it returns at once, else the HTTP server
-- to shut down.
unfoldable pub shutdown_begin : Server → Server × Option ℕ
shutdown_begin s = elim s.http_server [
  | none ↦ (record s { ready = false; listener = none }, none)
  | some n ↦ (record s { ready = false }, some n)
]

abbrev pub is_current : Option ℕ → ℕ → Bool
is_current none n = false
is_current (some m) n = m == n

-- The second section of `Shutdown`, after `httpServer.Shutdown`.
unfoldable pub shutdown_end : ℕ → Server → Server
shutdown_end n s =
    if is_current s.http_server n then record s { http_server = none; listener = none } else s

-- The section at the end of `serve`, after `httpServer.Serve` has returned.
unfoldable pub serve_end : ℕ → Server → Server
serve_end n s =
    if is_current s.http_server n
    then record s { ready = false; http_server = none; listener = none }
    else s

-- `Ready`; `none` is the nil server.
unfoldable pub is_ready : Option Server → Bool
is_ready none = false
is_ready (some s) = s.ready

-- `Address`: `bound` gives the address of a listener, and `configured` is the fixed field.
unfoldable pub address : {A : Type 0} → (ℕ → A) → A → Server → A
address bound configured s = elim s.listener [ none ↦ configured | some n ↦ bound n ]
