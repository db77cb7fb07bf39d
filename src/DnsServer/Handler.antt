-- ===== src/DnsServer/Handler.antt =====
-- dns/internal/dnsserver/handler.go: one DNS request from the socket to the reply.
-- A procedure takes the state, the registry with what was written and logged, and either returns or
-- panics, with the state it left behind. The writer, the forwarder and the message library are
-- arguments: what they answer, and where they panic, is their choice.
pub mod Replies
pub mod Counting
mod Samples
use homedns_analytics.Common.{
  ℕ, Bool, true, false, Option, none, some, List, [], ◌∷◌, ◌++◌, GoError, length, ◌==◌,
  if◌then◌else◌,
}
use homedns_analytics.Metrics.{
  Registry, rcode_format_error, rcode_server_failure, record_request_udp, record_request_tcp,
  record_response, record_upstream_timeout, record_upstream_error, record_invalid_request,
  record_response_write_error, record_upstream_latency, record_handler_panic,
}
use homedns_analytics.Messages.{MsgOps}
use homedns_analytics.Upstream.{Network, udp, tcp, Exchanged, returned, exchange_panics, Forwarder}

-- The dynamic type of `writer.RemoteAddr()`, which may also panic.
pub data Remote : Type 0 where
  tcp_addr other_addr remote_panics : Remote

-- What one call of `writer.WriteMsg` does.
pub data Written : Type 0 where
  written write_failed write_panics : Written

-- `dns.ResponseWriter`; `write n m` is the outcome of the call after `n` earlier ones.
pub record Writer (M : Type 0) : Type 0 where
  pub remote : Remote
  pub write : ℕ → M → Written

-- The calls of `h.logger.Error`.
pub data LogEntry : Type 0 where
  forward_failed : Network → Bool → LogEntry
  nil_response : Network → LogEntry
  response_write_failed error_write_failed : ℕ → LogEntry
  panic_recovered : LogEntry

-- `attempts` are the messages handed to `WriteMsg`, in order.
pub record State (M : Type 0) : Type 0 where
  pub metrics : Registry
  pub attempts : List M
  pub log : List LogEntry

pub data Outcome : Type 0 where
  done panicked : Outcome

abbrev pub Proc : Type 0 → Type 0
Proc M = State M → Outcome × State M

-- `isTimeoutError`; `upstream.IsTimeout` is the same test without the nil case.
unfoldable pub is_timeout_error : Option GoError → Bool
is_timeout_error none = false
is_timeout_error (some e) = if e.deadline_exceeded then true else net_timeout e.net_error
  where
    net_timeout : Option Bool → Bool
    net_timeout none = false
    net_timeout (some timeout) = timeout

module _ {M : Type 0} where
  infixl 5 ◌then_do◌
  abbrev pub ◌then_do◌ : Proc M → Proc M → Proc M
  ◌then_do◌ p q s = let (o, s') = p s in elim o [ done ↦ q s' | panicked ↦ (panicked, s') ]

  abbrev pub skip : Proc M
  skip s = (done, s)

  abbrev pub count : (Registry → Registry) → Proc M
  count method s = (done, record s { metrics = method s.metrics })

  abbrev pub log_error : LogEntry → Proc M
  log_error entry s = (done, record s { log = s.log ++ (entry ∷ []) })

  -- `writer.WriteMsg(m)`, and what follows if it returns an error. The nil writer panics.
  unfoldable pub write_msg : Option (Writer M) → M → Proc M → Proc M
  write_msg none m on_error s = (panicked, s)
  write_msg (some w) m on_error s =
      let s' : State M = record s { attempts = s.attempts ++ (m ∷ []) } in
      elim (w.write (length s.attempts) m) [
        | written ↦ (done, s')
        | write_failed ↦ on_error s'
        | write_panics ↦ (panicked, s')
      ]

  -- `requestNetwork`; `none` is a panic in `RemoteAddr`.
  unfoldable pub request_network : Option (Writer M) → Option Network
  request_network none = some udp
  request_network (some w) = elim w.remote [
    | tcp_addr ↦ some tcp
    | other_addr ↦ some udp
    | remote_panics ↦ none
  ]

module _ {M : Type 0} (ops : MsgOps M) where
  open ops use {id, rcode, question_count, with_id, set_rcode}

  unfoldable pub write_error_response : Option (Writer M) → Option M → ℕ → Proc M
  write_error_response none request code = skip
  write_error_response (some w) none code = skip
  write_error_response (some w) (some request) code =
      count (record_response code)
      then_do write_msg (some w) (set_rcode request code)
          (count record_response_write_error then_do log_error (error_write_failed code))

  -- `serveDNS` from the reply of the forwarder on.
  unfoldable pub handle_exchange :
      Option (Writer M) → M → Network → Option M → ℕ → Option GoError → Proc M
  handle_exchange writer request network response latency (some e) =
      let timed_out = is_timeout_error (some e) in
      count (record_upstream_latency latency)
      then_do count (if timed_out then record_upstream_timeout else record_upstream_error)
      then_do log_error (forward_failed network timed_out)
      then_do write_error_response writer (some request) rcode_server_failure
  handle_exchange writer request network none latency none =
      count (record_upstream_latency latency)
      then_do count record_upstream_error
      then_do log_error (nil_response network)
      then_do write_error_response writer (some request) rcode_server_failure
  handle_exchange writer request network (some response) latency none =
      let reply = with_id response (id request) in
      count (record_upstream_latency latency)
      then_do count (record_response (rcode reply))
      then_do write_msg writer reply (
          count record_response_write_error then_do log_error (response_write_failed (rcode reply)))

  abbrev pub record_request : Network → Registry → Registry
  record_request tcp = record_request_tcp
  record_request _ = record_request_udp

  -- `serveDNS` once the network is known.
  unfoldable pub forward : Option (Forwarder M) → Option (Writer M) → M → Network → Proc M
  forward none writer request network =
      count (record_request network)
      then_do count record_upstream_error
      then_do write_error_response writer (some request) rcode_server_failure
  forward (some exchange) writer request network =
      count (record_request network) then_do elim (exchange request network) [
        | exchange_panics ↦ λ s. (panicked, s)
        | returned response latency e ↦ handle_exchange writer request network response latency e
      ]

  -- `serveDNS` with a request that asks something.
  unfoldable pub serve_question : Option (Forwarder M) → Option (Writer M) → M → Proc M
  serve_question forwarder writer request = elim (request_network writer) [
    | none ↦ λ s. (panicked, s)
    | some network ↦ forward forwarder writer request network
  ]

  unfoldable pub serve_dns_inner : Option (Forwarder M) → Option (Writer M) → Option M → Proc M
  serve_dns_inner forwarder writer none = count record_invalid_request
  serve_dns_inner forwarder writer (some request) =
      if question_count request == 0
      then count record_invalid_request
        then_do write_error_response writer (some request) rcode_format_error
      else serve_question forwarder writer request

  -- `recoverPanic` after a panic.
  unfoldable pub recover_panic : Option (Writer M) → Option M → Proc M
  recover_panic writer request =
      count record_handler_panic
      then_do log_error panic_recovered
      then_do write_error_response writer request rcode_server_failure

  -- `ServeDNS`, the deferred recovery included. `panicked` means that the panic leaves `ServeDNS`.
  unfoldable pub serve_dns : Option (Forwarder M) → Option (Writer M) → Option M → Proc M
  serve_dns forwarder writer request s =
      let (o, s') = serve_dns_inner forwarder writer request s in
      elim o [ done ↦ (done, s') | panicked ↦ recover_panic writer request s' ]
