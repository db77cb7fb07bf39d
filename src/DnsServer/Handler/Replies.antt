-- ===== src/DnsServer/Handler/Replies.antt =====
-- dns/internal/dnsserver/handler.go: which replies a client gets.
use homedns_analytics.Common.{
  ℕ, ◌≡◌, refl, ◌≢◌, Option, none, some, List, [], ◌∷◌, ◌++◌, arith, length, GoError, ◌==◌,
  if◌then◌else◌, Bool-cases, ◌⊎◌, inl, inr,
}
use homedns_analytics.Metrics.{rcode_format_error, rcode_server_failure}
use homedns_analytics.Messages.{MsgOps, MsgLaws}
use homedns_analytics.Upstream.{Network, Exchanged, returned, exchange_panics, Forwarder}
use homedns_analytics.DnsServer.Handler.{
  write_panics, Writer, State, Outcome, done, panicked, Proc, write_msg, write_error_response,
  handle_exchange, forward, serve_question, serve_dns_inner, recover_panic, serve_dns,
  request_network,
}

-- The code that the client is to see, by the outcome of the exchange.
abbrev pub exchanged_code : {M : Type 0} → MsgOps M → Exchanged M → ℕ
exchanged_code ops (returned (some response) latency none) = ops.rcode response
exchanged_code ops _ = rcode_server_failure

abbrev pub forwarded_code : {M : Type 0} → MsgOps M → Option (Forwarder M) → M → Option Network → ℕ
forwarded_code ops (some exchange) request (some network) =
    exchanged_code ops (exchange request network)
forwarded_code ops _ request _ = rcode_server_failure

-- The code of the reply to a request: FORMERR if it asks nothing, that of the upstream response if
-- there is one, SERVFAIL otherwise.
abbrev pub reply_code : {M : Type 0} → MsgOps M → Option (Forwarder M) → Writer M → M → ℕ
reply_code ops forwarder w request =
    if ops.question_count request == 0
    then rcode_format_error
    else forwarded_code ops forwarder request (request_network (some w))

-- The procedure returned, having handed just one message to the writer, with the identifier of
-- `request` and the code `code`.
pub record IsReply {M : Type 0} (ops : MsgOps M) (request : M) (code : ℕ) (before : List M)
    (r : Outcome × State M) : Type 0 where
  pub returns : r.0 ≡ done
  pub message : M
  pub sent : r.1.attempts ≡ before ++ (message ∷ [])
  pub id_kept : ops.id message ≡ ops.id request
  pub code_given : ops.rcode message ≡ code

-- No call of `WriteMsg` panics.
abbrev pub Calm : {M : Type 0} → Writer M → Type 0
Calm {M} w = (n : ℕ) (m : M) → w.write n m ≢ write_panics

module _ {M : Type 0} (ops : MsgOps M) (laws : MsgLaws ops) (w : Writer M) (calm : Calm w) where
  open laws use {id-with_id, rcode-with_id, id-set_rcode, rcode-set_rcode}

  write_error_response-IsReply :
      (request : M) (code : ℕ) (s : State M)
      → IsReply ops request code s.attempts
          (write_error_response ops (some w) (some request) code s)
  unfolding write_error_response write_msg
  write_error_response-IsReply request code s = record {
    returns = ground (arith, calm (length s.attempts) (ops.set_rcode request code));
    message = ops.set_rcode request code;
    sent = ground (arith, calm (length s.attempts) (ops.set_rcode request code));
    id_kept = id-set_rcode request code;
    code_given = rcode-set_rcode request code;
  }

  handle_exchange-IsReply :
      (request : M) (network : Network) (response : Option M) (latency : ℕ) (e : Option GoError)
      (s : State M)
      → IsReply ops request
          (exchanged_code ops (returned response latency e))
          s.attempts
          (handle_exchange ops (some w) request network response latency e s)
  unfolding handle_exchange write_msg
  handle_exchange-IsReply request network none latency (some e) s =
      write_error_response-IsReply request rcode_server_failure _
  handle_exchange-IsReply request network (some response) latency (some e) s =
      write_error_response-IsReply request rcode_server_failure _
  handle_exchange-IsReply request network none latency none s =
      write_error_response-IsReply request rcode_server_failure _
  handle_exchange-IsReply request network (some response) latency none s = record {
    returns = ground (arith, calm (length s.attempts) (ops.with_id response (ops.id request)));
    message = ops.with_id response (ops.id request);
    sent = ground (arith, calm (length s.attempts) (ops.with_id response (ops.id request)));
    id_kept = id-with_id response (ops.id request);
    code_given = rcode-with_id response (ops.id request);
  }

  recover_panic-IsReply :
      (request : M) (s : State M)
      → IsReply ops request rcode_server_failure s.attempts
          (recover_panic ops (some w) (some request) s)
  unfolding recover_panic
  recover_panic-IsReply request s = write_error_response-IsReply request rcode_server_failure _

  -- `serveDNS` replies, or it panics before it writes anything, and SERVFAIL is due.
  abbrev Served : M → ℕ → List M → Outcome × State M → Type 0
  Served request code before r =
      IsReply ops request code before r
      ⊎ ((r.0 ≡ panicked) × (r.1.attempts ≡ before) × (code ≡ rcode_server_failure))

  exchange-Served :
      (request : M) (network : Network) (x : Exchanged M) (s : State M)
      → Served request (exchanged_code ops x) s.attempts (
          elim x as (λ _. Proc M) [
            | exchange_panics ↦ λ t. (panicked, t)
            | returned response latency e ↦
                handle_exchange ops (some w) request network response latency e
          ]
            s)
  exchange-Served request network exchange_panics s = inr (refl, refl, refl)
  exchange-Served request network (returned response latency e) s =
      inl (handle_exchange-IsReply request network response latency e s)

  forward-Served :
      (forwarder : Option (Forwarder M)) (request : M) (network : Network) (s : State M)
      → Served request
          (forwarded_code ops forwarder request (some network))
          s.attempts
          (forward ops forwarder (some w) request network s)
  unfolding forward
  forward-Served none request network s =
      inl (write_error_response-IsReply request rcode_server_failure _)
  forward-Served (some exchange) request network s =
      exchange-Served request network (exchange request network) _

  serve_question-Served :
      (forwarder : Option (Forwarder M)) (request : M) (s : State M) (network : Option Network)
      → Served request (forwarded_code ops forwarder request network) s.attempts (
          elim network as (λ _. Proc M) [
            | none ↦ λ t. (panicked, t)
            | some n ↦ forward ops forwarder (some w) request n
          ]
            s)
  serve_question-Served none request s none = inr (refl, refl, refl)
  serve_question-Served (some exchange) request s none = inr (refl, refl, refl)
  serve_question-Served forwarder request s (some network) =
      forward-Served forwarder request network s

  serve_dns_inner-Served :
      (forwarder : Option (Forwarder M)) (request : M) (s : State M)
      → Served request
          (reply_code ops forwarder w request)
          s.attempts
          (serve_dns_inner ops forwarder (some w) (some request) s)
  unfolding serve_dns_inner serve_question
  serve_dns_inner-Served forwarder request s = elim (Bool-cases (ops.question_count request == 0)) [
    | inl e ↦ rw e (inl (write_error_response-IsReply request rcode_format_error _))
    | inr e ↦ rw e (serve_question-Served forwarder request s (request_network (some w)))
  ]

  recovered-IsReply :
      (request : M) (code : ℕ) (before : List M) (r : Outcome × State M)
      → Served request code before r
      → IsReply ops request code before (elim r.0 as (λ _. Outcome × State M) [
        | done ↦ (done, r.1)
        | panicked ↦ recover_panic ops (some w) (some request) r.1
      ])
  recovered-IsReply request code before (done, s) (inl reply) = reply
  recovered-IsReply request code before (panicked, s) (inl reply) = cc reply.returns
  recovered-IsReply request code before (done, s) (inr failed) = cc failed.0
  recovered-IsReply request code before (panicked, s) (inr failed) =
      rw (← failed.1, failed.2) (recover_panic-IsReply request s)

  -- If no call of `WriteMsg` panics, every request gets exactly one reply, with its identifier and
  -- the code due to it, and `ServeDNS` returns: whatever the forwarder does, and also if it, or
  -- `RemoteAddr`, panics.
  pub serve_dns-IsReply :
      (forwarder : Option (Forwarder M)) (request : M) (s : State M)
      → IsReply ops request
          (reply_code ops forwarder w request)
          s.attempts
          (serve_dns ops forwarder (some w) (some request) s)
  unfolding serve_dns
  serve_dns-IsReply forwarder request s =
      recovered-IsReply request _ _ _ (serve_dns_inner-Served forwarder request s)

module _ {M : Type 0} (ops : MsgOps M) where
  -- Without a writer, or without a request, `ServeDNS` returns and hands no message to a writer,
  -- also where the missing writer makes it panic on its way.
  pub serve_dns_silent :
      (forwarder : Option (Forwarder M)) (writer : Option (Writer M)) (request : Option M)
      (s : State M)
      → (writer ≡ none) ⊎ (request ≡ none)
      → let (o, s') = serve_dns ops forwarder writer request s in
        (o ≡ done) × (s'.attempts ≡ s.attempts)
  unfolding serve_dns serve_dns_inner serve_question forward handle_exchange recover_panic
      write_error_response write_msg request_network
  serve_dns_silent forwarder writer request s h = ground arith
