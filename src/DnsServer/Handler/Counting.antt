-- ===== src/DnsServer/Handler/Counting.antt =====
-- dns/internal/dnsserver/handler.go with dns/internal/metrics/metrics.go: what one request adds to
-- the counters.
use homedns_analytics.Common.{
  ℕ, ◌+◌, ◌%◌, ◌^◌, ◌≡◌, refl, Bool, true, false, Option, none, some, arith, length, GoError, ◌==◌,
  if◌then◌else◌, Bool-cases, ◌⊎◌, inl, inr,
}
use homedns_analytics.Metrics.{
  Registry, rcode_format_error, rcode_server_failure, record_request_udp, record_request_tcp,
  record_response, record_upstream_timeout, record_upstream_error, record_invalid_request,
  record_response_write_error, record_upstream_latency, record_handler_panic,
}
use homedns_analytics.Messages.{MsgOps}
use homedns_analytics.Upstream.{Network, tcp, Exchanged, returned, exchange_panics, Forwarder}
use homedns_analytics.DnsServer.Handler.{
  Writer, State, Outcome, done, panicked, Proc, write_msg, write_error_response, handle_exchange,
  forward, serve_question, serve_dns_inner, recover_panic, serve_dns, is_timeout_error,
  request_network, record_request,
}
use homedns_analytics.DnsServer.Handler.Replies.{Calm}

-- Between `r` and `s`, modulo 2 ^ 64, the requests (in all and over the two networks together), the
-- invalid requests, the recorded responses and the failures grew by these numbers. A failure is a
-- timeout or an error of the upstream, or a panic of the handler.
pub record Grew (r s : Registry) (requests invalid responses failures : ℕ) : Type 0 where
  pub total : s.requests_total % 2 ^ 64 ≡ (r.requests_total + requests) % 2 ^ 64
  pub networks :
      (s.requests_udp + s.requests_tcp) % 2 ^ 64
      ≡ (r.requests_udp + r.requests_tcp + requests) % 2 ^ 64
  pub refused : s.invalid_requests % 2 ^ 64 ≡ (r.invalid_requests + invalid) % 2 ^ 64
  pub responded :
      (s.responses_no_error + s.responses_nxdomain + s.responses_servfail + s.responses_other)
        % 2 ^ 64
      ≡ (r.responses_no_error + r.responses_nxdomain + r.responses_servfail + r.responses_other
          + responses)
        % 2 ^ 64
  pub failed :
      (s.upstream_timeouts + s.upstream_errors + s.handler_panics) % 2 ^ 64
      ≡ (r.upstream_timeouts + r.upstream_errors + r.handler_panics + failures) % 2 ^ 64

-- 1 if the exchange brings no response to pass on.
abbrev pub exchange_failures : {M : Type 0} → Exchanged M → ℕ
exchange_failures (returned (some response) latency none) = 0
exchange_failures _ = 1

abbrev pub forward_failures : {M : Type 0} → Option (Forwarder M) → M → Option Network → ℕ
forward_failures (some exchange) request (some network) =
    exchange_failures (exchange request network)
forward_failures _ request _ = 1

abbrev pub known : Option Network → ℕ
known none = 0
known (some network) = 1

module _ {M : Type 0} (ops : MsgOps M) (w : Writer M) (calm : Calm w) where
  -- The procedure returned, and the counters grew by so much.
  abbrev Counts : Registry → ℕ → ℕ → ℕ → Outcome × State M → Type 0
  Counts r requests invalid failures out =
      (out.0 ≡ done) × Grew r out.1.metrics requests invalid 1 failures

  write_error_response-Grew :
      (request : M) (code : ℕ) (s : State M)
      → Counts s.metrics 0 0 0 (write_error_response ops (some w) (some request) code s)
  unfolding write_error_response write_msg record_response record_response_write_error
  write_error_response-Grew request code s =
      ground (arith, calm (length s.attempts) (ops.set_rcode request code))

  -- A failure, and then a reply.
  failure-after :
      {r r' m : Registry} {o : Outcome}
      → Grew r r' 0 0 0 1
      → (o ≡ done) × Grew r' m 0 0 1 0
      → (o ≡ done) × Grew r m 0 0 1 1
  failure-after g h = (h.0, omega (arith, h.1))

  invalid-after :
      {r r' m : Registry} {o : Outcome}
      → Grew r r' 0 1 0 0
      → (o ≡ done) × Grew r' m 0 0 1 0
      → (o ≡ done) × Grew r m 0 1 1 0
  invalid-after g h = (h.0, omega (arith, h.1))

  latency-Grew :
      (latency : ℕ) (timed_out : Bool) (r : Registry)
      → Grew r
          ((if timed_out then record_upstream_timeout else record_upstream_error)
            (record_upstream_latency latency r))
          0
          0
          0
          1
  unfolding record_upstream_latency record_upstream_timeout record_upstream_error
  latency-Grew latency true r = ground arith
  latency-Grew latency false r = ground arith

  handle_exchange-Grew :
      (request : M) (network : Network) (response : Option M) (latency : ℕ) (e : Option GoError)
      (s : State M)
      → Counts s.metrics 0 0
          (exchange_failures (returned response latency e))
          (handle_exchange ops (some w) request network response latency e s)
  unfolding handle_exchange write_msg record_response record_response_write_error
      record_upstream_latency
  handle_exchange-Grew request network none latency (some e) s =
      failure-after (latency-Grew latency (is_timeout_error (some e)) _)
        (write_error_response-Grew request rcode_server_failure _)
  handle_exchange-Grew request network (some response) latency (some e) s =
      failure-after (latency-Grew latency (is_timeout_error (some e)) _)
        (write_error_response-Grew request rcode_server_failure _)
  handle_exchange-Grew request network none latency none s =
      failure-after (latency-Grew latency false _)
        (write_error_response-Grew request rcode_server_failure _)
  handle_exchange-Grew request network (some response) latency none s =
      ground (arith, calm (length s.attempts) (ops.with_id response (ops.id request)))

  recover_panic-Grew :
      (request : M) (s : State M)
      → Counts s.metrics 0 0 1 (recover_panic ops (some w) (some request) s)
  unfolding recover_panic record_handler_panic
  recover_panic-Grew request s =
      failure-after (omega arith) (write_error_response-Grew request rcode_server_failure _)

  -- `serveDNS` counts its reply, or it panics before the reply, and a failure is due.
  abbrev ServedAt : Registry → Registry → ℕ → ℕ → ℕ → Outcome → Type 0
  ServedAt r m requests invalid failures o =
      ((o ≡ done) × Grew r m requests invalid 1 failures)
      ⊎ ((o ≡ panicked) × Grew r m requests invalid 0 0 × (failures ≡ 1))

  abbrev Served : Registry → ℕ → ℕ → ℕ → Outcome × State M → Type 0
  Served r requests invalid failures out = ServedAt r out.1.metrics requests invalid failures out.0

  exchange-Served :
      (request : M) (network : Network) (x : Exchanged M) (s : State M)
      → Served s.metrics 0 0 (exchange_failures x) (
          elim x as (λ _. Proc M) [
            | exchange_panics ↦ λ t. (panicked, t)
            | returned response latency e ↦
                handle_exchange ops (some w) request network response latency e
          ]
            s)
  exchange-Served request network exchange_panics s = inr (refl, omega arith, refl)
  exchange-Served request network (returned response latency e) s =
      inl (handle_exchange-Grew request network response latency e s)

  Served-after :
      (r r' m : Registry) (failures : ℕ) (o : Outcome)
      → Grew r r' 1 0 0 0
      → ServedAt r' m 0 0 failures o
      → ServedAt r m 1 0 failures o
  Served-after r r' m failures o g (inl h) = inl (h.0, omega (arith, h.1))
  Served-after r r' m failures o g (inr (p, h, f)) = inr (p, omega arith, f)

  record_request-Grew :
      (network : Network) (r : Registry) → Grew r (record_request ops network r) 1 0 0 0
  unfolding record_request_udp record_request_tcp
  record_request-Grew tcp r = omega arith
  record_request-Grew _ r = omega arith

  forward-Served :
      (forwarder : Option (Forwarder M)) (request : M) (network : Network) (s : State M)
      → Served s.metrics 1 0
          (forward_failures forwarder request (some network))
          (forward ops forwarder (some w) request network s)
  unfolding forward record_upstream_error
  forward-Served none request network s =
      Served-after s.metrics _ _ 1 _ (record_request-Grew network s.metrics) (
        inl
          (failure-after (omega arith) (write_error_response-Grew request rcode_server_failure _)))
  forward-Served (some exchange) request network s =
      Served-after s.metrics _ _ _ _ (record_request-Grew network s.metrics)
        (exchange-Served request network (exchange request network) _)

  serve_question-Served :
      (forwarder : Option (Forwarder M)) (request : M) (s : State M) (network : Option Network)
      → Served s.metrics (known network) 0 (forward_failures forwarder request network) (
          elim network as (λ _. Proc M) [
            | none ↦ λ t. (panicked, t)
            | some n ↦ forward ops forwarder (some w) request n
          ]
            s)
  serve_question-Served none request s none = inr (refl, omega arith, refl)
  serve_question-Served (some exchange) request s none = inr (refl, omega arith, refl)
  serve_question-Served forwarder request s (some network) =
      forward-Served forwarder request network s

  -- 1 for a request that asks something and whose network is known.
  abbrev pub requests_of : M → ℕ
  requests_of request =
      if ops.question_count request == 0 then 0 else known (request_network (some w))

  abbrev pub invalid_of : M → ℕ
  invalid_of request = if ops.question_count request == 0 then 1 else 0

  abbrev pub failures_of : Option (Forwarder M) → M → ℕ
  failures_of forwarder request =
      if ops.question_count request == 0
      then 0
      else forward_failures forwarder request (request_network (some w))

  serve_dns_inner-Served :
      (forwarder : Option (Forwarder M)) (request : M) (s : State M)
      → Served s.metrics
          (requests_of request)
          (invalid_of request)
          (failures_of forwarder request)
          (serve_dns_inner ops forwarder (some w) (some request) s)
  unfolding serve_dns_inner serve_question record_invalid_request
  serve_dns_inner-Served forwarder request s = elim (Bool-cases (ops.question_count request == 0)) [
    | inl e ↦
        rw e (
          inl
            (invalid-after (omega arith) (write_error_response-Grew request rcode_format_error _)))
    | inr e ↦ rw e (serve_question-Served forwarder request s (request_network (some w)))
  ]

  recovered-Grew :
      (request : M) (requests invalid failures : ℕ) (r : Registry) (out : Outcome × State M)
      → Served r requests invalid failures out
      → Counts r requests invalid failures (elim out.0 as (λ _. Outcome × State M) [
        | done ↦ (done, out.1)
        | panicked ↦ recover_panic ops (some w) (some request) out.1
      ])
  recovered-Grew request requests invalid failures r (done, s) (inl h) = h
  recovered-Grew request requests invalid failures r (panicked, s) (inl h) = cc h.0
  recovered-Grew request requests invalid failures r (done, s) (inr h) = cc h.0
  recovered-Grew request requests invalid failures r (panicked, s) (inr (p, g, f)) =
      let (returns, more) = recover_panic-Grew request s in (returns, omega arith)

  -- If no call of `WriteMsg` panics, each request is counted once: as invalid if it asks nothing,
  -- else as a request (unless `RemoteAddr` panics) over one of the networks. Just one response is
  -- recorded. A request that asks something adds one timeout, error or panic if no upstream
  -- response is passed on, and none otherwise; one that asks nothing adds none.
  pub serve_dns-Grew :
      (forwarder : Option (Forwarder M)) (request : M) (s : State M)
      → let (o, s') = serve_dns ops forwarder (some w) (some request) s in
        (o ≡ done)
        × Grew s.metrics s'.metrics
            (requests_of request)
            (invalid_of request)
            1
            (failures_of forwarder request)
  unfolding serve_dns
  serve_dns-Grew forwarder request s =
      recovered-Grew request _ _ _ s.metrics _ (serve_dns_inner-Served forwarder request s)
