-- ===== src/DnsServer/Handler/Samples.antt =====
-- The handler at concrete requests.
use homedns_analytics.Common.{◌≡◌, refl, true, false, Option, none, some, [], ◌∷◌}
use homedns_analytics.Metrics.{
  empty, record_response, record_upstream_timeout, record_upstream_latency,
  record_response_write_error, record_request_tcp,
}
use homedns_analytics.Messages.{PlainMsg, plain_ops, plain_laws}
use homedns_analytics.Upstream.{returned, exchange_panics, Forwarder}
use homedns_analytics.DnsServer.Handler.{
  tcp_addr, write_failed, Writer, State, done, write_msg, write_error_response, handle_exchange,
  forward, serve_question, serve_dns_inner, serve_dns, is_timeout_error, request_network,
}
use homedns_analytics.DnsServer.Handler.Replies.{IsReply, Calm, reply_code, serve_dns-IsReply}
use homedns_analytics.DnsServer.Handler.Counting.{Grew, serve_dns-Grew}

abbrev query : PlainMsg
query = record { id = 77; rcode = 0; truncated = false; question_count = 1 }

abbrev answer : PlainMsg
answer = record { id = 5; rcode = 3; truncated = false; question_count = 1 }

abbrev fresh : State PlainMsg
fresh = record { metrics = empty; attempts = []; log = [] }

abbrev over_tcp : Writer PlainMsg
over_tcp = record { remote = tcp_addr; write = λ n m. write_failed }

over_tcp-Calm : Calm over_tcp
over_tcp-Calm n m e = cc e

abbrev answering : Option (Forwarder PlainMsg)
answering = some (λ m n. returned (some answer) 900 none)

abbrev panicking : Option (Forwarder PlainMsg)
panicking = some (λ m n. exchange_panics)

abbrev timing_out : Option (Forwarder PlainMsg)
timing_out = some λ m n.
    returned none 900
      (some (record { deadline_exceeded = true; canceled = false; net_error = none }))

-- The upstream answer goes out with the identifier of the query.
answers :
    (serve_dns plain_ops answering (some over_tcp) (some query) fresh).1.attempts
    ≡ record { id = 77; rcode = 3; truncated = false; question_count = 1 } ∷ []
unfolding serve_dns serve_dns_inner serve_question forward handle_exchange write_msg request_network
    record_request_tcp record_response record_upstream_latency record_response_write_error
answers = refl

timeouts :
    let m = (serve_dns plain_ops timing_out (some over_tcp) (some query) fresh).1.metrics in
    (m.upstream_timeouts ≡ 1) × (m.upstream_errors ≡ 0) × (m.responses_servfail ≡ 1)
unfolding serve_dns serve_dns_inner serve_question forward handle_exchange write_msg request_network
    record_request_tcp record_response record_upstream_latency record_response_write_error
    record_upstream_timeout write_error_response is_timeout_error
timeouts = (refl, refl, refl)

serve_dns-IsReply_example :
    IsReply plain_ops query
      (reply_code plain_ops panicking over_tcp query)
      []
      (serve_dns plain_ops panicking (some over_tcp) (some query) fresh)
serve_dns-IsReply_example =
    serve_dns-IsReply plain_ops plain_laws over_tcp over_tcp-Calm panicking query fresh

serve_dns-Grew_example :
    let (o, s') = serve_dns plain_ops panicking (some over_tcp) (some query) fresh in
    (o ≡ done) × Grew empty s'.metrics 1 0 1 1
unfolding request_network
serve_dns-Grew_example = serve_dns-Grew plain_ops over_tcp over_tcp-Calm panicking query fresh
