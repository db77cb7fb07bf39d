-- ===== src/Metrics.antt =====
-- dns/internal/metrics/metrics.go: the process-local counters of the DNS server.
-- A counter is an `atomic.Uint64`, a word; a method returns the registry with its new counters.
pub mod Order
pub mod Totals
mod Samples
use homedns_analytics.Common.{
  ℕ, ◌+◌, Bool, Option, none, some, List, [], ◌∷◌, add64, ltb, is_negative, div_signed, ◌==◌,
  if◌then◌else◌,
}

pub record Registry : Type 0 where
  pub requests_total : ℕ
  pub requests_udp : ℕ
  pub requests_tcp : ℕ
  pub responses_no_error : ℕ
  pub responses_nxdomain : ℕ
  pub responses_servfail : ℕ
  pub responses_other : ℕ
  pub upstream_timeouts : ℕ
  pub upstream_errors : ℕ
  pub invalid_requests : ℕ
  pub response_write_errors : ℕ
  pub upstream_latency_nanoseconds : ℕ
  pub upstream_latency_samples : ℕ
  pub handler_panics : ℕ

-- `&metrics.Registry{}`
abbrev pub empty : Registry
empty = record {
  requests_total = 0;
  requests_udp = 0;
  requests_tcp = 0;
  responses_no_error = 0;
  responses_nxdomain = 0;
  responses_servfail = 0;
  responses_other = 0;
  upstream_timeouts = 0;
  upstream_errors = 0;
  invalid_requests = 0;
  response_write_errors = 0;
  upstream_latency_nanoseconds = 0;
  upstream_latency_samples = 0;
  handler_panics = 0;
}

-- dns.RcodeSuccess, RcodeFormatError, RcodeServerFailure and RcodeNameError, numbered by RFC 1035.
abbrev pub rcode_success : ℕ
rcode_success = 0

abbrev pub rcode_format_error : ℕ
rcode_format_error = 1

abbrev pub rcode_server_failure : ℕ
rcode_server_failure = 2

abbrev pub rcode_name_error : ℕ
rcode_name_error = 3

unfoldable pub record_request_udp : Registry → Registry
record_request_udp r = record r {
  requests_total = add64 r.requests_total 1;
  requests_udp = add64 r.requests_udp 1;
}

unfoldable pub record_request_tcp : Registry → Registry
record_request_tcp r = record r {
  requests_total = add64 r.requests_total 1;
  requests_tcp = add64 r.requests_tcp 1;
}

unfoldable pub record_response : ℕ → Registry → Registry
record_response code r =
    if code == rcode_success
    then record r { responses_no_error = add64 r.responses_no_error 1 }
    else if code == rcode_name_error
    then record r { responses_nxdomain = add64 r.responses_nxdomain 1 }
    else if code == rcode_server_failure
    then record r { responses_servfail = add64 r.responses_servfail 1 }
    else record r { responses_other = add64 r.responses_other 1 }

unfoldable pub record_upstream_timeout : Registry → Registry
record_upstream_timeout r = record r { upstream_timeouts = add64 r.upstream_timeouts 1 }

unfoldable pub record_upstream_error : Registry → Registry
record_upstream_error r = record r { upstream_errors = add64 r.upstream_errors 1 }

unfoldable pub record_invalid_request : Registry → Registry
record_invalid_request r = record r { invalid_requests = add64 r.invalid_requests 1 }

unfoldable pub record_response_write_error : Registry → Registry
record_response_write_error r = record r { response_write_errors = add64 r.response_write_errors 1 }

-- A negative latency is not recorded.
unfoldable pub record_upstream_latency : ℕ → Registry → Registry
record_upstream_latency latency r = if is_negative latency then r else record r {
  upstream_latency_nanoseconds = add64 r.upstream_latency_nanoseconds latency;
  upstream_latency_samples = add64 r.upstream_latency_samples 1;
}

unfoldable pub record_handler_panic : Registry → Registry
record_handler_panic r = record r { handler_panics = add64 r.handler_panics 1 }

-- Each method begins by `if r == nil { return }`.
abbrev pub on_receiver : (Registry → Registry) → Option Registry → Option Registry
on_receiver method none = none
on_receiver method (some r) = some (method r)

pub record Snapshot : Type 0 where
  pub requests_total : ℕ
  pub requests_udp : ℕ
  pub requests_tcp : ℕ
  pub responses_no_error : ℕ
  pub responses_nxdomain : ℕ
  pub responses_servfail : ℕ
  pub responses_other : ℕ
  pub upstream_timeouts : ℕ
  pub upstream_errors : ℕ
  pub invalid_requests : ℕ
  pub response_write_errors : ℕ
  pub total_upstream_latency : ℕ
  pub upstream_latency_samples : ℕ
  pub average_upstream_latency : ℕ
  pub handler_panics : ℕ

-- `Registry.Snapshot`, with no other goroutine between its loads. The nil registry is read as an
-- empty one, whose snapshot is `Snapshot{}`.
unfoldable pub snapshot : Registry → Snapshot
snapshot r = record {
  requests_total = r.requests_total;
  requests_udp = r.requests_udp;
  requests_tcp = r.requests_tcp;
  responses_no_error = r.responses_no_error;
  responses_nxdomain = r.responses_nxdomain;
  responses_servfail = r.responses_servfail;
  responses_other = r.responses_other;
  upstream_timeouts = r.upstream_timeouts;
  upstream_errors = r.upstream_errors;
  invalid_requests = r.invalid_requests;
  response_write_errors = r.response_write_errors;
  total_upstream_latency = r.upstream_latency_nanoseconds;
  upstream_latency_samples = r.upstream_latency_samples;
  average_upstream_latency = average;
  handler_panics = r.handler_panics;
}
  where
    average : ℕ
    average =
        if ltb 0 r.upstream_latency_samples
        then div_signed r.upstream_latency_nanoseconds r.upstream_latency_samples
        else 0

unfoldable pub snapshot_of : Option Registry → Snapshot
unfolding snapshot
snapshot_of none = snapshot empty
snapshot_of (some r) = snapshot r

-- The calls that the DNS handlers make, as data, and a sequence of them.
pub data Call : Type 0 where
  request_udp request_tcp upstream_timeout upstream_error invalid_request write_error panic : Call
  response latency : ℕ → Call

unfoldable pub perform : Call → Registry → Registry
perform request_udp r = record_request_udp r
perform request_tcp r = record_request_tcp r
perform upstream_timeout r = record_upstream_timeout r
perform upstream_error r = record_upstream_error r
perform invalid_request r = record_invalid_request r
perform write_error r = record_response_write_error r
perform panic r = record_handler_panic r
perform (response code) r = record_response code r
perform (latency n) r = record_upstream_latency n r

unfoldable pub perform_all : List Call → Registry → Registry
perform_all [] r = r
perform_all (c ∷ cs) r = perform_all cs (perform c r)
