-- ===== src/Health/Handler.antt =====
-- dns/internal/health/handler.go: the answer to GET /health. A time is a number of nanoseconds, and
-- `none` is the zero time.
use Prim.Native.String.{String}
use text.Mathlib.Text.{◌==◌ as str_eq}
use homedns_analytics.Common.{
  ℕ, ◌-◌, ◌/◌, ◌^◌, Bool, not, Option, none, some, ltb, leb, if◌then◌else◌,
}

-- `DNSState` and `DNSResponse`
pub record DnsState : Type 0 where
  pub udp_listening : Bool
  pub tcp_listening : Bool
  pub listen_address : String

-- `MetricsState` and `MetricsResponse`, which have the same fields.
pub record MetricsState (F : Type 0) : Type 0 where
  pub requests_total : ℕ
  pub requests_udp : ℕ
  pub requests_tcp : ℕ
  pub responses_no_error : ℕ
  pub responses_nxdomain : ℕ
  pub responses_servfail : ℕ
  pub responses_other : ℕ
  pub upstream_timeouts : ℕ
  pub upstream_errors : ℕ
  pub invalid_requests : ℕ
  pub response_write_errors : ℕ
  pub handler_panics : ℕ
  pub average_upstream_latency_milliseconds : F

pub record State (F : Type 0) : Type 0 where
  pub ready : Bool
  pub version : String
  pub commit : String
  pub build_time : String
  pub started_at : Option ℕ
  pub dns : DnsState
  pub upstream_address : String
  pub metrics : MetricsState F

pub record Response (F : Type 0) : Type 0 where
  pub status : String
  pub ready : Bool
  pub version : String
  pub commit : String
  pub build_time : String
  pub uptime_seconds : ℕ
  pub dns : DnsState
  pub upstream_address : String
  pub metrics : MetricsState F

-- What `ServeHTTP` writes.
pub data Reply (F : Type 0) : Type 0 where
  not_found method_not_allowed : Reply F
  health : Response F → Reply F

-- `uint64(now.Sub(startedAt) / time.Second)`, where `Sub` stops at the largest duration.
abbrev pub whole_seconds : ℕ → ℕ
whole_seconds d = (if leb (2 ^ 63) d then 2 ^ 63 - 1 else d) / 1_000_000_000

unfoldable pub build_response : {F : Type 0} → State F → ℕ → Response F
build_response s now = record {
  status = if s.ready then "ok" else "not_ready";
  ready = s.ready;
  version = s.version;
  commit = s.commit;
  build_time = s.build_time;
  uptime_seconds = elim s.started_at [
    | none ↦ 0
    | some t ↦ if ltb t now then whole_seconds (now - t) else 0
  ];
  dns = record {
    udp_listening = s.dns.udp_listening;
    tcp_listening = s.dns.tcp_listening;
    listen_address = s.dns.listen_address;
  };
  upstream_address = s.upstream_address;
  metrics = s.metrics;
}

-- `ServeHTTP` with the state that the provider gives; the nil provider gives `State{}`.
unfoldable pub serve_http : {F : Type 0} → State F → ℕ → (path method : String) → Reply F
unfolding build_response
serve_http s now path method =
    if not (str_eq path "/health")
    then not_found
    else if not (str_eq method "GET")
    then method_not_allowed
    else health (build_response s now)
