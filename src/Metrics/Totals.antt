-- ===== src/Metrics/Totals.antt =====
-- dns/internal/metrics/metrics.go: what the counters and the snapshot say of the calls made.
use homedns_analytics.Common.{
  ℕ, ◌+◌, ◌*◌, ◌/◌, ◌%◌, ◌^◌, ◌≤◌, ◌<◌, ◌≡◌, Bool, List, [], ◌∷◌, arith, All, sum_by, is_negative,
  ◌==◌, if◌then◌else◌, div_signed_nonneg,
}
use homedns_analytics.Metrics.{
  Registry, empty, Call, request_udp, request_tcp, response, latency, perform, perform_all,
  rcode_success, rcode_name_error, rcode_server_failure, record_request_udp, record_request_tcp,
  record_response, record_upstream_timeout, record_upstream_error, record_invalid_request,
  record_response_write_error, record_upstream_latency, record_handler_panic, snapshot,
}

-- How often a call counts as a request over UDP, and so on.
abbrev pub udp_calls : Call → ℕ
udp_calls request_udp = 1
udp_calls _ = 0

abbrev pub tcp_calls : Call → ℕ
tcp_calls request_tcp = 1
tcp_calls _ = 0

abbrev pub responses_with : (ℕ → Bool) → Call → ℕ
responses_with p (response code) = if p code then 1 else 0
responses_with p _ = 0

abbrev pub samples : Call → ℕ
samples (latency n) = if is_negative n then 0 else 1
samples _ = 0

abbrev pub nanoseconds : Call → ℕ
nanoseconds (latency n) = if is_negative n then 0 else n
nanoseconds _ = 0

abbrev pub is_other : ℕ → Bool
is_other code =
    if code == rcode_success
    then Bool.false
    else if code == rcode_name_error
    then Bool.false
    else if code == rcode_server_failure
    then Bool.false
    else Bool.true

-- What the counters hold after `cs`, from the counters before.
pub record IsAfter (cs : List Call) (r s : Registry) : Type 0 where
  pub total :
      s.requests_total % 2 ^ 64
      ≡ (r.requests_total + (sum_by udp_calls cs + sum_by tcp_calls cs)) % 2 ^ 64
  pub udp : s.requests_udp % 2 ^ 64 ≡ (r.requests_udp + sum_by udp_calls cs) % 2 ^ 64
  pub tcp : s.requests_tcp % 2 ^ 64 ≡ (r.requests_tcp + sum_by tcp_calls cs) % 2 ^ 64
  pub no_error :
      s.responses_no_error % 2 ^ 64
      ≡ (r.responses_no_error + sum_by (responses_with (λ c. c == rcode_success)) cs) % 2 ^ 64
  pub nxdomain :
      s.responses_nxdomain % 2 ^ 64
      ≡ (r.responses_nxdomain + sum_by (responses_with (λ c. c == rcode_name_error)) cs) % 2 ^ 64
  pub servfail :
      s.responses_servfail % 2 ^ 64
      ≡ (r.responses_servfail + sum_by (responses_with (λ c. c == rcode_server_failure)) cs)
        % 2 ^ 64
  pub other :
      s.responses_other % 2 ^ 64
      ≡ (r.responses_other + sum_by (responses_with is_other) cs) % 2 ^ 64
  pub latency_sum :
      s.upstream_latency_nanoseconds % 2 ^ 64
      ≡ (r.upstream_latency_nanoseconds + sum_by nanoseconds cs) % 2 ^ 64
  pub latency_samples :
      s.upstream_latency_samples % 2 ^ 64
      ≡ (r.upstream_latency_samples + sum_by samples cs) % 2 ^ 64

perform-IsAfter : (c : Call) (r : Registry) → IsAfter (c ∷ []) r (perform c r)
unfolding perform record_request_udp record_request_tcp record_response record_upstream_timeout
    record_upstream_error record_invalid_request record_response_write_error record_upstream_latency
    record_handler_panic
perform-IsAfter request_udp r = omega arith
perform-IsAfter (response code) r = ground arith
perform-IsAfter (latency n) r = ground arith
perform-IsAfter _ r = omega arith

perform_all-IsAfter : (cs : List Call) (r : Registry) → IsAfter cs r (perform_all cs r)
unfolding perform_all
perform_all-IsAfter [] r = omega arith
perform_all-IsAfter (c ∷ cs) r =
    omega (arith, perform-IsAfter c r, perform_all-IsAfter cs (perform c r))

-- Every counter of a registry that only the methods have written is a word.
record IsWords (r : Registry) : Type 0 where
  total : r.requests_total < 2 ^ 64
  udp : r.requests_udp < 2 ^ 64
  tcp : r.requests_tcp < 2 ^ 64
  no_error : r.responses_no_error < 2 ^ 64
  nxdomain : r.responses_nxdomain < 2 ^ 64
  servfail : r.responses_servfail < 2 ^ 64
  other : r.responses_other < 2 ^ 64
  latency_sum : r.upstream_latency_nanoseconds < 2 ^ 64
  latency_samples : r.upstream_latency_samples < 2 ^ 64

perform-IsWords : (c : Call) (r : Registry) → IsWords r → IsWords (perform c r)
unfolding perform record_request_udp record_request_tcp record_response record_upstream_timeout
    record_upstream_error record_invalid_request record_response_write_error record_upstream_latency
    record_handler_panic
perform-IsWords request_udp r w = omega arith
perform-IsWords (response code) r w = ground arith
perform-IsWords (latency n) r w = ground arith
perform-IsWords _ r w = omega arith

perform_all-IsWords : (cs : List Call) (r : Registry) → IsWords r → IsWords (perform_all cs r)
unfolding perform_all
perform_all-IsWords [] r w = w
perform_all-IsWords (c ∷ cs) r w = perform_all-IsWords cs (perform c r) (perform-IsWords c r w)

-- After any calls on a new registry the snapshot reports, modulo 2 ^ 64, how many requests came over
-- each network, how many responses had each class of code, the sum of the recorded latencies and
-- their number; and the total is the sum of the two networks.
pub snapshot_counts :
    (cs : List Call)
    → let s = snapshot (perform_all cs empty) in
      (s.requests_udp ≡ sum_by udp_calls cs % 2 ^ 64)
      × (s.requests_tcp ≡ sum_by tcp_calls cs % 2 ^ 64)
      × (s.requests_total ≡ (s.requests_udp + s.requests_tcp) % 2 ^ 64)
      × (s.responses_no_error ≡ sum_by (responses_with (λ c. c == rcode_success)) cs % 2 ^ 64)
      × (s.responses_nxdomain ≡ sum_by (responses_with (λ c. c == rcode_name_error)) cs % 2 ^ 64)
      × (s.responses_servfail
          ≡ sum_by (responses_with (λ c. c == rcode_server_failure)) cs % 2 ^ 64)
      × (s.responses_other ≡ sum_by (responses_with is_other) cs % 2 ^ 64)
      × (s.total_upstream_latency ≡ sum_by nanoseconds cs % 2 ^ 64)
      × (s.upstream_latency_samples ≡ sum_by samples cs % 2 ^ 64)
unfolding snapshot
snapshot_counts cs =
    omega (arith, perform_all-IsAfter cs empty, perform_all-IsWords cs empty (omega arith))

-- The recorded latencies of the calls lie between `lo` and `hi`.
abbrev pub IsBetween : ℕ → ℕ → Call → Type 0
IsBetween lo hi c = (lo * samples c ≤ nanoseconds c) × (nanoseconds c ≤ hi * samples c)

sum_bounds :
    (lo hi : ℕ) (cs : List Call)
    → All (IsBetween lo hi) cs
    → (lo * sum_by samples cs ≤ sum_by nanoseconds cs)
      × (sum_by nanoseconds cs ≤ hi * sum_by samples cs)
sum_bounds lo hi [] h = omega arith
sum_bounds lo hi (c ∷ cs) h = omega (arith, sum_bounds lo hi cs h.1)

div_bounds : (lo hi s n : ℕ) → 0 < n → lo * n ≤ s → s ≤ hi * n → (lo ≤ s / n) × (s / n ≤ hi)
div_bounds lo hi s n p a b = grind arith

snapshot_average :
    (r : Registry) (total n : ℕ)
    → r.upstream_latency_nanoseconds ≡ total
    → r.upstream_latency_samples ≡ n
    → 0 < n
    → n < 2 ^ 63
    → total < 2 ^ 63
    → (snapshot r).average_upstream_latency ≡ total / n
unfolding snapshot
snapshot_average r total n e f p few small =
    rw (e, f) (ground (arith, div_signed_nonneg total n small few))

-- While the latencies recorded on a new registry add up to less than 2 ^ 63 nanoseconds, and are
-- fewer than 2 ^ 63 but at least one, the average of the snapshot lies between bounds of them all.
pub average_bounds :
    (cs : List Call) (lo hi : ℕ)
    → All (IsBetween lo hi) cs
    → 0 < sum_by samples cs
    → sum_by samples cs < 2 ^ 63
    → sum_by nanoseconds cs < 2 ^ 63
    → let average = (snapshot (perform_all cs empty)).average_upstream_latency in
      (lo ≤ average) × (average ≤ hi)
average_bounds cs lo hi h some_sample few small =
    let counted = perform_all-IsAfter cs empty in
    let words = perform_all-IsWords cs empty (omega arith) in
    let bounds = sum_bounds lo hi cs h in
    let exact =
      snapshot_average (perform_all cs empty) (sum_by nanoseconds cs) (sum_by samples cs)
        (omega arith) (omega arith) some_sample few small in
    rw exact (div_bounds lo hi _ _ some_sample bounds.0 bounds.1)
