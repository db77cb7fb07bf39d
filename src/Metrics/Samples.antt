-- ===== src/Metrics/Samples.antt =====
-- The metrics at concrete inputs.
use mathlib.Core.List.Perm
use homedns_analytics.Common.{◌≡◌, refl, List, [], ◌∷◌, div_signed, ◌^◌}
use homedns_analytics.Metrics.{
  Call, empty, request_udp, request_tcp, response, latency, perform_all, snapshot, record_response,
  record_upstream_latency, perform,
}
use homedns_analytics.Metrics.Order.{
  Addition, total, udp, tcp, add_all, additions, additions_of, add_all-eq-perform_all,
}

abbrev two_requests : List Call
two_requests = request_udp ∷ request_tcp ∷ []

-- The two handlers alternate between their additions.
abbrev interleaved : List Addition
interleaved = (total, 1) ∷ (total, 1) ∷ (udp, 1) ∷ (tcp, 1) ∷ []

add_all-eq-perform_all_example : add_all interleaved empty ≡ perform_all two_requests empty
unfolding additions_of additions
add_all-eq-perform_all_example =
    add_all-eq-perform_all interleaved two_requests empty
      (Perm.cons (total, 1) (Perm.swap (udp, 1) (total, 1) ((tcp, 1) ∷ [])))

abbrev three_latencies : List Call
three_latencies = latency 30 ∷ response 0 ∷ latency 40 ∷ latency 41 ∷ latency (2 ^ 63) ∷ []

average : (snapshot (perform_all three_latencies empty)).average_upstream_latency ≡ 37
unfolding snapshot perform_all perform record_upstream_latency record_response div_signed
average = refl
