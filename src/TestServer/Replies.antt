-- ===== src/TestServer/Replies.antt =====
-- dns/internal/testutil/dnstest/server.go with dns/internal/upstream/client.go: what the upstream client
-- gets from the test server.
use homedns_analytics.Common.{
  ℕ, ◌+◌, Bool, true, false, ◌&&◌, none, some, if◌then◌else◌, ltb, not, ◌||◌, GoError,
}
use homedns_analytics.Messages.{MsgOps}
use homedns_analytics.Upstream.{Network, udp, tcp, other, Wire}
use homedns_analytics.TestServer.{ReplyOps, handle_request}
use homedns_analytics.TestServer.Answers.{ReplyLaws, is_long}

-- The error of a network operation that timed out.
abbrev pub timed_out : GoError
timed_out = record { deadline_exceeded = false; canceled = false; net_error = some true }

abbrev pub is_datagram_or_stream : Network → Bool
is_datagram_or_stream udp = true
is_datagram_or_stream tcp = true
is_datagram_or_stream (other name) = false

module _ {M : Type 0} (msgs : MsgOps M) (ops : ReplyOps M) (laws : ReplyLaws msgs ops) where
  -- The response to a request: its identifier, and truncated over UDP for the long answer only.
  abbrev pub is_short : Bool → M → Bool
  is_short is_udp request = elim (ops.first_question request) [
    | none ↦ false
    | some q ↦ is_udp && is_long msgs ops laws q
  ]

  -- The test server as the resolver behind a client with a timeout, with `spent` on the way: an attempt
  -- that is not over by the timeout gives no response, and the error of a connection that timed out.
  abbrev pub took : (Bool → M → ℕ) → Bool → M → ℕ
  took spent is_udp request = (handle_request ops is_udp request).0 + spent is_udp request

  abbrev pub attempt : (Bool → M → ℕ) → ℕ → Bool → M → Wire M
  attempt spent timeout is_udp request =
      if ltb (took spent is_udp request) timeout
      then record {
        response = some (handle_request ops is_udp request).1;
        error = none;
        elapsed = took spent is_udp request;
      }
      else record { response = none; error = some timed_out; elapsed = timeout }

  abbrev pub served : (Bool → M → ℕ) → ℕ → Network → M → Wire M
  served spent timeout tcp request = attempt spent timeout false request
  served spent timeout _ request = attempt spent timeout true request

  -- Every attempt that the request needs is over before the timeout: the one over its network and, for a
  -- truncated response over UDP, the one over TCP.
  abbrev pub is_in_time : (Bool → M → ℕ) → ℕ → Network → M → Bool
  is_in_time spent timeout udp request =
      ltb (took spent true request) timeout
      && (not (is_short true request) || ltb (took spent false request) timeout)
  is_in_time spent timeout _ request = ltb (took spent false request) timeout
