-- ===== src/Upstream.antt =====
-- dns/internal/upstream: the client that forwards a DNS request to the upstream resolver
-- (client.go), the interface that it implements (forwarder.go) and its errors (error.go).
pub mod Fallback
mod Samples
use Prim.Native.String.{String}
use homedns_analytics.Common.{
  ℕ, Bool, true, false, Option, none, some, GoError, add64, if◌then◌else◌,
}
use homedns_analytics.Messages.{MsgOps}

-- `Network` is a string type; `other` is any third string.
pub data Network : Type 0 where
  udp tcp : Network
  other : String → Network

-- What a call of `Exchange` does: it returns a response, a latency and an error, or it panics.
pub data Exchanged (M : Type 0) : Type 0 where
  returned : Option M → ℕ → Option GoError → Exchanged M
  exchange_panics : Exchanged M

-- The interface `Forwarder`, for one background context.
abbrev pub Forwarder : Type 0 → Type 0
Forwarder M = M → Network → Exchanged M

-- `ErrNilRequest`, `ErrUnsupportedNetwork` (wrapped) and `ErrNilResponse` are plain errors.
abbrev pub plain_error : GoError
plain_error = record { deadline_exceeded = false; canceled = false; net_error = none }

abbrev net_timeout : Option Bool → Bool
net_timeout none = false
net_timeout (some timeout) = timeout

unfoldable pub is_timeout : GoError → Bool
is_timeout e = if e.deadline_exceeded then true else net_timeout e.net_error

-- What `dns.Client.ExchangeContext` does over a network: a response, an error, and the time that
-- `time.Since` measures around it. The library and the resolver behind it are an argument.
pub record Wire (M : Type 0) : Type 0 where
  pub response : Option M
  pub error : Option GoError
  pub elapsed : ℕ

-- The method `exchange`, which dials over the network given: an error is wrapped, and a nil response is an error.
unfoldable pub exchange_once : {M : Type 0} → Option M → Option GoError → Option M × Option GoError
exchange_once response (some e) = (none, some e)
exchange_once none none = (none, some plain_error)
exchange_once (some response) none = (some response, none)

module _ {M : Type 0} (ops : MsgOps M) (dial : Network → M → Wire M) where
  -- The retry over TCP, with the time already spent.
  unfoldable pub retry_tcp : M → ℕ → Exchanged M
  unfolding exchange_once
  retry_tcp request spent =
      let wire = dial tcp request in
      let duration = add64 spent wire.elapsed in
      let (response, e) = exchange_once wire.response wire.error in
      elim e [
        | some err ↦ returned none duration (some err)
        | none ↦ returned response duration none
      ]

  -- A response over UDP that is truncated is asked for again over TCP.
  unfoldable pub accept : Network → M → M → ℕ → Exchanged M
  unfolding retry_tcp
  accept udp request response duration =
      if ops.truncated response
      then retry_tcp request duration
      else returned (some response) duration none
  accept _ request response duration = returned (some response) duration none

  -- What follows the first attempt, from its response, its error and the time that it took.
  unfoldable pub settle : Network → M → Option M × Option GoError → ℕ → Exchanged M
  unfolding accept
  settle network request (response, some e) duration = returned none duration (some e)
  settle network request (none, none) duration = returned none duration none
  settle network request (some response, none) duration = accept network request response duration

  unfoldable pub exchange_over : Network → M → Exchanged M
  unfolding exchange_once settle
  exchange_over network request =
      let wire = dial network request in
      settle network request (exchange_once wire.response wire.error) wire.elapsed

  -- `Client.Exchange`; the request is a pointer.
  unfoldable pub exchange : Option M → Network → Exchanged M
  unfolding exchange_over
  exchange none network = returned none 0 (some plain_error)
  exchange (some request) (other name) = returned none 0 (some plain_error)
  exchange (some request) udp = exchange_over udp request
  exchange (some request) tcp = exchange_over tcp request

  -- The client as the forwarder of a handler, which passes no nil request.
  unfoldable pub client : Forwarder M
  unfolding exchange
  client request network = exchange (some request) network
