-- ===== src/Upstream/Fallback.antt =====
-- dns/internal/upstream/client.go: where a response of the client comes from.
use homedns_analytics.Common.{
  ℕ, ◌≡◌, true, false, Option, none, some, GoError, add64, Bool-cases, refl, ◌⊎◌, inl, inr, arith,
}
use homedns_analytics.Messages.{MsgOps}
use homedns_analytics.Upstream.{
  Network, udp, tcp, other, Exchanged, returned, Wire, exchange_once, retry_tcp, accept, settle,
  client,
}

module _ {M : Type 0} (ops : MsgOps M) (dial : Network → M → Wire M) where
  -- Either a response or an error.
  abbrev pub IsSettled : Exchanged M → Type 0
  IsSettled (returned (some response) duration none) = Unit
  IsSettled (returned none duration (some e)) = Unit
  IsSettled _ = ⊥

  -- The client never panics, and returns a response or an error, never both and never neither: the
  -- branch of the handler for a nil response is dead with this forwarder.
  pub client-IsSettled :
      (request : M) (network : Network) → IsSettled (client ops dial request network)
  unfolding client
  client-IsSettled request udp = ground arith
  client-IsSettled request tcp = ground arith
  client-IsSettled request (other name) = tt

  -- A response over a network that the client accepted at once.
  pub record IsDirect (request : M) (network : Network) (response : M) (duration : ℕ) : Type 0 where
    pub answered : (dial network request).response ≡ some response
    pub no_error : (dial network request).error ≡ none
    pub whole : network ≡ udp → ops.truncated response ≡ false
    pub timed : duration ≡ (dial network request).elapsed

  -- A response of the second attempt, over TCP.
  pub record IsRetried (request : M) (network : Network) (response : M) (duration : ℕ)
      : Type 0 where
    pub first_udp : network ≡ udp
    pub first : M
    pub first_answered : (dial udp request).response ≡ some first
    pub cut_short : ops.truncated first ≡ true
    pub answered : (dial tcp request).response ≡ some response
    pub no_error : (dial tcp request).error ≡ none
    pub timed : duration ≡ add64 (dial udp request).elapsed (dial tcp request).elapsed

  retry_tcp_source :
      (request response : M) (spent duration : ℕ)
      → retry_tcp ops dial request spent ≡ returned (some response) duration none
      → ((dial tcp request).response ≡ some response)
        × ((dial tcp request).error ≡ none)
        × (duration ≡ add64 spent (dial tcp request).elapsed)
  unfolding retry_tcp
  retry_tcp_source request response spent duration h = ground arith

  -- `direct` is the first attempt over any network but a truncated one over UDP.
  IsDirect-source :
      (network : Network) (request first response : M) (spent duration : ℕ)
      → (dial network request).response ≡ some first
      → (dial network request).error ≡ none
      → spent ≡ (dial network request).elapsed
      → (network ≡ udp → ops.truncated first ≡ false)
      → returned (some first) spent none ≡ returned (some response) duration none
      → IsDirect request network response duration
  IsDirect-source network request first response spent duration p q t whole h = record {
    answered = cc;
    no_error = q;
    whole = λ e. ground (arith, whole e);
    timed = cc;
  }

  accept_source :
      (request first response : M) (spent duration : ℕ)
      → (dial udp request).response ≡ some first
      → (dial udp request).error ≡ none
      → spent ≡ (dial udp request).elapsed
      → accept ops dial udp request first spent ≡ returned (some response) duration none
      → IsDirect request udp response duration ⊎ IsRetried request udp response duration
  unfolding accept
  accept_source request first response spent duration p q t h =
      elim (Bool-cases (ops.truncated first)) [
        | inl cut ↦
            let (answered, no_error, timed) =
              retry_tcp_source request response spent duration (rw cut at h) in
            inr (record {
              first_udp = refl;
              first = first;
              first_answered = p;
              cut_short = cut;
              answered = answered;
              no_error = no_error;
              timed = rw (← t) timed;
            })
        | inr whole ↦ inl (
            IsDirect-source udp request first response spent duration p q t (λ e. whole)
              (rw whole at h))
      ]

  settle_source :
      (network : Network) (request response : M) (duration : ℕ) (first : Option M)
      (e : Option GoError)
      → (dial network request).response ≡ first
      → (dial network request).error ≡ e
      → settle ops dial network request (exchange_once first e) (dial network request).elapsed
        ≡ returned (some response) duration none
      → IsDirect request network response duration ⊎ IsRetried request network response duration
  unfolding settle exchange_once
  settle_source network request response duration none none p q h = cc h
  settle_source network request response duration none (some e) p q h = cc h
  settle_source network request response duration (some first) (some e) p q h = cc h
  settle_source udp request response duration (some first) none p q h =
      accept_source request first response _ duration p q refl h
  settle_source tcp request response duration (some first) none p q h =
      inl (IsDirect-source tcp request first response _ duration p q refl (λ e. cc e) h)
  settle_source (other name) request response duration (some first) none p q h =
      inl (IsDirect-source (other name) request first response _ duration p q refl (λ e. cc e) h)

  -- A response of the client came straight from the network asked for, and is whole if that is UDP,
  -- or it came over TCP after a truncated response over UDP; the duration covers all attempts.
  pub client_source :
      (request : M) (network : Network) (response : M) (duration : ℕ)
      → client ops dial request network ≡ returned (some response) duration none
      → IsDirect request network response duration ⊎ IsRetried request network response duration
  unfolding client
  client_source request udp response duration h =
      settle_source udp request response duration _ _ refl refl h
  client_source request tcp response duration h =
      settle_source tcp request response duration _ _ refl refl h
  client_source request (other name) response duration h = cc h
