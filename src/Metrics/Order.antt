-- ===== src/Metrics/Order.antt =====
-- dns/internal/metrics/metrics.go, under concurrent handlers: the counters do not depend on the
-- order of the calls. A method is a sequence of atomic additions, and those of several goroutines
-- interleave; every order of the additions leaves the same registry.
use mathlib.Core.Path.{ap₂}
use mathlib.Core.Logic.{∥∥₁_elim}
use mathlib.Core.List.{Perm, Permᴰ}
use homedns_analytics.Common.{
  ℕ, ◌≡◌, refl, sym, ap, ◌∙◌, List, [], ◌∷◌, ◌++◌, arith, add64, is_negative, ◌==◌, if◌then◌else◌,
}
use homedns_analytics.Metrics.{
  Registry, Call, request_udp, request_tcp, upstream_timeout, upstream_error, invalid_request,
  write_error, panic, response, latency, perform, perform_all, rcode_success, rcode_name_error,
  rcode_server_failure, record_request_udp, record_request_tcp, record_response,
  record_upstream_timeout, record_upstream_error, record_invalid_request,
  record_response_write_error, record_upstream_latency, record_handler_panic,
}

-- The fourteen `atomic.Uint64` fields.
pub data Counter : Type 0 where
  total udp tcp no_error nxdomain servfail other timeouts errors invalid : Counter
  write_errors latency_sum latency_samples panics : Counter

-- `Add(n)` on one counter.
abbrev pub Addition : Type 0
Addition = Counter × ℕ

unfoldable pub add : Addition → Registry → Registry
add (total, n) r = record r { requests_total = add64 r.requests_total n }
add (udp, n) r = record r { requests_udp = add64 r.requests_udp n }
add (tcp, n) r = record r { requests_tcp = add64 r.requests_tcp n }
add (no_error, n) r = record r { responses_no_error = add64 r.responses_no_error n }
add (nxdomain, n) r = record r { responses_nxdomain = add64 r.responses_nxdomain n }
add (servfail, n) r = record r { responses_servfail = add64 r.responses_servfail n }
add (other, n) r = record r { responses_other = add64 r.responses_other n }
add (timeouts, n) r = record r { upstream_timeouts = add64 r.upstream_timeouts n }
add (errors, n) r = record r { upstream_errors = add64 r.upstream_errors n }
add (invalid, n) r = record r { invalid_requests = add64 r.invalid_requests n }
add (write_errors, n) r = record r { response_write_errors = add64 r.response_write_errors n }
add (latency_sum, n) r = record r {
  upstream_latency_nanoseconds = add64 r.upstream_latency_nanoseconds n;
}
add (latency_samples, n) r = record r {
  upstream_latency_samples = add64 r.upstream_latency_samples n;
}
add (panics, n) r = record r { handler_panics = add64 r.handler_panics n }

unfoldable pub add_all : List Addition → Registry → Registry
add_all [] r = r
add_all (a ∷ as') r = add_all as' (add a r)

abbrev response_counter : ℕ → Counter
response_counter code =
    if code == rcode_success
    then no_error
    else if code == rcode_name_error
    then nxdomain
    else if code == rcode_server_failure
    then servfail
    else other

-- The additions of one call, in the order of the source.
unfoldable pub additions : Call → List Addition
additions request_udp = (total, 1) ∷ (udp, 1) ∷ []
additions request_tcp = (total, 1) ∷ (tcp, 1) ∷ []
additions upstream_timeout = (timeouts, 1) ∷ []
additions upstream_error = (errors, 1) ∷ []
additions invalid_request = (invalid, 1) ∷ []
additions write_error = (write_errors, 1) ∷ []
additions panic = (panics, 1) ∷ []
additions (response code) = (response_counter code, 1) ∷ []
additions (latency n) = if is_negative n then [] else (latency_sum, n) ∷ (latency_samples, 1) ∷ []

unfoldable pub additions_of : List Call → List Addition
additions_of [] = []
additions_of (c ∷ cs) = additions c ++ additions_of cs

-- A call performs its additions.
perform-add_all : (c : Call) (r : Registry) → perform c r ≡ add_all (additions c) r
unfolding perform add_all add additions record_request_udp record_request_tcp record_response
    record_upstream_timeout record_upstream_error record_invalid_request record_response_write_error
    record_upstream_latency record_handler_panic
perform-add_all request_udp r = refl
perform-add_all (response code) r = ground arith
perform-add_all (latency n) r = ground arith
perform-add_all _ r = refl

add_all-append :
    (xs ys : List Addition) (r : Registry) → add_all (xs ++ ys) r ≡ add_all ys (add_all xs r)
unfolding add_all
add_all-append [] ys r = refl
add_all-append (x ∷ xs) ys r = add_all-append xs ys (add x r)

perform_all-add_all :
    (cs : List Call) (r : Registry) → perform_all cs r ≡ add_all (additions_of cs) r
unfolding perform_all add_all additions_of
perform_all-add_all [] r = refl
perform_all-add_all (c ∷ cs) r =
    rw (perform-add_all c r, add_all-append (additions c) (additions_of cs) r)
      (perform_all-add_all cs (add_all (additions c) r))

add64_swap : (a m n : ℕ) → add64 (add64 a m) n ≡ add64 (add64 a n) m
add64_swap a m n = omega arith

add_swap : (a b : Addition) (r : Registry) → add b (add a r) ≡ add a (add b r)
unfolding add
add_swap (total, m) (total, n) r =
    ap (λ x. record r { requests_total = x }) (add64_swap r.requests_total m n)
add_swap (udp, m) (udp, n) r =
    ap (λ x. record r { requests_udp = x }) (add64_swap r.requests_udp m n)
add_swap (tcp, m) (tcp, n) r =
    ap (λ x. record r { requests_tcp = x }) (add64_swap r.requests_tcp m n)
add_swap (no_error, m) (no_error, n) r =
    ap (λ x. record r { responses_no_error = x }) (add64_swap r.responses_no_error m n)
add_swap (nxdomain, m) (nxdomain, n) r =
    ap (λ x. record r { responses_nxdomain = x }) (add64_swap r.responses_nxdomain m n)
add_swap (servfail, m) (servfail, n) r =
    ap (λ x. record r { responses_servfail = x }) (add64_swap r.responses_servfail m n)
add_swap (other, m) (other, n) r =
    ap (λ x. record r { responses_other = x }) (add64_swap r.responses_other m n)
add_swap (timeouts, m) (timeouts, n) r =
    ap (λ x. record r { upstream_timeouts = x }) (add64_swap r.upstream_timeouts m n)
add_swap (errors, m) (errors, n) r =
    ap (λ x. record r { upstream_errors = x }) (add64_swap r.upstream_errors m n)
add_swap (invalid, m) (invalid, n) r =
    ap (λ x. record r { invalid_requests = x }) (add64_swap r.invalid_requests m n)
add_swap (write_errors, m) (write_errors, n) r =
    ap (λ x. record r { response_write_errors = x }) (add64_swap r.response_write_errors m n)
add_swap (latency_sum, m) (latency_sum, n) r =
    ap (λ x. record r { upstream_latency_nanoseconds = x })
      (add64_swap r.upstream_latency_nanoseconds m n)
add_swap (latency_samples, m) (latency_samples, n) r =
    ap (λ x. record r { upstream_latency_samples = x }) (add64_swap r.upstream_latency_samples m n)
add_swap (panics, m) (panics, n) r =
    ap (λ x. record r { handler_panics = x }) (add64_swap r.handler_panics m n)
add_swap (c, m) (d, n) r = refl

Registry-set : IsSet Registry
Registry-set = hlevel

add_all-Permᴰ : {xs ys : List Addition} → Permᴰ xs ys → (r : Registry) → add_all xs r ≡ add_all ys r
unfolding add_all
add_all-Permᴰ Permᴰ.nil r = refl
add_all-Permᴰ (Permᴰ.cons {b = b} {l₁ = xs} e p) r =
    ap (λ a. add_all xs (add a r)) e ∙ add_all-Permᴰ p (add b r)
add_all-Permᴰ (Permᴰ.swap {a = a} {b = b} {l = l} e f) r =
    ap (add_all l) (add_swap a b r) ∙ ap₂ (λ x y. add_all l (add y (add x r))) f e
add_all-Permᴰ (Permᴰ.trans p q) r = add_all-Permᴰ p r ∙ add_all-Permᴰ q r

-- Whatever the order in which the atomic additions of some calls reach the registry, it ends in the
-- state that the calls made one after the other leave.
pub add_all-eq-perform_all :
    (xs : List Addition) (cs : List Call) (r : Registry)
    → Perm xs (additions_of cs)
    → add_all xs r ≡ perform_all cs r
add_all-eq-perform_all xs cs r p =
    ∥∥₁_elim p (Registry-set _ _) (λ q. add_all-Permᴰ q r) ∙ sym (perform_all-add_all cs r)
