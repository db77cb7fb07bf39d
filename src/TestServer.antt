-- ===== src/TestServer.antt =====
-- dns/internal/testutil/dnstest/server.go: the deterministic DNS server that the tests of the program run
-- against. Of github.com/miekg/dns it uses messages, told here by what is done to them.
pub mod Answers
pub mod Replies
mod Samples
use Prim.Native.String.{String}
use text.Mathlib.Text.{◌==◌ as str_eq}
use homedns_analytics.Common.{
  ℕ, Bool, true, false, ◌&&◌, ◌||◌, not, Option, none, some, List, [], ◌∷◌, GoError, Result, ok,
  err, ◌==◌, is_some, if◌then◌else◌,
}
use homedns_analytics.Upstream.{Network, udp, tcp, Wire}

-- `dns.Question`
pub record Question : Type 0 where
  pub name : String
  pub type : ℕ

-- A resource record of the server, of class INET with a time to live of 60 seconds.
pub data Answer : Type 0 where
  record_a record_aaaa record_cname : (name target : String) → Answer
  record_mx : (name : String) → (preference : ℕ) → (host : String) → Answer

-- `Question[0]`, `SetReply`, and the assignments of the handler, over a type of messages; `canonical` is
-- `dns.CanonicalName`.
pub record ReplyOps (M : Type 0) : Type 0 where
  pub first_question : M → Option Question
  pub canonical : String → String
  pub set_reply : M → M
  pub set_authoritative : M → M
  pub set_rcode : ℕ → M → M
  pub set_truncated : M → M
  pub add_answer : Answer → M → M

abbrev pub type_a : ℕ
type_a = 1

abbrev pub type_cname : ℕ
type_cname = 5

abbrev pub type_mx : ℕ
type_mx = 15

abbrev pub type_aaaa : ℕ
type_aaaa = 28

module _ {M : Type 0} (ops : ReplyOps M) where
  open ops use {add_answer, set_rcode, set_truncated}

  unfoldable pub add_example_answer : Question → M → M
  add_example_answer q m =
      if q.type == type_a
      then add_answer (record_a "example.test." "192.0.2.10") m
      else if q.type == type_aaaa
      then add_answer (record_aaaa "example.test." "2001:db8::10") m
      else m

  unfoldable pub add_alias_answer : Question → M → M
  add_alias_answer q m =
      if not (q.type == type_a) && not (q.type == type_cname)
      then m
      else let m' = add_answer (record_cname "alias.test." "example.test.") m in
        if q.type == type_a then add_answer (record_a "example.test." "192.0.2.10") m' else m'

  unfoldable pub add_mail_answer : Question → M → M
  add_mail_answer q m =
      if not (q.type == type_mx)
      then m
      else add_answer (record_mx "mail.test." 10 "mailhost.test.") m

  unfoldable pub add_mail_host_answer : Question → M → M
  add_mail_host_answer q m =
      if not (q.type == type_a) then m else add_answer (record_a "mailhost.test." "192.0.2.20") m

  unfoldable pub add_slow_answer : Question → M → M
  add_slow_answer q m =
      if not (q.type == type_a) then m else add_answer (record_a "slow.test." "192.0.2.10") m

  unfoldable pub add_truncated_answer : Bool → Question → M → M
  add_truncated_answer is_udp q m =
      if not (q.type == type_a)
      then m
      else if is_udp
      then set_truncated m
      else add_answer (record_a "truncated.test." "192.0.2.10") m

  -- The `switch` on the canonical name.
  unfoldable pub answer_question : Bool → Question → String → M → M
  unfolding add_example_answer add_alias_answer add_mail_answer add_mail_host_answer add_slow_answer
      add_truncated_answer
  answer_question is_udp q name m =
      if str_eq name "example.test."
      then add_example_answer q m
      else if str_eq name "alias.test."
      then add_alias_answer q m
      else if str_eq name "mail.test."
      then add_mail_answer q m
      else if str_eq name "mailhost.test."
      then add_mail_host_answer q m
      else if str_eq name "slow.test."
      then add_slow_answer q m
      else if str_eq name "servfail.test."
      then set_rcode 2 m
      else if str_eq name "nxdomain.test."
      then set_rcode 3 m
      else if str_eq name "truncated.test."
      then add_truncated_answer is_udp q m
      else set_rcode 3 m

  -- `handleRequest`: the time that it sleeps, in nanoseconds, and the one response that it writes.
  unfoldable pub handle_request : Bool → M → ℕ × M
  unfolding answer_question
  handle_request is_udp request =
      let m = ops.set_authoritative (ops.set_reply request) in
      elim (ops.first_question request) [
        | none ↦ (0, set_rcode 1 m)
        | some q ↦
            let name = ops.canonical q.name in
            (if str_eq name "slow.test." then 250_000_000 else 0, answer_question is_udp q name m)
      ]

-- `Shutdown` under `sync.Once`: whether it has run, and the errors of the two listeners.
pub data ShutdownError : Type 0 where
  both : GoError → GoError → ShutdownError
  udp_failed tcp_failed : GoError → ShutdownError

abbrev joined : Option GoError → Option GoError → Option ShutdownError
joined none none = none
joined (some u) none = some (udp_failed u)
joined none (some t) = some (tcp_failed t)
joined (some u) (some t) = some (both u t)

unfoldable pub shutdown : Bool → Option GoError → Option GoError → Bool × Option ShutdownError
shutdown true udp_error tcp_error = (true, none)
shutdown false udp_error tcp_error = (true, joined udp_error tcp_error)

-- `isReady`, from what the client's exchange gives and the code of a response.
unfoldable pub is_ready : {M : Type 0} → (M → ℕ) → Wire M → Bool
is_ready rcode w = elim w.error [
  | some e ↦ false
  | none ↦ elim w.response [ none ↦ false | some m ↦ rcode m == 0 ]
]

-- One turn of `waitUntilReady`: the two probes, an error of a listener, and whether the time is up.
pub record Turn : Type 0 where
  pub udp_ready : Bool
  pub tcp_ready : Bool
  pub listener_error : Option GoError
  pub is_late : Bool

pub data Waiting : Type 0 where
  ready : Waiting
  failed : GoError → Waiting
  too_late : Waiting
  still_waiting : Waiting

-- `waitUntilReady` over the turns that it takes.
unfoldable pub wait_until_ready : List Turn → Waiting
wait_until_ready [] = still_waiting
wait_until_ready (t ∷ ts) =
    let rest = wait_until_ready ts in
    if t.udp_ready && t.tcp_ready
    then ready
    else elim t.listener_error [ some e ↦ failed e | none ↦ if t.is_late then too_late else rest ]
