-- ===== src/TestServer/Answers.antt =====
-- dns/internal/testutil/dnstest/server.go: what the answers of the test server do to a response.
use Prim.Native.String.{String}
use text.Mathlib.Text.{◌==◌ as str_eq}
use text.Mathlib.TextEquality.{eq_iff}
use homedns_analytics.Common.{
  ℕ, ◌≡◌, refl, ap, ◌∙◌, Bool, Bool-cases, true, false, ◌&&◌, inl, inr, ◌==◌, if◌then◌else◌,
}
use homedns_analytics.Messages.{MsgOps}
use homedns_analytics.TestServer.{
  Question, Answer, ReplyOps, type_a, answer_question, add_example_answer, add_alias_answer,
  add_mail_answer, add_mail_host_answer, add_slow_answer, add_truncated_answer,
}

-- A reply has the identifier of its request and is not truncated; the other assignments change neither.
pub record ReplyLaws {M : Type 0} (msgs : MsgOps M) (ops : ReplyOps M) : Type 0 where
  pub id-set_reply : (m : M) → msgs.id (ops.set_reply m) ≡ msgs.id m
  pub truncated-set_reply : (m : M) → msgs.truncated (ops.set_reply m) ≡ false
  pub id-set_authoritative : (m : M) → msgs.id (ops.set_authoritative m) ≡ msgs.id m
  pub truncated-set_authoritative :
      (m : M) → msgs.truncated (ops.set_authoritative m) ≡ msgs.truncated m
  pub id-set_rcode : (c : ℕ) (m : M) → msgs.id (ops.set_rcode c m) ≡ msgs.id m
  pub truncated-set_rcode : (c : ℕ) (m : M) → msgs.truncated (ops.set_rcode c m) ≡ msgs.truncated m
  pub id-set_truncated : (m : M) → msgs.id (ops.set_truncated m) ≡ msgs.id m
  pub truncated-set_truncated : (m : M) → msgs.truncated (ops.set_truncated m) ≡ true
  pub id-add_answer : (a : Answer) (m : M) → msgs.id (ops.add_answer a m) ≡ msgs.id m
  pub truncated-add_answer :
      (a : Answer) (m : M) → msgs.truncated (ops.add_answer a m) ≡ msgs.truncated m

module _ {M : Type 0} (msgs : MsgOps M) (ops : ReplyOps M) (laws : ReplyLaws msgs ops) where
  -- A question that the server answers in full over TCP only.
  abbrev pub is_long : Question → Bool
  is_long q = str_eq (ops.canonical q.name) "truncated.test." && q.type == type_a

  -- Two messages of one identifier.
  abbrev pub Kept : M → M → Type 0
  Kept m m' = (msgs.id m' ≡ msgs.id m) × (msgs.truncated m' ≡ msgs.truncated m)

  add_answer-Kept : (a : Answer) (m : M) → Kept m (ops.add_answer a m)
  add_answer-Kept a m = (laws.id-add_answer a m, laws.truncated-add_answer a m)

  set_rcode-Kept : (c : ℕ) (m : M) → Kept m (ops.set_rcode c m)
  set_rcode-Kept c m = (laws.id-set_rcode c m, laws.truncated-set_rcode c m)

  if-Kept : (b : Bool) (m x y : M) → Kept m x → Kept m y → Kept m (if b then x else y)
  if-Kept true m x y p q = p
  if-Kept false m x y p q = q

  example-Kept : (q : Question) (m : M) → Kept m (add_example_answer ops q m)
  unfolding add_example_answer
  example-Kept q m =
      if-Kept (q.type == type_a) m _ _ (add_answer-Kept _ m)
        (if-Kept _ m _ m (add_answer-Kept _ m) (refl, refl))

  alias-Kept : (q : Question) (m : M) → Kept m (add_alias_answer ops q m)
  unfolding add_alias_answer
  alias-Kept q m =
      let (i, t) = add_answer-Kept (Answer.record_cname "alias.test." "example.test.") m in
      let (i', t') =
        add_answer-Kept (Answer.record_a "example.test." "192.0.2.10")
          (ops.add_answer (Answer.record_cname "alias.test." "example.test.") m) in
      if-Kept _ m m _ (refl, refl) (if-Kept (q.type == type_a) m _ _ (i' ∙ i, t' ∙ t) (i, t))

  when-Kept : (b : Bool) (c : Answer) (m : M) → Kept m (if b then m else ops.add_answer c m)
  when-Kept b c m = if-Kept b m m _ (refl, refl) (add_answer-Kept c m)

  -- What the answers to other names keep.
  abbrev pub Same : Bool → M → M → Type 0
  Same b m m' =
      (msgs.id m' ≡ msgs.id m) × (msgs.truncated m' ≡ (if b then true else msgs.truncated m))

  if-Same :
      (b long : Bool) (m x y : M)
      → (b ≡ true → Same long m x)
      → (b ≡ false → Same long m y)
      → Same long m (if b then x else y)
  if-Same true long m x y p q = p refl
  if-Same false long m x y p q = q refl

  long-Same :
      (is_udp : Bool) (q : Question) (m : M)
      → Same (is_udp && q.type == type_a) m (add_truncated_answer ops is_udp q m)
  unfolding add_truncated_answer
  long-Same true q m = elim (Bool-cases (q.type == type_a)) [
    | inl e ↦ rw e (laws.id-set_truncated m, laws.truncated-set_truncated m)
    | inr e ↦ rw e (refl, refl)
  ]
  long-Same false q m = when-Kept _ _ m

  -- Names other than the long one.
  other-Same :
      (is_udp : Bool) (name : String) (q : Question) (m m' : M)
      → str_eq name "truncated.test." ≡ false
      → Kept m m'
      → Same (is_udp && (str_eq name "truncated.test." && q.type == type_a)) m m'
  other-Same true name q m m' e k = rw e k
  other-Same false name q m m' e k = k

  differs :
      (name fixed : String)
      → str_eq name fixed ≡ true
      → str_eq fixed "truncated.test." ≡ false
      → str_eq name "truncated.test." ≡ false
  differs name fixed e f = ap (λ s. str_eq s "truncated.test.") ((eq_iff name fixed).0 e) ∙ f

  pub answer_question-Same :
      (is_udp : Bool) (q : Question) (name : String) (m : M)
      → Same
          (is_udp && (str_eq name "truncated.test." && q.type == type_a))
          m
          (answer_question ops is_udp q name m)
  unfolding answer_question add_mail_answer add_mail_host_answer add_slow_answer
  answer_question-Same is_udp q name m =
      if-Same (str_eq name "example.test.") _ m _ _
        (λ e. other-Same is_udp name q m _ (differs name "example.test." e refl) (example-Kept q m))
        (λ _.
          if-Same (str_eq name "alias.test.") _ m _ _
            (λ e. other-Same is_udp name q m _ (differs name "alias.test." e refl) (alias-Kept q m))
            (λ _.
              if-Same (str_eq name "mail.test.") _ m _ _
                (λ e.
                  other-Same is_udp name q m _ (differs name "mail.test." e refl) (when-Kept _ _ m))
                (λ _.
                  if-Same (str_eq name "mailhost.test.") _ m _ _
                    (λ e.
                      other-Same is_udp name q m _ (differs name "mailhost.test." e refl)
                        (when-Kept _ _ m))
                    (λ _.
                      if-Same (str_eq name "slow.test.") _ m _ _
                        (λ e.
                          other-Same is_udp name q m _ (differs name "slow.test." e refl)
                            (when-Kept _ _ m))
                        (λ _.
                          if-Same (str_eq name "servfail.test.") _ m _ _
                            (λ e.
                              other-Same is_udp name q m _ (differs name "servfail.test." e refl)
                                (set_rcode-Kept 2 m))
                            (λ _.
                              if-Same (str_eq name "nxdomain.test.") _ m _ _
                                (λ e.
                                  other-Same is_udp name q m _
                                    (differs name "nxdomain.test." e refl) (set_rcode-Kept 3 m))
                                (λ _.
                                  if-Same (str_eq name "truncated.test.") _ m _ _
                                    (λ e. rw e (long-Same is_udp q m))
                                    (λ e.
                                      other-Same is_udp name q m _ e (set_rcode-Kept 3 m)))))))))
