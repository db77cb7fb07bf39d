-- ===== src/Messages.antt =====
-- What dns/internal/dnsserver and dns/internal/upstream use of github.com/miekg/dns: the type
-- `dns.Msg` and the fields and methods that they touch. The library is a parameter.
use homedns_analytics.Common.{ℕ, ◌≡◌, refl, Bool}

pub record MsgOps (M : Type 0) : Type 0 where
  -- `Id`, `Rcode`, `Truncated` and `len(Question)`
  pub id : M → ℕ
  pub rcode : M → ℕ
  pub truncated : M → Bool
  pub question_count : M → ℕ
  -- the assignment `m.Id = n`
  pub with_id : M → ℕ → M
  -- `new(dns.Msg).SetRcode(request, code)`
  pub set_rcode : M → ℕ → M

-- A field that is assigned reads back, an assignment leaves the code alone, and a reply made by
-- `SetRcode` has the identifier of its request and the code given.
pub record MsgLaws {M : Type 0} (ops : MsgOps M) : Type 0 where
  pub id-with_id : (m : M) (n : ℕ) → ops.id (ops.with_id m n) ≡ n
  pub rcode-with_id : (m : M) (n : ℕ) → ops.rcode (ops.with_id m n) ≡ ops.rcode m
  pub id-set_rcode : (m : M) (code : ℕ) → ops.id (ops.set_rcode m code) ≡ ops.id m
  pub rcode-set_rcode : (m : M) (code : ℕ) → ops.rcode (ops.set_rcode m code) ≡ code

-- Messages that hold just these fields meet the laws.
pub record PlainMsg : Type 0 where
  pub id : ℕ
  pub rcode : ℕ
  pub truncated : Bool
  pub question_count : ℕ

abbrev pub plain_ops : MsgOps PlainMsg
plain_ops = record {
  id = λ m. m.id;
  rcode = λ m. m.rcode;
  truncated = λ m. m.truncated;
  question_count = λ m. m.question_count;
  with_id = λ m n. record m { id = n };
  set_rcode = λ m code. record m { rcode = code; truncated = Bool.false };
}

pub plain_laws : MsgLaws plain_ops
plain_laws = record {
  id-with_id = λ m n. refl;
  rcode-with_id = λ m n. refl;
  id-set_rcode = λ m code. refl;
  rcode-set_rcode = λ m code. refl;
}
