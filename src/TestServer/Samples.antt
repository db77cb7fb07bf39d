-- ===== src/TestServer/Samples.antt =====
-- The test server at a concrete question.
use homedns_analytics.Common.{ℕ, ◌≡◌, refl, Bool, true, false, Option, some, List, [], ◌∷◌}
use homedns_analytics.Messages.{MsgOps}
use homedns_analytics.Upstream.{udp}
use homedns_analytics.TestServer.{
  Question, Answer, ReplyOps, handle_request, answer_question, add_truncated_answer, record_a,
}
use homedns_analytics.TestServer.Answers.{ReplyLaws}
use homedns_analytics.TestServer.Replies.{is_in_time}

record TestMsg : Type 0 where
  id : ℕ
  rcode : ℕ
  truncated : Bool
  question : Option Question
  answers : List Answer

abbrev msgs : MsgOps TestMsg
msgs = record {
  id = λ m. m.id;
  rcode = λ m. m.rcode;
  truncated = λ m. m.truncated;
  question_count = λ m. 1;
  with_id = λ m n. record m { id = n };
  set_rcode = λ m code. record m { rcode = code; truncated = false };
}

abbrev ops : ReplyOps TestMsg
ops = record {
  first_question = λ m. m.question;
  canonical = λ n. n;
  set_reply = λ m. record m { rcode = 0; truncated = false; answers = [] };
  set_authoritative = λ m. m;
  set_rcode = λ c m. record m { rcode = c };
  set_truncated = λ m. record m { truncated = true };
  add_answer = λ a m. record m { answers = a ∷ m.answers };
}

laws : ReplyLaws msgs ops
laws = record {
  id-set_reply = λ m. refl;
  truncated-set_reply = λ m. refl;
  id-set_authoritative = λ m. refl;
  truncated-set_authoritative = λ m. refl;
  id-set_rcode = λ c m. refl;
  truncated-set_rcode = λ c m. refl;
  id-set_truncated = λ m. refl;
  truncated-set_truncated = λ m. refl;
  id-add_answer = λ a m. refl;
  truncated-add_answer = λ a m. refl;
}

abbrev request : TestMsg
request = record {
  id = 5;
  rcode = 0;
  truncated = false;
  question = some (record { name = "truncated.test."; type = 1 });
  answers = [];
}

-- 10 ns on the way.
abbrev spent : Bool → TestMsg → ℕ
spent is_udp m = 10

-- The slow domain is out of time for a client that waits 50 milliseconds, and in time for 300.
abbrev slow_request : TestMsg
slow_request = record request { question = some (record { name = "slow.test."; type = 1 }) }

slow_domain :
    (is_in_time msgs ops laws spent 50_000_000 udp slow_request ≡ false)
    × (is_in_time msgs ops laws spent 300_000_000 udp slow_request ≡ true)
    × (is_in_time msgs ops laws spent 50_000_000 udp request ≡ true)
unfolding handle_request answer_question
slow_domain = (refl, refl, refl)

-- Over UDP the answer is left out, over TCP it is there.
truncated_over_udp :
    ((handle_request ops true request).1.answers ≡ [])
    × ((handle_request ops false request).1.answers ≡ record_a "truncated.test." "192.0.2.10" ∷ [])
unfolding handle_request answer_question add_truncated_answer
truncated_over_udp = (refl, refl)
