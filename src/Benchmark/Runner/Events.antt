-- ===== src/Benchmark/Runner/Events.antt =====
-- dns/internal/benchmark/runner.go: the progress events of a path.
use homedns_analytics.Common.{
  ℕ, suc, ◌+◌, ◌<◌, ◌^◌, ◌≡◌, refl, Option, List, [], ◌∷◌, ◌++◌, length, arith, sym, ◌∙◌,
  Bool-cases, inl, inr, true, All, All-append,
}
use mathlib.Core.Path.{subst}
use homedns_analytics.Float.{FloatOps}
use homedns_analytics.Benchmark.Runner.{
  Progress, Collector, count_observation, report_progress, should_report_progress, collect,
  collect_all, new_collector, new_result, record_failure, record_kind,
}
use homedns_analytics.Benchmark.Query.{Observation}

-- The counts of an event add up to the number of queries done.
abbrev pub Balances : Progress → Type 0
Balances e = e.successful + e.failed ≡ e.current

-- The number of queries done at the last event, 0 before the first.
abbrev pub last_current : List Progress → ℕ
last_current [] = 0
last_current (e ∷ []) = e.current
last_current (e ∷ e' ∷ es) = last_current (e' ∷ es)

last_current-append : (es : List Progress) (e : Progress) → last_current (es ++ e ∷ []) ≡ e.current
last_current-append [] e = refl
last_current-append (e' ∷ []) e = refl
last_current-append (e' ∷ e'' ∷ es) e = last_current-append (e'' ∷ es) e

-- The state of the loop after `n` observations, before and after it reports.
record Counted {F : Type 0} (n : ℕ) (c : Collector F) : Type 0 where
  completed : c.completed ≡ n
  balance : c.result.requests.successful + c.result.requests.failed ≡ n
  events : All Balances c.events

record Reported {F : Type 0} (total n : ℕ) (c : Collector F) : Type 0 where
  counted : Counted n c
  finished : n ≡ total → last_current c.events ≡ total

must_report :
    (total n now : ℕ) (last : Option ℕ)
    → suc n < 2 ^ 63
    → suc n ≡ total
    → should_report_progress (suc n) total last now ≡ true
unfolding should_report_progress
must_report total n now last h e = ground arith

module _ {F : Type 0} (total : ℕ) where
  events-count_observation :
      (o : Observation) (c : Collector F) → (count_observation o c).events ≡ c.events
  unfolding count_observation
  events-count_observation o c = ground arith

  count_observation-Counted :
      (n : ℕ) (o : Observation) (c : Collector F)
      → suc n < 2 ^ 63
      → Counted n c
      → Counted (suc n) (count_observation o c)
  unfolding count_observation record_failure record_kind
  count_observation-Counted n o c h v = record {
    completed = ground (arith, v.completed);
    balance = ground (arith, v.balance);
    events = subst (All Balances) (sym (events-count_observation o c)) v.events;
  }

  report_progress-Reported :
      (now n : ℕ) (c : Collector F)
      → suc n < 2 ^ 63
      → Counted (suc n) c
      → Reported total (suc n) (report_progress total now c)
  unfolding report_progress
  report_progress-Reported now n c h v =
      elim (Bool-cases (should_report_progress c.completed total c.last_progress_at now)) [
        | inl e ↦ rw e (record {
          counted = record {
            completed = v.completed;
            balance = v.balance;
            events = All-append Balances c.events _ v.events (v.balance ∙ sym v.completed, tt);
          };
          finished = λ k. last_current-append c.events _ ∙ v.completed ∙ k;
        })
        | inr e ↦ rw e (record {
          counted = v;
          finished = λ k.
              let must = must_report total n now c.last_progress_at h k in
              absurd (ground (arith, v.completed, must, e));
        })
      ]

  collect_all-Reported :
      (clock : ℕ → ℕ) (n : ℕ) (os : List Observation) (c : Collector F)
      → n + length os < 2 ^ 63
      → Reported total n c
      → Reported total (n + length os) (collect_all total clock os c)
  unfolding collect_all collect
  collect_all-Reported clock n [] c h v = subst (λ k. Reported total k c) (omega arith) v
  collect_all-Reported clock n (o ∷ os) c h v =
      let counted = count_observation-Counted n o c (omega (arith, h)) v.counted in
      let reported =
        report_progress-Reported (clock c.completed) n (count_observation o c) (omega (arith, h))
          counted in
      let rest = collect_all-Reported clock (suc n) os _ (omega (arith, h)) reported in
      let same : suc n + length os ≡ n + length (o ∷ os) = omega arith in
      subst (λ k. Reported total k (collect_all total clock (o ∷ os) c)) same rest

-- Every progress event of a path balances: its successes and failures are the queries done. Once all
-- the queries of the path are observed, the last event says so, whatever the clock does. There are
-- fewer than 2 ^ 63 observations.
pub progress_events :
    {F : Type 0} (ops : FloatOps F) (total : ℕ) (clock : ℕ → ℕ) (os : List Observation)
    → length os < 2 ^ 63
    → let c = collect_all total clock os (new_collector ops total) in
      All Balances c.events × (length os ≡ total → last_current c.events ≡ total)
unfolding new_collector new_result
progress_events {F} ops total clock os h =
    let start : Reported total 0 (new_collector ops total) = record {
      counted = record { completed = refl; balance = refl; events = tt };
      finished = λ k. k;
    } in
    let v = collect_all-Reported total clock 0 os _ (omega (arith, h)) start in
    (v.counted.events, λ k. v.finished (omega (arith, k)))
