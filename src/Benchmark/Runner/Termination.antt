-- ===== src/Benchmark/Runner/Termination.antt =====
-- dns/internal/benchmark/runner.go: the goroutines of `RunPath` come to an end.
use homedns_analytics.Common.{
  ℕ, ◌+◌, ◌*◌, ◌-◌, ◌≤◌, ◌<◌, ◌≡◌, ◌⊎◌, inl, inr, refl, ap, true, false, Option, List, [], ◌∷◌,
  length, length-append, arith, GoError, if◌then◌else◌, Bool-cases, ltb, sum_by-one,
}
use homedns_analytics.Benchmark.Query.{Observation}
use homedns_analytics.Benchmark.Runner.Pool.{
  Pool, Step, schedules, exhausted, interrupted, finishes, collects, leaves, closes, Reach, here,
  later, IsOver, Inv, Reach-Inv, none_in_flight, in_turn, length-in_turn,
}

-- What is left to do: three steps for a query not yet scheduled, two for one in flight, one for an
-- observation in the channel, one for each worker to leave, and one to close each channel.
abbrev work_left : ℕ → Pool → ℕ
work_left count p =
    3 * (count - p.scheduled)
    + 2 * length p.in_flight
    + length p.observations
    + p.workers
    + (if p.jobs_closed then 0 else 1)
    + (if p.observations_closed then 0 else 1)

module _ (count concurrency : ℕ) (context_error : Option GoError) (observe : ℕ → Observation) where
  Step-work_left :
      {p q : Pool}
      → Step count concurrency context_error observe p q
      → work_left count q < work_left count p
  Step-work_left (schedules a b c) = ground arith
  Step-work_left (exhausted a b) = ground arith
  Step-work_left (interrupted a b c) = ground arith
  Step-work_left {p} (finishes xs i ys e h) = omega (
    arith,
    ap (λ l. length l) e,
    length-append xs (i ∷ ys),
    length-append xs ys,
    length-append p.observations (observe i ∷ []),
  )
  Step-work_left (leaves a b) = ground arith
  Step-work_left (closes a b) = ground arith
  Step-work_left {p} (collects o os e) = omega (arith, ap (λ l. length l) e)

  Reach-work_left :
      {n : ℕ} {p : Pool}
      → Reach count concurrency context_error observe n p
      → n + work_left count p ≤ 3 * count + concurrency + 2
  Reach-work_left here = omega arith
  Reach-work_left (later r s) = omega (arith, Reach-work_left r, Step-work_left s)

  scheduler_moves :
      (p : Pool)
      → 0 < p.workers
      → p.in_flight ≡ []
      → p.scheduled ≤ count
      → p.jobs_closed ≡ false
      → (q : Pool) × Step count concurrency context_error observe p q
  scheduler_moves p h e b c = elim (Bool-cases (ltb p.scheduled count)) [
    | inl l ↦ (_, schedules c (ground arith) (ground arith))
    | inr l ↦ (_, exhausted c (ground arith))
  ]

  -- Without a query in flight or an observation, `jobs` closed: the workers leave, and the channel is
  -- closed after the last of them.
  workers_move :
      (p : Pool)
      → p.in_flight ≡ []
      → p.observations ≡ []
      → p.jobs_closed ≡ true
      → IsOver count concurrency context_error observe p
        ⊎ ((q : Pool) × Step count concurrency context_error observe p q)
  workers_move p e d c = elim (Bool-cases (ltb 0 p.workers)) [
    | inl l ↦ inr (_, leaves c (ground arith))
    | inr l ↦ elim (Bool-cases p.observations_closed) [
      | inl o ↦ inl (record { jobs_closed = c; observations_closed = o; observations = d })
      | inr o ↦ inr (_, closes (ground arith) o)
    ]
  ]

  room :
      (p : Pool) (i : ℕ) (fs : List ℕ)
      → p.in_flight ≡ i ∷ fs
      → p.observations ≡ []
      → Inv count concurrency context_error observe p
      → length p.observations < count
  room p i fs e d v = ground (
    arith,
    v.weight (λ o. 1),
    v.bound,
    sum_by-one (in_turn count concurrency context_error observe p.scheduled),
    length-in_turn count concurrency context_error observe p.scheduled,
  )

  moves :
      (p : Pool) (fs : List ℕ) (os : List Observation)
      → p.in_flight ≡ fs
      → p.observations ≡ os
      → 0 < concurrency
      → Inv count concurrency context_error observe p
      → IsOver count concurrency context_error observe p
        ⊎ ((q : Pool) × Step count concurrency context_error observe p q)
  moves p fs (o ∷ os) e d h v = inr (_, collects o os d)
  moves p (i ∷ fs) [] e d h v = inr (_, finishes [] i fs e (room p i fs e d v))
  moves p [] [] e d h v = elim (Bool-cases p.jobs_closed) [
    | inl c ↦ workers_move p e d c
    | inr c ↦ inr (scheduler_moves p (omega (arith, h, v.staying c)) e v.bound c)
  ]

  -- With at least one worker, the goroutines of a path never block each other for good, and they
  -- take at most three steps for each query, one for each worker and two more: in a state that they
  -- reach all is over, or some goroutine can go on. No worker has a query once `observations` is
  -- closed, so that nothing is sent into the closed channel; and when the loop has come to the end of
  -- that channel, the scheduler has closed `jobs` too.
  pub run_path_ends :
      {n : ℕ} {p : Pool}
      → 0 < concurrency
      → Reach count concurrency context_error observe n p
      → (n ≤ 3 * count + concurrency + 2)
        × (IsOver count concurrency context_error observe p
            ⊎ ((q : Pool) × Step count concurrency context_error observe p q))
        × (p.observations_closed ≡ true → (p.in_flight ≡ []) × (p.jobs_closed ≡ true))
  run_path_ends {n} {p} h r =
      let v = Reach-Inv count concurrency context_error observe r in
      (
        omega (arith, Reach-work_left r),
        moves p p.in_flight p.observations refl refl h v,
        λ c. (
          none_in_flight count concurrency context_error observe v c,
          ground (arith, h, v.left c, v.staying),
        ),
      )
