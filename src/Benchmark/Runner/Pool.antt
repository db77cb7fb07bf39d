-- ===== src/Benchmark/Runner/Pool.antt =====
-- dns/internal/benchmark/runner.go: the goroutines of `RunPath`. The scheduler hands the indices of
-- the queries to idle workers over the unbuffered channel `jobs`, and closes it; a worker puts its
-- observation into the channel `observations`, whose buffer has `count` places, and leaves the wait
-- group once `jobs` is closed; a goroutine that waits for the group then closes `observations`; the
-- loop takes the observations out until that channel is closed and empty. The count of the queries
-- sent (`scheduled.Add`) is taken together with the sending: it is read after the loop only, when the
-- scheduler is gone.
use homedns_analytics.Common.{
  ℕ, suc, zero, ◌+◌, ◌-◌, ◌≤◌, ◌<◌, ◌≡◌, refl, Bool, true, false, Option, List, [], ◌∷◌, ◌++◌,
  length, length-append, sum_by, sum_by-append, arith, GoError, is_some, ap,
}
use homedns_analytics.Benchmark.Query.{Observation}

pub record Pool : Type 0 where
  pub scheduled : ℕ
  pub jobs_closed : Bool
  -- the counter of the wait group: the workers that have not left
  pub workers : ℕ
  -- the queries that workers execute
  pub in_flight : List ℕ
  pub observations : List Observation
  pub observations_closed : Bool
  -- what the loop has taken out, in order
  pub collected : List Observation

-- All the workers have been added to the group, and none has a query.
abbrev pub idle : ℕ → Pool
idle concurrency = record {
  scheduled = 0;
  jobs_closed = false;
  workers = concurrency;
  in_flight = [];
  observations = [];
  observations_closed = false;
  collected = [];
}

-- `context_error` is the error of the context once the path is over; `observe` is `executeQuery`.
module _ (count concurrency : ℕ) (context_error : Option GoError) (observe : ℕ → Observation) where
  pub data Step (p : Pool) : Pool → Type 0 where
    schedules :
        p.jobs_closed ≡ false
        → p.scheduled < count
        → length p.in_flight < p.workers
        → Step p (record p { scheduled = suc p.scheduled; in_flight = p.scheduled ∷ p.in_flight })
    exhausted :
        p.jobs_closed ≡ false → p.scheduled ≡ count → Step p (record p { jobs_closed = true })
    interrupted :
        p.jobs_closed ≡ false
        → p.scheduled < count
        → is_some context_error ≡ true
        → Step p (record p { jobs_closed = true })
    finishes :
        (xs : List ℕ) (i : ℕ) (ys : List ℕ)
        → p.in_flight ≡ xs ++ i ∷ ys
        → length p.observations < count
        → Step p
            (record p { in_flight = xs ++ ys; observations = p.observations ++ (observe i ∷ []) })
    -- `workers.Done` of a worker without a query, whose loop over `jobs` has ended
    leaves :
        p.jobs_closed ≡ true
        → length p.in_flight < p.workers
        → Step p (record p { workers = p.workers - 1 })
    -- `close(observations)` after `workers.Wait`
    closes :
        p.workers ≡ 0
        → p.observations_closed ≡ false
        → Step p (record p { observations_closed = true })
    collects :
        (o : Observation) (os : List Observation)
        → p.observations ≡ o ∷ os
        → Step p (record p { observations = os; collected = p.collected ++ (o ∷ []) })

  -- The states that `n` steps lead to.
  pub data Reach : ℕ → Pool → Type 0 where
    here : Reach 0 (idle concurrency)
    later : {n : ℕ} {p q : Pool} → Reach n p → Step p q → Reach (suc n) q

  -- All is over: the scheduler has closed `jobs`, and the loop has come to the end of `observations`,
  -- closed and empty.
  pub record IsOver (p : Pool) : Type 0 where
    pub jobs_closed : p.jobs_closed ≡ true
    pub observations_closed : p.observations_closed ≡ true
    pub observations : p.observations ≡ []

  -- The observations of the first `n` queries, one after the other.
  abbrev pub in_turn : ℕ → List Observation
  in_turn zero = []
  in_turn (suc n) = in_turn n ++ (observe n ∷ [])

  pub length-in_turn : (n : ℕ) → length (in_turn n) ≡ n
  length-in_turn zero = refl
  length-in_turn (suc n) =
      omega (arith, length-append (in_turn n) (observe n ∷ []), length-in_turn n)

  -- Whatever the observations weigh, those of the scheduled queries are in one of the three places.
  pub record Inv (p : Pool) : Type 0 where
    pub weight :
        (w : Observation → ℕ)
        → sum_by w p.collected + sum_by w p.observations + sum_by (λ i. w (observe i)) p.in_flight
          ≡ sum_by w (in_turn p.scheduled)
    pub bound : p.scheduled ≤ count
    pub busy : length p.in_flight ≤ p.workers
    pub present : p.workers ≤ concurrency
    pub staying : p.jobs_closed ≡ false → p.workers ≡ concurrency
    pub left : p.observations_closed ≡ true → p.workers ≡ 0
    pub complete : p.jobs_closed ≡ true → is_some context_error ≡ false → p.scheduled ≡ count

  idle-Inv : Inv (idle concurrency)
  idle-Inv = record {
    weight = λ w. refl;
    bound = omega arith;
    busy = omega arith;
    present = omega arith;
    staying = λ h. refl;
    left = λ h. ground arith;
    complete = λ h k. ground arith;
  }

  Step-Inv : {p q : Pool} → Step p q → Inv p → Inv q
  Step-Inv {p} (schedules a b c) v = record {
    weight = λ w.
        omega (arith, v.weight w, sum_by-append w (in_turn p.scheduled) (observe p.scheduled ∷ []));
    bound = omega (arith, b);
    busy = omega (arith, c);
    present = v.present;
    staying = v.staying;
    left = v.left;
    complete = λ h k. ground arith;
  }
  Step-Inv (exhausted a b) v = record {
    weight = v.weight;
    bound = v.bound;
    busy = v.busy;
    present = v.present;
    staying = λ h. ground arith;
    left = v.left;
    complete = λ h k. b;
  }
  Step-Inv (interrupted a b c) v = record {
    weight = v.weight;
    bound = v.bound;
    busy = v.busy;
    present = v.present;
    staying = λ h. ground arith;
    left = v.left;
    complete = λ h k. ground arith;
  }
  Step-Inv {p} (finishes xs i ys e h) v = record {
    weight = λ w.
        let f : ℕ → ℕ = λ j. w (observe j) in
        omega (
          arith,
          v.weight w,
          ap (sum_by f) e,
          sum_by-append f xs (i ∷ ys),
          sum_by-append f xs ys,
          sum_by-append w p.observations (observe i ∷ []),
        );
    bound = v.bound;
    busy =
        omega (arith, v.busy, ap (λ l. length l) e, length-append xs (i ∷ ys), length-append xs ys);
    present = v.present;
    staying = v.staying;
    left = v.left;
    complete = v.complete;
  }
  Step-Inv (leaves a b) v = record {
    weight = v.weight;
    bound = v.bound;
    busy = omega (arith, b);
    present = omega (arith, v.present);
    staying = λ h. ground arith;
    left = λ h. ground (arith, v.left h);
    complete = v.complete;
  }
  Step-Inv (closes a b) v = record {
    weight = v.weight;
    bound = v.bound;
    busy = v.busy;
    present = v.present;
    staying = v.staying;
    left = λ h. a;
    complete = v.complete;
  }
  Step-Inv {p} (collects o os e) v = record {
    weight = λ w. omega (arith, v.weight w, ap (sum_by w) e, sum_by-append w p.collected (o ∷ []));
    bound = v.bound;
    busy = v.busy;
    present = v.present;
    staying = v.staying;
    left = v.left;
    complete = v.complete;
  }

  pub Reach-Inv : {n : ℕ} {p : Pool} → Reach n p → Inv p
  Reach-Inv here = idle-Inv
  Reach-Inv (later r s) = Step-Inv s (Reach-Inv r)

  -- Nothing is in flight once `observations` is closed: no worker sends into the closed channel.
  pub none_in_flight : {p : Pool} → Inv p → p.observations_closed ≡ true → p.in_flight ≡ []
  none_in_flight {p} v h = empty p.in_flight refl
    where
      empty : (fs : List ℕ) → p.in_flight ≡ fs → p.in_flight ≡ []
      empty [] e = e
      empty (i ∷ fs) e = absurd (omega (arith, v.left h, v.busy, ap (λ l. length l) e))
