-- ===== src/Benchmark/Summary/Worst.antt =====
-- dns/internal/benchmark/report_runner.go: the worst path of the summary.
use Prim.Native.String.{String}
use mathlib.Core.List.{Memᴰ}
use homedns_analytics.Common.{
  ◌≡◌, refl, ◌⊎◌, inl, inr, Bool, true, false, not, some, List, [], ◌∷◌, arith, All, if◌then◌else◌,
  Bool-cases, ap, ◌∙◌,
}
use homedns_analytics.Float.{FloatOps, FloatLaws}
use homedns_analytics.Benchmark.Report.{PathResult, ScenarioResult}
use homedns_analytics.Benchmark.Summary.{
  BenchmarkSummary, WorstScenarioSummary, is_worse_scenario, candidate_of, update_worst_scenario,
  accumulate_scenario, accumulate_all, new_benchmark_summary, finish_summary, summarize_scenarios,
}

-- The measured paths, in the order of the loop.
abbrev pub candidates :
    {F : Type 0} → FloatOps F → List (ScenarioResult F) → List (WorstScenarioSummary F)
candidates ops [] = []
candidates ops (s ∷ ss) =
    candidate_of ops s.name "direct" s.direct
    ∷ candidate_of ops s.name "forwarded" s.forwarded
    ∷ candidates ops ss

module _ {F : Type 0} (ops : FloatOps F) (laws : FloatLaws ops) where
  open laws use {le_trans, le_total, lt-le, eq-le}

  abbrev IsNumber : F → Type 0
  IsNumber x = ops.le x x ≡ true

  -- None of the three figures that are compared is NaN.
  pub record IsMeasured (w : WorstScenarioSummary F) : Type 0 where
    pub failure : IsNumber w.failure_percent
    pub timeout : IsNumber w.timeout_percent
    pub p95 : IsNumber w.p95_successful_latency_milliseconds

  -- One component of the comparison, and `rest` for the later ones.
  abbrev worse_by : F → F → Bool → Bool
  worse_by a b rest = if not (ops.eq a b) then ops.lt b a else rest

  worse_by_trans :
      (c w x : F) (r₁ r₂ r₃ : Bool)
      → IsNumber c
      → IsNumber w
      → IsNumber x
      → (r₁ ≡ false → r₂ ≡ true → r₃ ≡ false)
      → worse_by c w r₁ ≡ false
      → worse_by x w r₂ ≡ true
      → worse_by c x r₃ ≡ false
  worse_by_trans c w x r₁ r₂ r₃ nc nw nx rest p q = ground (
    arith,
    eq-le c w nc nw,
    eq-le x w nx nw,
    eq-le c x nc nx,
    lt-le w c nw nc,
    lt-le w x nw nx,
    lt-le x c nx nc,
    le_total c w nc nw,
    le_total x w nx nw,
    le_total c x nc nx,
    le_trans c w x,
    le_trans c x w,
    le_trans w c x,
    le_trans w x c,
    le_trans x c w,
    le_trans x w c,
  )

  lt_trans :
      (c w x : F)
      → IsNumber c
      → IsNumber w
      → IsNumber x
      → ops.lt w c ≡ false
      → ops.lt w x ≡ true
      → ops.lt x c ≡ false
  lt_trans c w x nc nw nx p q = ground (
    arith,
    lt-le w c nw nc,
    lt-le w x nw nx,
    lt-le x c nx nc,
    le_total w x nw nx,
    le_trans c w x,
    le_trans w x c,
  )

  is_worse_trans :
      (c w x : WorstScenarioSummary F)
      → IsMeasured c
      → IsMeasured w
      → IsMeasured x
      → is_worse_scenario ops c w ≡ false
      → is_worse_scenario ops x w ≡ true
      → is_worse_scenario ops c x ≡ false
  unfolding is_worse_scenario
  is_worse_trans c w x nc nw nx p q =
      worse_by_trans _ _ _ _ _ _ nc.failure nw.failure nx.failure
        (worse_by_trans _ _ _ _ _ _ nc.timeout nw.timeout nx.timeout
          (lt_trans _ _ _ nc.p95 nw.p95 nx.p95))
        p q

  is_worse_irrefl : (x : WorstScenarioSummary F) → IsMeasured x → is_worse_scenario ops x x ≡ false
  unfolding is_worse_scenario
  is_worse_irrefl x n = ground (
    arith,
    eq-le x.failure_percent x.failure_percent n.failure n.failure,
    eq-le x.timeout_percent x.timeout_percent n.timeout n.timeout,
    lt-le x.p95_successful_latency_milliseconds x.p95_successful_latency_milliseconds n.p95 n.p95,
  )

  -- One step of the search, and the search through a list.
  abbrev consider : WorstScenarioSummary F → WorstScenarioSummary F → WorstScenarioSummary F
  consider w x = if is_worse_scenario ops x w then x else w

  search_worst : WorstScenarioSummary F → List (WorstScenarioSummary F) → WorstScenarioSummary F
  search_worst w [] = w
  search_worst w (x ∷ xs) = search_worst (consider w x) xs

  -- `v` is at least as bad as everything that `w` is.
  record Exceeds (w v : WorstScenarioSummary F) : Type 0 where
    measured : IsMeasured v
    beats :
        (c : WorstScenarioSummary F)
        → IsMeasured c
        → is_worse_scenario ops c w ≡ false
        → is_worse_scenario ops c v ≡ false

  consider-Exceeds :
      (w x : WorstScenarioSummary F)
      → IsMeasured w
      → IsMeasured x
      → Exceeds w (consider w x) × (is_worse_scenario ops x (consider w x) ≡ false)
  consider-Exceeds w x nw nx = elim (Bool-cases (is_worse_scenario ops x w)) [
    | inl e ↦ rw e (
      record { measured = nx; beats = λ c nc p. is_worse_trans c w x nc nw nx p e },
      is_worse_irrefl x nx,
    )
    | inr e ↦ rw e (record { measured = nw; beats = λ c nc p. p }, e)
  ]

  search_worst-Exceeds :
      (w : WorstScenarioSummary F) (xs : List (WorstScenarioSummary F))
      → IsMeasured w
      → All IsMeasured xs
      → Exceeds w (search_worst w xs)
        × All (λ c. is_worse_scenario ops c (search_worst w xs) ≡ false) xs
  unfolding search_worst
  search_worst-Exceeds w [] nw ns = (record { measured = nw; beats = λ c nc p. p }, tt)
  search_worst-Exceeds w (x ∷ xs) nw (nx, ns) =
      let (first, own) = consider-Exceeds w x nw nx in
      let (rest, others) = search_worst-Exceeds (consider w x) xs first.measured ns in
      (
        record { measured = rest.measured; beats = λ c nc p. rest.beats c nc (first.beats c nc p) },
        (rest.beats x nx own, others),
      )

  search_worst-Memᴰ :
      (w : WorstScenarioSummary F) (xs : List (WorstScenarioSummary F))
      → (search_worst w xs ≡ w) ⊎ Memᴰ (search_worst w xs) xs
  unfolding search_worst
  search_worst-Memᴰ w [] = inl refl
  search_worst-Memᴰ w (x ∷ xs) =
      found (search_worst-Memᴰ (consider w x) xs) (Bool-cases (is_worse_scenario ops x w))
    where
      found :
          (search_worst (consider w x) xs ≡ consider w x) ⊎ Memᴰ (search_worst (consider w x) xs) xs
          → ((is_worse_scenario ops x w ≡ true) ⊎ (is_worse_scenario ops x w ≡ false))
          → (search_worst (consider w x) xs ≡ w) ⊎ Memᴰ (search_worst (consider w x) xs) (x ∷ xs)
      found (inr m) b = inr (Memᴰ.tail m)
      found (inl e) (inl b) = inr (Memᴰ.head (e ∙ ap (λ t. if t then x else w) b))
      found (inl e) (inr b) = inl (e ∙ ap (λ t. if t then x else w) b)

  update-consider :
      (name path_name : String) (path : PathResult F) (w : WorstScenarioSummary F)
      → update_worst_scenario ops name path_name path (some w)
        ≡ some (consider w (candidate_of ops name path_name path))
  unfolding update_worst_scenario
  update-consider name path_name path w = ground arith

  accumulate_all-search :
      (b : BenchmarkSummary F) (ss : List (ScenarioResult F)) (w : WorstScenarioSummary F)
      → b.worst_scenario ≡ some w
      → (accumulate_all ops b ss).worst_scenario ≡ some (search_worst w (candidates ops ss))
  unfolding accumulate_all accumulate_scenario search_worst
  accumulate_all-search b [] w e = e
  accumulate_all-search b (s ∷ ss) w e = accumulate_all-search (accumulate_scenario ops b s) ss _ (
      ap
        (λ o.
          update_worst_scenario ops s.name "forwarded" s.forwarded
            (update_worst_scenario ops s.name "direct" s.direct o))
        e
      ∙ ap (update_worst_scenario ops s.name "forwarded" s.forwarded)
          (update-consider s.name "direct" s.direct w)
      ∙ update-consider s.name "forwarded" s.forwarded _)

  -- If some scenario was run and the figures of all paths are numbers, the summary names a worst
  -- path: it is one of the measured paths, and none of them is worse.
  pub summarize_scenarios-worst :
      (s : ScenarioResult F) (ss : List (ScenarioResult F)) (duration : F)
      → All IsMeasured (candidates ops (s ∷ ss))
      → (w : WorstScenarioSummary F) × ((summarize_scenarios ops (s ∷ ss) duration).worst_scenario
          ≡ some w)
        × Memᴰ w (candidates ops (s ∷ ss))
        × All (λ c. is_worse_scenario ops c w ≡ false) (candidates ops (s ∷ ss))
  unfolding summarize_scenarios finish_summary accumulate_all accumulate_scenario
      new_benchmark_summary update_worst_scenario search_worst
  summarize_scenarios-worst s ss duration (nd, (nf, ns)) =
      let d = candidate_of ops s.name "direct" s.direct in
      let f = candidate_of ops s.name "forwarded" s.forwarded in
      let rest = f ∷ candidates ops ss in
      let (exceeds, others) = search_worst-Exceeds d rest nd (nf, ns) in
      (
        search_worst d rest,
        accumulate_all-search (accumulate_scenario ops (new_benchmark_summary ops) s) ss _
            (update-consider s.name "forwarded" s.forwarded d),
        in_all (search_worst-Memᴰ d rest),
        (exceeds.beats d nd (is_worse_irrefl d nd), others),
      )
    where
      in_all :
          {w d : WorstScenarioSummary F} {xs : List (WorstScenarioSummary F)}
          → (w ≡ d) ⊎ Memᴰ w xs
          → Memᴰ w (d ∷ xs)
      in_all (inl e) = Memᴰ.head e
      in_all (inr m) = Memᴰ.tail m
