-- ===== src/Benchmark/Progress/Overall.antt =====
-- dns/internal/benchmark/progress.go: the overall figures against a plain count of the queries.
use homedns_analytics.Common.{
  ℕ, ◌⊎◌, div_signed_nonneg, zero, suc, ap, sub64, mul64, ◌+◌, ◌-◌, ◌*◌, ◌/◌, ◌≤◌, ◌<◌, ◌^◌, ◌≡◌,
  arith,
}
use homedns_analytics.Benchmark.Progress.{
  ProgressEvent, Phase, direct, forwarded, overall_completed, overall_total, estimated_remaining,
}

-- The queries of the current scenario that are measured before the event, and those of the phase.
abbrev pub measured : Phase → ℕ → ℕ → ℕ
measured direct queries current = current
measured forwarded queries current = queries + current
measured _ queries current = 0

-- An event of a running benchmark: the scenarios count from one, a phase does no more queries than
-- a path has, and the whole benchmark fits into a word.
pub record IsRunningEvent (e : ProgressEvent) (queries : ℕ) : Type 0 where
  pub index : 1 ≤ e.scenario_index
  pub last : e.scenario_index ≤ e.scenario_count
  pub some_queries : 1 ≤ queries
  pub current : e.current ≤ queries
  pub fits : e.scenario_count * 2 * queries < 2 ^ 63

scenarios_fit :
    (k d r : ℕ)
    → (suc k + d) * 2 * suc r < 2 ^ 63
    → mul64 (mul64 (sub64 (suc k) 1) 2) (suc r) ≡ k * 2 * suc r
scenarios_fit k d r h =
    let k_fits : k < 2 ^ 63 = omega (arith, h) in
    let word : sub64 (suc k) 1 ≡ k = omega (arith, k_fits) in
    let double_fits : k * 2 < 2 ^ 64 = omega (arith, h) in
    let double : mul64 (sub64 (suc k) 1) 2 ≡ k * 2 = rw word (omega (arith, double_fits)) in
    let all_fit : k * 2 * suc r < 2 ^ 64 = omega (arith, h) in rw double (omega (arith, all_fit))

completed_fit :
    (index count queries : ℕ)
    → 1 ≤ index
    → index ≤ count
    → 1 ≤ queries
    → count * 2 * queries < 2 ^ 63
    → (mul64 (mul64 (sub64 index 1) 2) queries ≡ (index - 1) * 2 * queries)
      × ((index - 1) * 2 * queries + 2 * queries ≤ count * 2 * queries)
      × (index ≡ count → (index - 1) * 2 * queries + 2 * queries ≡ count * 2 * queries)
completed_fit zero count queries a b c h = absurd (omega (arith, a))
completed_fit (suc k) count zero a b c h = absurd (omega (arith, c))
completed_fit (suc k) count (suc r) a b c h =
    let d = count - suc k in
    let split : count ≡ suc k + d = omega (arith, b) in
    let total : count * 2 * suc r ≡ (suc k + d) * 2 * suc r = ap (λ n. n * 2 * suc r) split in
    let minus : suc k - 1 ≡ k = omega arith in
    rw minus (
      scenarios_fit k d r (omega (arith, h, total)),
      omega (arith, total),
      λ e. omega (arith, ap (λ n. n * 2 * suc r) e),
    )

factors_fit :
    (count queries : ℕ)
    → 1 ≤ count
    → 1 ≤ queries
    → count * 2 * queries < 2 ^ 63
    → (count < 2 ^ 63) × (queries < 2 ^ 63)
factors_fit zero queries a b h = absurd (omega (arith, a))
factors_fit (suc n) zero a b h = absurd (omega (arith, b))
factors_fit (suc n) (suc r) a b h = (omega (arith, h), omega (arith, h))

total_fits :
    (count queries : ℕ)
    → 1 ≤ queries
    → count * 2 * queries < 2 ^ 63
    → mul64 (mul64 count 2) queries ≡ count * 2 * queries
total_fits count zero c h = absurd (omega (arith, c))
total_fits count (suc r) c h =
    let double : mul64 count 2 ≡ count * 2 = omega (arith, h) in rw double (omega (arith, h))

total_counts :
    (e : ProgressEvent) (queries : ℕ)
    → IsRunningEvent e queries
    → overall_total e queries ≡ e.scenario_count * 2 * queries
unfolding overall_total
total_counts e queries v =
    let total = total_fits e.scenario_count queries v.some_queries v.fits in
    let (c, q) =
      factors_fit e.scenario_count queries (omega (arith, v.index, v.last)) v.some_queries v.fits in
    ground (arith, total, v.index, v.last, v.some_queries)

completed_counts :
    (e : ProgressEvent) (queries : ℕ)
    → IsRunningEvent e queries
    → overall_completed e queries
      ≡ (e.scenario_index - 1) * 2 * queries + measured e.phase queries e.current
unfolding overall_completed
completed_counts e queries v =
    let (base, room, full) =
      completed_fit e.scenario_index e.scenario_count queries v.index v.last v.some_queries
        v.fits in
    let (c, q) =
      factors_fit e.scenario_count queries (omega (arith, v.index, v.last)) v.some_queries v.fits in
    ground (arith, base, room, v.index, v.last, v.some_queries, v.current, v.fits)

-- The overall figures count the queries of two paths in each scenario: those of the scenarios that
-- are over and those done in the current one. They never exceed the total, and reach it with the last
-- query of the forwarded path of the last scenario. The event is one of a benchmark that runs.
pub overall_counts :
    (e : ProgressEvent) (queries : ℕ)
    → IsRunningEvent e queries
    → (overall_total e queries ≡ e.scenario_count * 2 * queries)
      × (overall_completed e queries
          ≡ (e.scenario_index - 1) * 2 * queries + measured e.phase queries e.current)
      × (overall_completed e queries ≤ overall_total e queries)
      × (e.phase ≡ forwarded
          → e.scenario_index ≡ e.scenario_count
          → e.current ≡ queries
          → overall_completed e queries ≡ overall_total e queries)
overall_counts e queries v =
    let total = total_counts e queries v in
    let done = completed_counts e queries v in
    let (base, room, full) =
      completed_fit e.scenario_index e.scenario_count queries v.index v.last v.some_queries
        v.fits in
    (
      total,
      done,
      ground (arith, total, done, room, v.current),
      λ p i c. ground (arith, total, done, full i, p, c),
    )

-- `m ≤ n` multiplied by `k`.
scaled : (k m n : ℕ) → m ≤ n → k * m ≤ k * n
scaled k m n h =
    let split : n ≡ m + (n - m) = omega (arith, h) in omega (arith, ap (λ x. k * x) split)

product_bound :
    (elapsed completed total : ℕ)
    → 10 ≤ completed
    → total / 100 ≤ completed
    → elapsed / completed * (total - completed) ≤ 109 * elapsed
product_bound elapsed completed total h k =
    let mean = elapsed / completed in
    let part : mean * completed ≤ elapsed = omega (arith, h) in
    let few : total - completed ≤ 109 * completed = omega (arith, h, k) in
    omega (arith, part, scaled mean (total - completed) (109 * completed) few)

-- The estimate of the time left is hidden, that is 0, until ten queries are done, and as many as the
-- hundredth part of the total rounded down, which may be a little less than one in a hundred; and
-- once all are done. Otherwise it is the mean time of a query, rounded down, for each
-- query left, and at most 109 times the time elapsed, if that time is positive and the product fits
-- into a word. The event is one of a benchmark that runs.
pub estimate_bounds :
    (e : ProgressEvent) (queries : ℕ)
    → IsRunningEvent e queries
    → 0 < e.elapsed
    → 109 * e.elapsed < 2 ^ 63
    → let completed = overall_completed e queries in
      let total = overall_total e queries in
      let estimate = estimated_remaining e queries in
      (completed < 10 ⊎ (completed < total / 100 ⊎ completed ≡ total) → estimate ≡ 0)
      × (10 ≤ completed
          → total / 100 ≤ completed
          → completed < total
          → estimate ≡ e.elapsed / completed * (total - completed))
      × (estimate ≤ 109 * e.elapsed)
unfolding estimated_remaining
estimate_bounds e queries v p h =
    let completed = overall_completed e queries in
    let total = overall_total e queries in
    let (t, d, least, full) = overall_counts e queries v in
    let fits : total < 2 ^ 63 = omega (arith, t, v.fits) in
    let samples = div_signed_nonneg total 100 fits (omega arith) in
    let mean =
      div_signed_nonneg e.elapsed completed (omega (arith, h)) (omega (arith, least, fits)) in
    let bound = product_bound e.elapsed completed total in
    (
      λ c. ground (arith, samples, least, fits),
      λ c d l. ground (arith, samples, mean, least, fits, bound c d),
      ground (arith, samples, mean, least, fits, bound),
    )
