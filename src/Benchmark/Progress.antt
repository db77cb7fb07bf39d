-- ===== src/Benchmark/Progress.antt =====
-- dns/internal/benchmark/progress.go: the figures that a progress event shows for the whole
-- benchmark. Counts and durations are signed words.
pub mod Overall
mod Samples
use homedns_analytics.Common.{
  ℕ, Bool, true, false, ◌||◌, not, add64, sub64, mul64, is_positive, ltb_signed, leb_signed,
  div_signed, if◌then◌else◌,
}
use homedns_analytics.Float.{FloatOps}

-- The four phases, and the empty one that the events of a scenario carry.
pub data Phase : Type 0 where
  no_phase warmup_direct warmup_forwarded direct forwarded : Phase

-- The fields of `ProgressEvent` that the figures read.
pub record ProgressEvent : Type 0 where
  pub scenario_index : ℕ
  pub scenario_count : ℕ
  pub phase : Phase
  pub current : ℕ
  pub total : ℕ
  pub elapsed : ℕ

unfoldable pub is_warmup : ProgressEvent → Bool
is_warmup e = elim e.phase [ warmup_direct ↦ true | warmup_forwarded ↦ true | _ ↦ false ]

unfoldable pub overall_completed : ProgressEvent → ℕ → ℕ
overall_completed e queries_per_path =
    if not (is_positive queries_per_path) || not (is_positive e.scenario_index)
    then 0
    else let completed = mul64 (mul64 (sub64 e.scenario_index 1) 2) queries_per_path in
      elim e.phase [
        | direct ↦ add64 completed e.current
        | forwarded ↦ add64 (add64 completed queries_per_path) e.current
        | _ ↦ completed
      ]

unfoldable pub overall_total : ProgressEvent → ℕ → ℕ
overall_total e queries_per_path =
    if not (is_positive queries_per_path) || not (is_positive e.scenario_count)
    then 0
    else mul64 (mul64 e.scenario_count 2) queries_per_path

-- `EstimatedRemaining`, in nanoseconds.
unfoldable pub estimated_remaining : ProgressEvent → ℕ → ℕ
estimated_remaining e queries_per_path =
    let completed = overall_completed e queries_per_path in
    let total = overall_total e queries_per_path in
    let samples = div_signed total 100 in
    let minimum_samples = if ltb_signed samples 10 then 10 else samples in
    if ltb_signed completed minimum_samples
      || leb_signed total completed
      || not (is_positive e.elapsed)
    then 0
    else mul64 (div_signed e.elapsed completed) (sub64 total completed)

module _ {F : Type 0} (ops : FloatOps F) where
  open ops use {of_int, div, mul, lt}

  abbrev pub clamp : F → F
  clamp percent =
      if lt percent (of_int 0)
      then of_int 0
      else if lt (of_int 100) percent
      then of_int 100
      else percent

  unfoldable pub percent : ProgressEvent → F
  percent e =
      if not (is_positive e.total)
      then of_int 0
      else clamp (mul (div (of_int e.current) (of_int e.total)) (of_int 100))

  unfoldable pub overall_percent : ProgressEvent → ℕ → F
  overall_percent e queries_per_path =
      let total = overall_total e queries_per_path in
      if not (is_positive total)
      then of_int 0
      else clamp
          (mul (div (of_int (overall_completed e queries_per_path)) (of_int total)) (of_int 100))
