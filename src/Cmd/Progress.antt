-- ===== src/Cmd/Progress.antt =====
-- dns/cmd/homedns-dns/progress.go: the reporter that prints the progress of a benchmark. A line, or a
-- part of a line, is told by its constructor and the values that are formatted into it; times are
-- nanoseconds, and `none` is the zero time.
pub mod Throttle
mod Samples
use Prim.Native.Char.{Char}
use Prim.Native.String.{String}
use text.Mathlib.Text.{◌==◌ as str_eq}
use homedns_analytics.Common.{
  ℕ, zero, suc, ◌+◌, ◌-◌, ◌*◌, ◌/◌, ◌%◌, ◌^◌, Bool, true, false, not, ◌&&◌, Option, none, some,
  List, [], ◌∷◌, ◌++◌, ltb, leb, ◌==◌, add64, sub64, is_positive, is_negative, ltb_signed, is_some,
  if◌then◌else◌,
}
use homedns_analytics.Float.{FloatOps}
use homedns_analytics.Strings.{append}
use homedns_analytics.Benchmark.Report.{PathResult, ScenarioResult}
use homedns_analytics.Benchmark.Progress.{
  ProgressEvent, Phase, no_phase, warmup_direct, warmup_forwarded, direct, forwarded, is_warmup,
  overall_total, estimated_remaining, percent,
}
use homedns_analytics.Cmd.Texts.{
  DurationText, format_duration, progress_bar, display_scenario_name, display_phase_name,
}

pub data EventType : Type 0 where
  benchmark_started scenario_started phase_started phase_progress : EventType
  phase_completed scenario_completed benchmark_completed other_type : EventType

-- `benchmark.ProgressEvent`
pub record Event (F : Type 0) : Type 0 where
  pub type : EventType
  pub occurred_at : Option ℕ
  pub scenario_name : String
  pub figures : ProgressEvent
  pub successful : ℕ
  pub failed : ℕ
  pub timeouts : ℕ
  pub phase_elapsed : ℕ
  pub attempted_qps : F
  pub successful_qps : F
  pub path_result : Option (PathResult F)
  pub scenario_result : Option (ScenarioResult F)

-- The lines of the reporter. A text of progress that would panic in the bar is `none` there.
pub data Line (F : Type 0) : Type 0 where
  heading rule empty_line summary_heading : Line F
  scenarios measured_queries : ℕ → Line F
  scenario : (index count : ℕ) → String → Line F
  started : String → Line F
  progress : String → Option String → F → (current total : ℕ) → Line F
  throughput : F → F → Line F
  counts : (successful failed timeouts : ℕ) → Line F
  phase_time : DurationText → Line F
  eta : DurationText → Line F
  warmup_completed : String → (successful total : ℕ) → Line F
  completed : String → (successful total failed timeouts : ℕ) → Line F
  latencies : (attempted successful mean p95 : F) → Line F
  scenario_time measured_time benchmark_time : DurationText → Line F
  path_counts : String → (successful attempted : ℕ) → F → (failed timeouts : ℕ) → Line F
  path_latencies : (qps mean median p95 p99 : F) → Line F
  overhead : (mean p95 : F) → Line F
  throughput_change : F → Line F

-- `terminalProgressReporter`: the time of the last line by scenario and phase.
pub record Reporter : Type 0 where
  pub query_count_per_path : ℕ
  pub last_event_by_phase : List ((ℕ × Phase) × ℕ)

abbrev pub new_reporter : ℕ → Reporter
new_reporter n = record { query_count_per_path = n; last_event_by_phase = [] }

unfoldable pub same_phase : Phase → Phase → Bool
same_phase no_phase no_phase = true
same_phase warmup_direct warmup_direct = true
same_phase warmup_forwarded warmup_forwarded = true
same_phase direct direct = true
same_phase forwarded forwarded = true
same_phase _ _ = false

unfoldable pub same_key : ℕ × Phase → ℕ × Phase → Bool
same_key (i, p) (j, q) = i == j && same_phase p q

unfoldable pub last_event : ℕ × Phase → List ((ℕ × Phase) × ℕ) → Option ℕ
last_event k [] = none
last_event k ((j, t) ∷ rest) =
    let later = last_event k rest in if same_key k j then some t else later

abbrev pub key_of : ProgressEvent → ℕ × Phase
key_of f = (f.scenario_index, f.phase)

-- Whether `reportPhaseProgress` leaves an event out: there is more to come, and less than a second has
-- passed since the last line of the phase.
unfoldable pub is_too_early : ProgressEvent → ℕ → Option ℕ → Bool
is_too_early f now none = false
is_too_early f now (some last) =
    ltb_signed f.current f.total && ltb_signed (sub64 now last) 1_000_000_000

abbrev pub time_of : Option ℕ → ℕ → ℕ
time_of none clock = clock
time_of (some t) clock = t

module _ {F : Type 0} (ops : FloatOps F) where
  abbrev eta_lines : ℕ → List (Line F)
  eta_lines remaining = if is_positive remaining then eta (format_duration remaining) ∷ [] else []

  unfoldable pub progress_lines : Reporter → Event F → List (Line F)
  unfolding format_duration
  progress_lines r e =
      let f = e.figures in
      progress (display_phase_name f.phase) (progress_bar ops (percent ops f) 30) (percent ops f)
        f.current f.total
      ∷ throughput e.attempted_qps e.successful_qps
      ∷ counts e.successful e.failed e.timeouts
      ∷ phase_time (format_duration e.phase_elapsed)
      ∷ eta_lines (estimated_remaining f r.query_count_per_path)

  -- `reportPhaseProgress`; `clock` is `time.Now()`.
  unfoldable pub report_phase_progress : ℕ → Reporter → Event F → Reporter × List (Line F)
  report_phase_progress clock r e =
      let f = e.figures in
      let now = time_of e.occurred_at clock in
      if is_warmup f
      then (r, [])
      else if is_too_early f now (last_event (key_of f) r.last_event_by_phase)
      then (r, [])
      else (
        record r { last_event_by_phase = (key_of f, now) ∷ r.last_event_by_phase },
        progress_lines r e,
      )

  abbrev result_lines : String → PathResult F → List (Line F)
  result_lines name p =
      completed name p.requests.successful p.requests.attempted p.requests.failed
        p.requests.timeouts
      ∷ latencies p.throughput.attempted_queries_per_second
          p.throughput.successful_queries_per_second p.latency.mean p.latency.p95
      ∷ []

  abbrev completed_lines : Event F → Option (PathResult F) → List (Line F)
  completed_lines e none =
      completed (display_phase_name e.figures.phase) e.successful e.figures.total e.failed
        e.timeouts
      ∷ []
  completed_lines e (some p) = result_lines (display_phase_name e.figures.phase) p

  unfoldable pub report_phase_completed : Event F → List (Line F)
  report_phase_completed e =
      if is_warmup e.figures
      then warmup_completed (display_phase_name e.figures.phase) e.successful e.figures.total ∷ []
      else completed_lines e e.path_result

  -- `reportScenarioPathSummary`
  unfoldable pub path_summary : String → PathResult F → List (Line F)
  path_summary name p =
      path_counts name p.requests.successful p.requests.attempted p.rates.success_percent
        p.requests.failed p.requests.timeouts
      ∷ path_latencies p.throughput.successful_queries_per_second p.latency.mean p.latency.median
          p.latency.p95 p.latency.p99
      ∷ []

  -- The duration that both paths of a scenario were measured.
  unfoldable pub measured_duration : ScenarioResult F → ℕ
  measured_duration s = ops.to_int (
      ops.mul (ops.add s.direct.duration_milliseconds s.forwarded.duration_milliseconds)
        (ops.of_int 1_000_000))

  abbrev scenario_lines : Event F → Option (ScenarioResult F) → List (Line F)
  scenario_lines e none = scenario_time (format_duration e.figures.elapsed) ∷ empty_line ∷ []
  scenario_lines e (some s) =
      (summary_heading ∷ path_summary "Direct" s.direct)
      ++ path_summary "Forwarded" s.forwarded
      ++ (overhead s.comparison.latency_overhead_milliseconds.mean
            s.comparison.latency_overhead_milliseconds.p95
          ∷ throughput_change s.comparison.throughput_successful
          ∷ measured_time (format_duration (measured_duration s))
          ∷ empty_line
          ∷ [])

  unfoldable pub report_scenario_completed : Event F → List (Line F)
  unfolding format_duration path_summary measured_duration
  report_scenario_completed e = scenario_lines e e.scenario_result

  -- `ReportProgress` of a reporter with a writer, under its mutex.
  unfoldable pub report_progress : ℕ → Reporter → Event F → Reporter × List (Line F)
  unfolding report_phase_progress report_phase_completed report_scenario_completed
  report_progress clock r e = elim e.type [
    | benchmark_started ↦ (
      r,
      heading
          ∷ rule
          ∷ scenarios e.figures.scenario_count
          ∷ measured_queries (overall_total e.figures r.query_count_per_path)
          ∷ empty_line
          ∷ [],
    )
    | scenario_started ↦ (
      r,
      scenario e.figures.scenario_index e.figures.scenario_count
            (display_scenario_name e.scenario_name)
          ∷ [],
    )
    | phase_started ↦
        (r, if is_warmup e.figures then [] else started (display_phase_name e.figures.phase) ∷ [])
    | phase_progress ↦ report_phase_progress clock r e
    | phase_completed ↦ (r, report_phase_completed e)
    | scenario_completed ↦ (r, report_scenario_completed e)
    | benchmark_completed ↦
        (r, rule ∷ benchmark_time (format_duration e.figures.elapsed) ∷ empty_line ∷ [])
    | other_type ↦ (r, [])
  ]
