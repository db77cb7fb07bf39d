-- ===== src/Cmd/Texts.antt =====
-- dns/cmd/homedns-dns/progress.go: the texts that the progress reporter prints: durations, bars and
-- names.
pub mod Durations
pub mod Bar
use Prim.Native.Char.{Char}
use Prim.Native.String.{String}
use text.Mathlib.Text.{◌==◌ as str_eq}
use homedns_analytics.Common.{
  ℕ, zero, suc, ◌+◌, ◌-◌, ◌*◌, ◌/◌, ◌%◌, ◌^◌, Bool, true, false, not, ◌&&◌, Option, none, some,
  List, [], ◌∷◌, ltb, leb, ◌==◌, add64, sub64, is_positive, is_negative, ltb_signed, is_some,
  if◌then◌else◌,
}
use homedns_analytics.Float.{FloatOps}
use homedns_analytics.Strings.{append}
use homedns_analytics.Benchmark.Report.{PathResult, ScenarioResult}
use homedns_analytics.Benchmark.Progress.{
  ProgressEvent, Phase, no_phase, warmup_direct, warmup_forwarded, direct, forwarded, is_warmup,
  overall_total, estimated_remaining, percent,
}

-- What `formatDuration` prints.
pub data DurationText : Type 0 where
  -- `"0s"`
  nothing : DurationText
  -- `"%dms"`
  milliseconds : ℕ → DurationText
  -- `"%dh%02dm%02ds"`
  hours : (h m s : ℕ) → DurationText
  -- `"%dm%02ds"`
  minutes : (m s : ℕ) → DurationText
  -- `"%ds"`
  seconds : ℕ → DurationText

-- `d.Round(m)` of a duration that is not negative.
unfoldable pub round_to : ℕ → ℕ → ℕ
round_to d m =
    let r = d % m in
    if ltb (r + r) m then d - r else if ltb (d + m - r) (2 ^ 63) then d + m - r else 2 ^ 63 - 1

abbrev pub clock_text : (h m s : ℕ) → DurationText
clock_text h m s =
    if is_positive h then hours h m s else if is_positive m then minutes m s else seconds s

-- `formatDuration`
unfoldable pub format_duration : ℕ → DurationText
unfolding round_to
format_duration d =
    if not (is_positive d)
    then nothing
    else if ltb d 1_000_000_000
    then (let ms = round_to d 1_000_000 / 1_000_000 in milliseconds (if ltb ms 1 then 1 else ms))
    else let r = round_to d 1_000_000_000 in
      let h = r / 3_600_000_000_000 in
      let rest = r - h * 3_600_000_000_000 in
      let m = rest / 60_000_000_000 in
      let rest' = rest - m * 60_000_000_000 in clock_text h m (rest' / 1_000_000_000)

-- `strings.Repeat` of one character.
unfoldable pub repeated : Char → ℕ → String
repeated c zero = String.[]
repeated c (suc n) = String.◌∷◌ c (repeated c n)

-- The bar of `n` cells, `completed` of them done.
abbrev pub bar_text : ℕ → ℕ → String
bar_text completed n =
    append "[" (append (repeated "#" completed) (append (repeated "-" (n - completed)) "]"))

-- `progressBar`; `none` is the panic of `strings.Repeat` for a negative count.
unfoldable pub progress_bar : {F : Type 0} → FloatOps F → F → ℕ → Option String
progress_bar ops percent width =
    if not (is_positive width)
    then some "[]"
    else let p = if ops.lt percent (ops.of_int 0) then ops.of_int 0 else percent in
      let q = if ops.lt (ops.of_int 100) p then ops.of_int 100 else p in
      let completed = ops.to_int (ops.mul (ops.div q (ops.of_int 100)) (ops.of_int width)) in
      let completed' = if ltb_signed width completed then width else completed in
      if is_negative completed' then none else some (bar_text completed' width)

unfoldable pub display_scenario_name : String → String
display_scenario_name value =
    if str_eq value "udp-sequential"
    then "UDP sequential"
    else if str_eq value "udp-concurrent"
    then "UDP concurrent"
    else if str_eq value "tcp-sequential"
    then "TCP sequential"
    else if str_eq value "tcp-concurrent"
    then "TCP concurrent"
    else value

unfoldable pub display_phase_name : Phase → String
display_phase_name warmup_direct = "Direct warmup"
display_phase_name warmup_forwarded = "Forwarded warmup"
display_phase_name direct = "Direct"
display_phase_name forwarded = "Forwarded"
display_phase_name no_phase = ""
