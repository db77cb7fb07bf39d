-- ===== src/Cmd/Texts/Durations.antt =====
-- dns/cmd/homedns-dns/progress.go: the duration that `formatDuration` prints, against the duration that
-- it is given.
use homedns_analytics.Common.{ℕ, ◌+◌, ◌-◌, ◌*◌, ◌/◌, ◌≤◌, ◌<◌}
use homedns_analytics.Cmd.Texts.{
  DurationText, nothing, milliseconds, hours, minutes, seconds, clock_text,
}

-- The time that a text shows, in nanoseconds.
abbrev pub shown : DurationText → ℕ
shown nothing = 0
shown (milliseconds n) = n * 1_000_000
shown (hours h m s) = (h * 3_600 + m * 60 + s) * 1_000_000_000
shown (minutes m s) = (m * 60 + s) * 1_000_000_000
shown (seconds s) = s * 1_000_000_000

-- The numbers of a text are those of a clock: minutes and seconds below 60, and the first number is
-- not 0.
abbrev pub IsClock : DurationText → Type 0
IsClock nothing = Unit
IsClock (milliseconds n) = (1 ≤ n) × (n ≤ 1_000)
IsClock (hours h m s) = (1 ≤ h) × (m < 60) × (s < 60)
IsClock (minutes m s) = (1 ≤ m) × (m < 60) × (s < 60)
IsClock (seconds s) = (1 ≤ s) × (s < 60)

abbrev clock_of : ℕ → DurationText
clock_of r =
    let h = r / 3_600_000_000_000 in
    let rest = r - h * 3_600_000_000_000 in
    let m = rest / 60_000_000_000 in clock_text h m ((rest - m * 60_000_000_000) / 1_000_000_000)
