-- ===== src/Cmd/Progress/Samples.antt =====
-- The progress reporter at concrete events.
use homedns_analytics.Common.{ℕ, ◌+◌, ◌≤◌, ◌<◌, ◌≡◌, ◌⊎◌, refl, none, some, [], ◌∷◌, arith}
use homedns_analytics.Float.{natural_ops}
use homedns_analytics.Benchmark.Progress.{direct, is_warmup}
use homedns_analytics.Cmd.Texts.{hours, format_duration, round_to}
use homedns_analytics.Cmd.Progress.{
  Event, phase_progress, Reporter, new_reporter, report_phase_progress, progress_lines,
  is_too_early, last_event, same_key, same_phase,
}
use homedns_analytics.Cmd.Progress.Throttle.{report_all, phase_progress_spacing}

an_hour : format_duration 3_661_500_000_000 ≡ hours 1 1 2
unfolding format_duration round_to
an_hour = refl

abbrev event : Event ℕ
event = record {
  type = phase_progress;
  occurred_at = some 5_000_000_000;
  scenario_name = "udp-sequential";
  figures = record {
    scenario_index = 1;
    scenario_count = 4;
    phase = direct;
    current = 10;
    total = 100;
    elapsed = 2_000_000_000;
  };
  successful = 10;
  failed = 0;
  timeouts = 0;
  phase_elapsed = 2_000_000_000;
  attempted_qps = 5;
  successful_qps = 5;
  path_result = none;
  scenario_result = none;
}

abbrev reporter : Reporter
reporter = new_reporter 100

-- The same phase of the next scenario.
abbrev elsewhere : Event ℕ
elsewhere = record event { figures = record event.figures { scenario_index = 2 } }

abbrev soon_after : Event ℕ
soon_after = record event {
  occurred_at = some 5_900_000_000;
  figures = record event.figures { current = 14 };
}

phase_progress_spacing_example :
    let r' =
      report_all natural_ops
        (report_phase_progress natural_ops 0 reporter event).0
        ((0, elsewhere) ∷ []) in
    ((report_phase_progress natural_ops 0 r' soon_after ≡ (r', []))
      × (14 < 100)
      × (5_900_000_000 < 5_000_000_000 + 1_000_000_000))
    ⊎ (((report_phase_progress natural_ops 0 r' soon_after).1
          ≡ progress_lines natural_ops r' soon_after)
        × (100 ≤ 14 ⊎ 5_000_000_000 + 1_000_000_000 ≤ 5_900_000_000))
unfolding report_phase_progress is_warmup is_too_early last_event same_key same_phase progress_lines
phase_progress_spacing_example =
    phase_progress_spacing natural_ops 0 0 reporter event soon_after ((0, elsewhere) ∷ [])
      (λ h. ground (arith, h)) refl (refl, tt)
      (record {
        total = omega arith;
        current = omega arith;
        ordered = omega arith;
        fits = omega arith;
      })
