-- ===== src/Cmd/Progress/Throttle.antt =====
-- dns/cmd/homedns-dns/progress.go: how often the progress of a phase is printed.
use homedns_analytics.Common.{
  ℕ, ◌+◌, ◌≤◌, ◌<◌, ◌^◌, ◌≡◌, ◌≢◌, ◌⊎◌, inl, inr, refl, ap, ◌∙◌, Bool, true, false, Option, some,
  List, [], ◌∷◌, All, arith,
}
use homedns_analytics.Float.{FloatOps}
use homedns_analytics.Benchmark.Progress.{
  ProgressEvent, Phase, is_warmup, no_phase, warmup_direct, warmup_forwarded, direct, forwarded,
}
use homedns_analytics.Cmd.Progress.{
  Event, Reporter, report_phase_progress, report_progress, progress_lines, is_too_early, last_event,
  same_key, same_phase, key_of, time_of,
}

same_key_refl : (k : ℕ × Phase) → same_key k k ≡ true
unfolding same_key same_phase
same_key_refl (i, no_phase) = ground arith
same_key_refl (i, warmup_direct) = ground arith
same_key_refl (i, warmup_forwarded) = ground arith
same_key_refl (i, direct) = ground arith
same_key_refl (i, forwarded) = ground arith

-- The figures and the times are numbers of Go's range, and no time lies before the last.
pub record IsTimely (f : ProgressEvent) (last now : ℕ) : Type 0 where
  pub total : f.total < 2 ^ 63
  pub current : f.current < 2 ^ 63
  pub ordered : last ≤ now
  pub fits : now < 2 ^ 63

-- There is more to come, and less than a second has passed.
too_early_iff :
    (f : ProgressEvent) (last now : ℕ)
    → IsTimely f last now
    → ((is_too_early f now (some last) ≡ true)
        × (f.current < f.total)
        × (now < last + 1_000_000_000))
      ⊎ ((is_too_early f now (some last) ≡ false)
          × (f.total ≤ f.current ⊎ last + 1_000_000_000 ≤ now))
unfolding is_too_early
too_early_iff f last now v = ground (arith, v.total, v.current, v.ordered, v.fits)

abbrev is_warmup_phase : Phase → Bool
is_warmup_phase p = elim p [ warmup_direct ↦ true | warmup_forwarded ↦ true | _ ↦ false ]

module _ {F : Type 0} (ops : FloatOps F) where
  -- The last time recorded for the phase of an event.
  abbrev pub last_of : Reporter → ProgressEvent → Option ℕ
  last_of r f = last_event (key_of f) r.last_event_by_phase

  abbrev pub now_of : ℕ → Event F → ℕ
  now_of clock e = time_of e.occurred_at clock

  -- The reporter after events, each with its clock.
  unfoldable pub report_all : Reporter → List (ℕ × Event F) → Reporter
  report_all r [] = r
  report_all r ((clock, e) ∷ es) = report_all (report_progress ops clock r e).0 es

  -- The event is one of another phase or scenario.
  abbrev pub IsElsewhere : ℕ × Phase → ℕ × Event F → Type 0
  IsElsewhere k (clock, e) = same_key k (key_of e.figures) ≡ false

  -- An event of another phase changes nothing that is remembered for a phase.
  phase_progress-elsewhere :
      (clock : ℕ) (r : Reporter) (e : Event F) (k : ℕ × Phase)
      → same_key k (key_of e.figures) ≡ false
      → last_event k (report_phase_progress ops clock r e).0.last_event_by_phase
        ≡ last_event k r.last_event_by_phase
  unfolding report_phase_progress last_event
  phase_progress-elsewhere clock r e k h = ground arith

  report_progress-elsewhere :
      (clock : ℕ) (r : Reporter) (e : Event F) (k : ℕ × Phase)
      → same_key k (key_of e.figures) ≡ false
      → last_event k (report_progress ops clock r e).0.last_event_by_phase
        ≡ last_event k r.last_event_by_phase
  unfolding report_progress
  report_progress-elsewhere clock r e k h =
      let same = phase_progress-elsewhere clock r e k h in ground arith

  report_all-elsewhere :
      (r : Reporter) (es : List (ℕ × Event F)) (k : ℕ × Phase)
      → All (IsElsewhere k) es
      → last_event k (report_all r es).last_event_by_phase ≡ last_event k r.last_event_by_phase
  unfolding report_all
  report_all-elsewhere r [] k h = refl
  report_all-elsewhere r ((clock, e) ∷ es) k (h, hs) =
      report_all-elsewhere (report_progress ops clock r e).0 es k hs
      ∙ report_progress-elsewhere clock r e k h

  printed-remembered :
      (clock : ℕ) (r : Reporter) (e : Event F)
      → (report_phase_progress ops clock r e).1 ≢ []
      → (is_warmup e.figures ≡ false)
        × (last_event (key_of e.figures) (report_phase_progress ops clock r e).0.last_event_by_phase
            ≡ some (now_of clock e))
  unfolding report_phase_progress last_event
  printed-remembered clock r e h = ground (arith, same_key_refl (key_of e.figures))

  printed_iff :
      (clock : ℕ) (r : Reporter) (e : Event F) (last : ℕ)
      → is_warmup e.figures ≡ false
      → last_of r e.figures ≡ some last
      → IsTimely e.figures last (now_of clock e)
      → ((report_phase_progress ops clock r e ≡ (r, []))
          × (e.figures.current < e.figures.total)
          × (now_of clock e < last + 1_000_000_000))
        ⊎ (((report_phase_progress ops clock r e).1 ≡ progress_lines ops r e)
            × (e.figures.total ≤ e.figures.current ⊎ last + 1_000_000_000 ≤ now_of clock e))
  unfolding report_phase_progress
  printed_iff clock r e last w h v =
      let t = too_early_iff e.figures last (now_of clock e) v in
      rw (w, h)
        (elim t [
          | inl (early, more, soon) ↦ inl (rw early refl, more, soon)
          | inr (late, enough) ↦ inr (rw late refl, enough)
        ])

  -- Between two lines of a phase there is a second, except for the last: after an event of progress that
  -- was printed, and any events of other phases or scenarios, the next one of its phase is left out, and
  -- nothing remembered, if it has more to come and comes less than a second after the first; it is
  -- printed if it is the last one or a second has passed. The figures and the times are numbers of
  -- Go's range, and the second event does not lie before the first.
  pub phase_progress_spacing :
      (clock clock' : ℕ) (r : Reporter) (e e' : Event F) (es : List (ℕ × Event F))
      → (report_phase_progress ops clock r e).1 ≢ []
      → key_of e'.figures ≡ key_of e.figures
      → All (IsElsewhere (key_of e.figures)) es
      → IsTimely e'.figures (now_of clock e) (now_of clock' e')
      → let r' = report_all (report_phase_progress ops clock r e).0 es in
        ((report_phase_progress ops clock' r' e' ≡ (r', []))
          × (e'.figures.current < e'.figures.total)
          × (now_of clock' e' < now_of clock e + 1_000_000_000))
        ⊎ (((report_phase_progress ops clock' r' e').1 ≡ progress_lines ops r' e')
            × (e'.figures.total ≤ e'.figures.current
                ⊎ now_of clock e + 1_000_000_000 ≤ now_of clock' e'))
  unfolding is_warmup
  phase_progress_spacing clock clock' r e e' es printed same elsewhere v =
      let (measured, last) = printed-remembered clock r e printed in
      let kept = report_all-elsewhere (report_phase_progress ops clock r e).0 es _ elsewhere in
      let r' = report_all (report_phase_progress ops clock r e).0 es in
      printed_iff clock' r' e' (now_of clock e) (ap is_warmup_phase (ap (λ k. k.1) same) ∙ measured)
        (ap (λ k. last_event k r'.last_event_by_phase) same ∙ kept ∙ last) v
