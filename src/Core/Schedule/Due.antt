-- ===== src/Core/Schedule/Due.antt =====
-- When a schedule falls due, and what its evaluation leaves (crates/lmt-core/src/schedule.rs).
use lzu_mirror_tools.Prelude.{
  ◌≡◌, refl, Bool, ◌⊎◌, true, false, not, some, none, ok, arith, Option, Option-cases, inl, inr,
  ◌*◌, Result-cases, unwrap_or, ◌≤◌, ℕ,
}
use lzu_mirror_tools.Prelude.Int.{
  ℤ, pos, ◌≤ℤ◌, ◌<ℤ◌, ◌+ℤ◌, IsI64, checked_add, checked_add-some, int_laws, min_ℤ,
}
use lzu_mirror_tools.Prelude.Text.{Text}
use lzu_mirror_tools.Core.Schedule.{
  Calendar, FindsLater, ScheduleConfig, ScheduleRuntime, DueEvaluation, interval, cron,
  earliest_since, parse_interval, next_after_ms, next_deadline, evaluate_schedule_due,
}

module _ (calendar : Calendar) where
  -- An interval that parses is between a minute and 365 days.
  pub parse_interval_bounds :
      (value : Text) {seconds : ℕ}
      → parse_interval calendar value ≡ ok seconds
      → (60 ≤ seconds) × (seconds ≤ 31536000)
  unfolding parse_interval
  parse_interval_bounds value h = ground arith

  -- The successor of an interval is the exact sum, in range.
  next_after_ms-sum :
      (value : Text) (after_ms : ℤ) {next : ℤ}
      → next_after_ms calendar (interval value) after_ms ≡ ok next
      → (seconds : ℕ) × (parse_interval calendar value ≡ ok seconds)
        × (checked_add after_ms (pos (seconds * 1000)) ≡ some next)
  unfolding next_after_ms
  next_after_ms-sum value after_ms h = elim (Result-cases (parse_interval calendar value)) [
    | inl (seconds, e) ↦ (seconds, e, ground arith)
    | inr (x, e) ↦ absurd (ground arith)
  ]

  -- An interval schedule that has a next time is next due between a minute and 365 days later, at a time in range.
  pub next_after_ms-interval :
      (value : Text) (after_ms : ℤ) {next : ℤ}
      → next_after_ms calendar (interval value) after_ms ≡ ok next
      → (after_ms +ℤ pos 60000 ≤ℤ next) × (next ≤ℤ after_ms +ℤ pos 31536000000) × IsI64 next
  next_after_ms-interval value after_ms h =
      let (seconds, parsed, sum) = next_after_ms-sum value after_ms h in
      let bounds = parse_interval_bounds value parsed in
      let (exact, ranged) = checked_add-some after_ms (pos (seconds * 1000)) sum in
      (rw exact (omega (int_laws, bounds)), rw exact (omega (int_laws, bounds)), rw exact ranged)

  pub next_after_ms-later :
      FindsLater calendar
      → (schedule : ScheduleConfig) (now_ms : ℤ) {next : ℤ}
      → next_after_ms calendar schedule now_ms ≡ ok next
      → now_ms <ℤ next
  unfolding next_after_ms
  next_after_ms-later later (interval value) now_ms h =
      omega (int_laws, next_after_ms-interval value now_ms h)
  next_after_ms-later later (cron expression timezone) now_ms {next} h =
      elim (Option-cases (calendar.parse_zone timezone)) [
        | inl e ↦ ground arith
        | inr (zone, e) ↦ elim (Result-cases (calendar.parse_cron expression)) [
          | inl (parsed, e') ↦ later parsed zone now_ms next (ground arith)
          | inr (x, e') ↦ ground arith
        ]
      ]

  -- The deadline that an evaluation leaves.
  abbrev pub IsAhead : Option ℤ → ℤ → Type 0
  IsAhead none now_ms = Unit
  IsAhead (some due) now_ms = now_ms <ℤ due

  next_deadline-IsAhead :
      FindsLater calendar
      → (schedule : ScheduleConfig) (now_ms : ℤ) {next : Option ℤ}
      → next_deadline calendar schedule now_ms ≡ ok next
      → IsAhead next now_ms
  unfolding next_deadline
  next_deadline-IsAhead later (interval value) now_ms {next = none} h = tt
  next_deadline-IsAhead later (interval value) now_ms {next = some due} h = ground arith
  next_deadline-IsAhead later (cron expression timezone) now_ms {next = none} h = tt
  next_deadline-IsAhead later (cron expression timezone) now_ms {next = some due} h =
      next_after_ms-later later (cron expression timezone) now_ms
        (elim (Result-cases (next_after_ms calendar (cron expression timezone) now_ms)) [
          | inl (later_ms, e) ↦ ground arith
          | inr (x, e) ↦ ground arith
        ])

  evaluate-IsAhead :
      FindsLater calendar
      → (schedule : ScheduleConfig) (runtime : ScheduleRuntime) (now_ms : ℤ) (busy : Bool)
      → {ev : DueEvaluation} → evaluate_schedule_due calendar schedule runtime now_ms busy ≡ ok ev
      → IsAhead ev.runtime.next_due_at_ms now_ms
  unfolding evaluate_schedule_due
  evaluate-IsAhead later schedule runtime now_ms busy {ev} h =
      elim (Result-cases (next_deadline calendar schedule now_ms)) [
        | inl (next, e) ↦ ground (arith, next_deadline-IsAhead later schedule now_ms e)
        | inr (x, e) ↦ ground arith
      ]

  evaluate_idle :
      (schedule : ScheduleConfig) (runtime : ScheduleRuntime) (now_ms : ℤ) (busy : Bool)
      → IsAhead runtime.next_due_at_ms now_ms
      → evaluate_schedule_due calendar schedule runtime now_ms busy
        ≡ ok (record { runtime = runtime; became_due = false; skipped_while_active = false })
  unfolding evaluate_schedule_due
  evaluate_idle schedule runtime now_ms busy ahead = ground arith

  -- An evaluation leaves no deadline at or before its time, so a second one at that time changes
  -- nothing and makes nothing due, if croner finds later occurrences only.
  pub evaluate_schedule_due_again :
      FindsLater calendar
      → (schedule : ScheduleConfig) (runtime : ScheduleRuntime) (now_ms : ℤ) (busy busy' : Bool)
      → {ev : DueEvaluation} → evaluate_schedule_due calendar schedule runtime now_ms busy ≡ ok ev
      → evaluate_schedule_due calendar schedule ev.runtime now_ms busy'
        ≡ ok (record { runtime = ev.runtime; became_due = false; skipped_while_active = false })
  evaluate_schedule_due_again later schedule runtime now_ms busy busy' {ev} h =
      evaluate_idle schedule ev.runtime now_ms busy'
        (evaluate-IsAhead later schedule runtime now_ms busy h)

  -- The earlier of the two times.
  earliest_since-least :
      (had : Option ℤ) (due_at : ℤ)
      → (since : ℤ) × (earliest_since calendar had due_at ≡ since)
        × (since ≤ℤ due_at)
        × (since ≤ℤ unwrap_or had due_at)
        × ((since ≡ due_at) ⊎ (had ≡ some since))
  unfolding earliest_since
  earliest_since-least none due_at =
      (due_at, refl, omega (int_laws, arith), omega (int_laws, arith), inl refl)
  earliest_since-least (some had) due_at =
      (min_ℤ had due_at, refl, ground arith, ground arith, ground arith)

  -- Any number of missed deadlines leave one intent, from the earliest of them: an idle mirror that
  -- is due gets an intent of a time that is its deadline or the time of the intent that it had, and
  -- no later than either; a busy one loses its intent and is reported as skipped.
  pub evaluate_schedule_due_coalesces :
      (schedule : ScheduleConfig) (runtime : ScheduleRuntime) (now_ms due_at : ℤ) (busy : Bool)
      → {ev : DueEvaluation} → runtime.next_due_at_ms ≡ some due_at
      → due_at ≤ℤ now_ms
      → evaluate_schedule_due calendar schedule runtime now_ms busy ≡ ok ev
      → (ev.became_due ≡ not busy)
        × (ev.skipped_while_active ≡ busy)
        × (ev.runtime.catch_up_pending ≡ not busy)
        × (busy ≡ true → ev.runtime.catch_up_since_ms ≡ none)
        × (busy ≡ false
            → (since : ℤ) × (ev.runtime.catch_up_since_ms ≡ some since)
              × (since ≤ℤ due_at)
              × (since ≤ℤ unwrap_or runtime.catch_up_since_ms due_at)
              × ((since ≡ due_at) ⊎ (runtime.catch_up_since_ms ≡ some since)))
  unfolding evaluate_schedule_due
  evaluate_schedule_due_coalesces schedule runtime now_ms due_at busy {ev} due late h =
      elim (Result-cases (next_deadline calendar schedule now_ms)) [
        | inl (next, e) ↦ (
          ground arith,
          ground arith,
          ground arith,
          λ b. ground arith,
          λ b.
              let (since, is, due_first, had_first, one) =
                earliest_since-least runtime.catch_up_since_ms due_at in
              (since, ground (arith, is), due_first, had_first, one),
        )
        | inr (x, e) ↦ absurd (ground arith)
      ]
