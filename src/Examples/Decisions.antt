-- ===== src/Examples/Decisions.antt =====
-- Schedules, retries, reports and logs at concrete values.
use lzu_mirror_tools.Prelude.{
  ◌≡◌, ◌⊎◌, ◌↔◌, ◌*◌, refl, none, some, ok, err, true, false, arith, not, unwrap_or,
}
use lzu_mirror_tools.Prelude.Int.{
  ℤ, pos, ◌≤ℤ◌, ◌+ℤ◌, IsI64, i64_max, int_laws, ◌-ℤ◌, checked_add, saturating_add, saturating_sub,
}
use lzu_mirror_tools.Prelude.Text.{codes}
use lzu_mirror_tools.Core.State.{
  AttemptState, RunState, AttemptProjection, run_is_terminal, is_terminal, attempt_state_eq, allows,
  project_attempt_event, validate_attempt_transition,
}
use lzu_mirror_tools.Core.State.Projection.{
  IsRefused, project_attempt_event-err, project_attempt_event-ok,
}
use lzu_mirror_tools.Core.Schedule.{
  FindsLater, DueEvaluation, RetryContext, interval, final, schedule, parse_interval,
  interval_seconds, next_after_ms, activate_schedule, evaluate_schedule_due, rearm_interval,
  seconds_to_ms, decide_retry,
}
use lzu_mirror_tools.Core.Schedule.Due.{
  next_after_ms-interval, evaluate_schedule_due_again, evaluate_schedule_due_coalesces,
}
use lzu_mirror_tools.Core.Schedule.Retry.{MayRetry, decide_retry_lem, decide_retry-bounds}
use lzu_mirror_tools.Examples.{calendar, no_schedule, failure}

calendar-FindsLater : FindsLater calendar
calendar-FindsLater cron zone start next h = ground arith

next_after_ms-interval_example :
    (pos 1000 +ℤ pos 60000 ≤ℤ pos 61000)
    × (pos 61000 ≤ℤ pos 1000 +ℤ pos 31536000000)
    × IsI64 (pos 61000)
unfolding parse_interval interval_seconds next_after_ms activate_schedule evaluate_schedule_due
    rearm_interval seconds_to_ms decide_retry ◌+ℤ◌ ◌-ℤ◌ checked_add saturating_add saturating_sub
next_after_ms-interval_example =
    next_after_ms-interval calendar (codes "1m") (pos 1000) {next = pos 61000} refl

-- Two deadlines were missed.
abbrev evaluated : DueEvaluation
evaluated = record {
  runtime = record {
    next_due_at_ms = none;
    last_evaluated_at_ms = some (pos 9000);
    catch_up_pending = true;
    catch_up_since_ms = some (pos 5000);
  };
  became_due = true;
  skipped_while_active = false;
}

evaluate_schedule_due_again_example :
    evaluate_schedule_due calendar (interval (codes "1m")) evaluated.runtime (pos 9000) true
    ≡ ok (record { runtime = evaluated.runtime; became_due = false; skipped_while_active = false })
unfolding parse_interval interval_seconds next_after_ms activate_schedule evaluate_schedule_due
    rearm_interval seconds_to_ms decide_retry ◌+ℤ◌ ◌-ℤ◌ checked_add saturating_add saturating_sub
evaluate_schedule_due_again_example =
    evaluate_schedule_due_again calendar calendar-FindsLater (interval (codes "1m")) no_schedule
      (pos 9000) false true {ev = evaluated} refl

evaluate_schedule_due_coalesces_example :
    (evaluated.became_due ≡ not false)
    × (evaluated.skipped_while_active ≡ false)
    × (evaluated.runtime.catch_up_pending ≡ not false)
    × (false ≡ true → evaluated.runtime.catch_up_since_ms ≡ none)
    × (false ≡ false
        → (since : ℤ) × (evaluated.runtime.catch_up_since_ms ≡ some since)
          × (since ≤ℤ pos 5000)
          × (since ≤ℤ unwrap_or no_schedule.catch_up_since_ms (pos 5000))
          × ((since ≡ pos 5000) ⊎ (no_schedule.catch_up_since_ms ≡ some since)))
unfolding parse_interval interval_seconds next_after_ms activate_schedule evaluate_schedule_due
    rearm_interval seconds_to_ms decide_retry ◌+ℤ◌ ◌-ℤ◌ checked_add saturating_add saturating_sub
evaluate_schedule_due_coalesces_example =
    evaluate_schedule_due_coalesces calendar (interval (codes "1m")) no_schedule (pos 9000)
      (pos 5000) false {ev = evaluated} refl (omega (int_laws, arith)) refl

abbrev context : RetryContext
context = record {
  outcome = AttemptState.failed;
  attempt_no = 1;
  max_attempts = 3;
  retry_delay_seconds = 5;
  cancel_requested = false;
  mirror_eligible = true;
  owner_unchanged = true;
  server_now_ms = pos 2000;
}

decide_retry_lem_example :
    (decide_retry context ≡ schedule (pos 7000) → MayRetry context)
    × (decide_retry context ≡ final RunState.failed
        → (run_is_terminal RunState.failed ≡ true)
          × (RunState.failed ≡ RunState.succeeded → context.outcome ≡ AttemptState.succeeded))
decide_retry_lem_example = decide_retry_lem context (pos 7000) RunState.failed

decide_retry-bounds_example :
    IsI64 (pos 7000)
    × (pos 2000 ≤ℤ pos 7000)
    × (pos 7000 ≤ℤ pos 2000 +ℤ pos (5 * 1000))
    × (pos 0 ≤ℤ pos 2000
        → pos 2000 +ℤ pos (5 * 1000) ≤ℤ pos i64_max
        → pos 7000 ≡ pos 2000 +ℤ pos (5 * 1000))
unfolding parse_interval interval_seconds next_after_ms activate_schedule evaluate_schedule_due
    rearm_interval seconds_to_ms decide_retry ◌+ℤ◌ ◌-ℤ◌ checked_add saturating_add saturating_sub
decide_retry-bounds_example = decide_retry-bounds context (pos 7000) (omega (int_laws, arith)) refl

project_attempt_event-err_example :
    (project_attempt_event AttemptState.succeeded failure
      ≡ err (record { from = AttemptState.succeeded; to = AttemptState.failed }))
    ↔ IsRefused AttemptState.succeeded AttemptState.failed
project_attempt_event-err_example = project_attempt_event-err AttemptState.succeeded failure

abbrev projection : AttemptProjection
projection = record {
  run_state = some RunState.failed;
  run_started_at_ms = some (pos 1001);
  run_finished_at_ms = some (pos 2000);
}

project_attempt_event-ok_example :
    (run_is_terminal (unwrap_or projection.run_state RunState.pending) ≡ is_terminal failure.state)
    × (is_terminal failure.state ≡ true → projection.run_finished_at_ms ≡ failure.finished_at_ms)
    × ((projection.run_state ≡ some RunState.running)
        ↔ ((failure.state ≡ AttemptState.accepted) ⊎ (failure.state ≡ AttemptState.running)))
    × ((projection.run_state ≡ none) ↔ (failure.state ≡ AttemptState.queued))
unfolding run_is_terminal is_terminal attempt_state_eq allows project_attempt_event
    validate_attempt_transition
project_attempt_event-ok_example =
    project_attempt_event-ok AttemptState.running failure {p = projection} refl
