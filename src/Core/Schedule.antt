-- ===== src/Core/Schedule.antt =====
-- crates/lmt-core/src/schedule.rs: schedules, the evaluation of a due schedule, and retries.
-- humantime, croner and the time zone database are the record `Calendar`.
pub mod Due
pub mod Retry
pub mod Validation
use lzu_mirror_tools.Prelude.{
  ℕ, ◌+◌, ◌*◌, ◌≤◌, ◌<◌, ◌≡◌, Bool, true, false, ◌&&◌, ◌||◌, not, Option, none, some, ltb, leb,
  if◌then◌else◌, ◌==◌, Result, ok, err, ◌>>=◌, coalesce,
}
use lzu_mirror_tools.Prelude.Int.{ℤ, pos, ltb_ℤ, min_ℤ, i64_max, checked_add, saturating_add, ◌<ℤ◌}
use lzu_mirror_tools.Prelude.Text.{Text}
use lzu_mirror_tools.Core.State.{AttemptState, RunState}

-- The messages of the module as constructors, with the text that each one quotes.
pub data ScheduleError : Type 0 where
  library : Text → ScheduleError
  fractional_seconds : ScheduleError
  interval_out_of_range : ScheduleError
  interval_timestamp_overflow : ScheduleError
  unknown_timezone : Text → ScheduleError
  timestamp_outside_range : ScheduleError
  wrong_field_count : ScheduleError
  extended_syntax : ScheduleError
  unsupported_token : Text → ScheduleError

-- What the code takes from humantime (a duration in seconds and nanoseconds), chrono and chrono_tz
-- (a zone by its name, the range of a timestamp), and croner (an expression, and its next occurrence
-- strictly after a time in a zone).
pub record Calendar : Type 1 where
  pub Zone : Type 0
  pub Cron : Type 0
  pub parse_duration : Text → Result Text (ℕ × ℕ)
  pub parse_zone : Text → Option Zone
  pub is_timestamp : ℤ → Bool
  pub parse_cron : Text → Result Text Cron
  pub find_next_occurrence : Cron → Zone → ℤ → Result Text ℤ

-- croner documents that without `inclusive` the occurrence lies strictly after the start.
abbrev pub FindsLater : Calendar → Type 0
FindsLater calendar =
    (cron : calendar.Cron) (zone : calendar.Zone) (start next : ℤ)
    → calendar.find_next_occurrence cron zone start ≡ ok next
    → start <ℤ next

pub data ScheduleConfig : Type 0 where
  interval : Text → ScheduleConfig
  cron : Text → Text → ScheduleConfig

pub data RunTrigger : Type 0 where
  manual scheduled : RunTrigger

pub record ScheduleRuntime : Type 0 where
  pub next_due_at_ms : Option ℤ
  pub last_evaluated_at_ms : Option ℤ
  pub catch_up_pending : Bool
  pub catch_up_since_ms : Option ℤ

pub record DueEvaluation : Type 0 where
  pub runtime : ScheduleRuntime
  pub became_due : Bool
  pub skipped_while_active : Bool

abbrev pub min_interval_seconds : ℕ
min_interval_seconds = 60

abbrev pub max_interval_seconds : ℕ
max_interval_seconds = 365 * 24 * 60 * 60

-- `map_err` on a library's error.
unfoldable pub from_library {ℓ} : {A : Type ℓ} → Result Text A → Result ScheduleError A
from_library (ok a) = ok a
from_library (err e) = err (library e)

-- `ok_or_else` and `map_err` on an option.
unfoldable pub ok_or {ℓ} : {A : Type ℓ} → Option A → ScheduleError → Result ScheduleError A
ok_or none e = err e
ok_or (some a) e = ok a

module _ (calendar : Calendar) where
  open calendar use {parse_duration, parse_zone, is_timestamp, parse_cron, find_next_occurrence}

  unfoldable pub parse_interval : Text → Result ScheduleError ℕ
  unfolding from_library
  parse_interval value = do
    duration ← from_library (parse_duration value)
    if not (duration.1 == 0)
        then err fractional_seconds
        else if not (leb min_interval_seconds duration.0 && leb duration.0 max_interval_seconds)
        then err interval_out_of_range
        else ok duration.0

  -- `ScheduleConfig::interval_seconds`.
  unfoldable pub interval_seconds : ScheduleConfig → Option ℕ
  unfolding parse_interval
  interval_seconds (interval value) = elim (parse_interval value) [
    | ok seconds ↦ some seconds
    | err e ↦ none
  ]
  interval_seconds (cron expression timezone) = none

  -- `i64::try_from` of the milliseconds, then `checked_add`.
  add_interval : ℤ → ℕ → Result ScheduleError ℤ
  unfolding ok_or
  add_interval after_ms seconds =
      let millis = seconds * 1000 in
      if leb millis i64_max
      then ok_or (checked_add after_ms (pos millis)) interval_timestamp_overflow
      else err interval_timestamp_overflow

  -- `ScheduleConfig::next_after_ms`.
  unfoldable pub next_after_ms : ScheduleConfig → ℤ → Result ScheduleError ℤ
  unfolding parse_interval from_library ok_or add_interval
  next_after_ms (interval value) after_ms = do
    seconds ← parse_interval value
    add_interval after_ms seconds
  next_after_ms (cron expression timezone) after_ms = do
    zone ← ok_or (parse_zone timezone) (unknown_timezone timezone)
    start ← (if is_timestamp after_ms then ok after_ms else err timestamp_outside_range)
    parsed ← from_library (parse_cron expression)
    from_library (find_next_occurrence parsed zone start)

  unfoldable pub activate_schedule : ScheduleConfig → ℤ → Result ScheduleError ScheduleRuntime
  activate_schedule schedule now_ms = do
    next ← next_after_ms schedule now_ms
    ok (record {
      next_due_at_ms = some next;
      last_evaluated_at_ms = some now_ms;
      catch_up_pending = false;
      catch_up_since_ms = none;
    })

  -- `map_or(due_at, |existing| existing.min(due_at))`.
  earliest_since : Option ℤ → ℤ → ℤ
  earliest_since none due_at = due_at
  earliest_since (some existing) due_at = min_ℤ existing due_at

  -- The intent of a due mirror: coalesced into one, or dropped while a run is active.
  due_intent : ScheduleRuntime → ℤ → ℤ → Bool → ScheduleRuntime
  unfolding earliest_since
  due_intent runtime due_at now_ms has_active_run =
      if has_active_run
      then record runtime {
        last_evaluated_at_ms = some now_ms;
        catch_up_pending = false;
        catch_up_since_ms = none;
      }
      else record runtime {
        last_evaluated_at_ms = some now_ms;
        catch_up_pending = true;
        catch_up_since_ms = some (earliest_since runtime.catch_up_since_ms due_at);
      }

  -- The next deadline: an interval waits for the run's end, a cron schedule for its next occurrence.
  next_deadline : ScheduleConfig → ℤ → Result ScheduleError (Option ℤ)
  next_deadline (interval value) now_ms = ok none
  next_deadline (cron expression timezone) now_ms = do
    next ← next_after_ms (cron expression timezone) now_ms
    ok (some next)

  -- The evaluation once the deadline is known.
  evaluate_deadline :
      ScheduleConfig → ScheduleRuntime → Option ℤ → ℤ → Bool → Result ScheduleError DueEvaluation
  unfolding due_intent next_deadline
  evaluate_deadline schedule runtime none now_ms has_active_run =
      ok (record { runtime = runtime; became_due = false; skipped_while_active = false })
  evaluate_deadline schedule runtime (some due_at) now_ms has_active_run =
      if ltb_ℤ now_ms due_at
      then ok (record { runtime = runtime; became_due = false; skipped_while_active = false })
      else do
        next ← next_deadline schedule now_ms
        ok (record {
          runtime = (record (due_intent runtime due_at now_ms has_active_run) {
            next_due_at_ms = next;
          });
          became_due = not has_active_run;
          skipped_while_active = has_active_run;
        })

  unfoldable pub evaluate_schedule_due :
      ScheduleConfig → ScheduleRuntime → ℤ → Bool → Result ScheduleError DueEvaluation
  unfolding evaluate_deadline
  evaluate_schedule_due schedule runtime now_ms has_active_run =
      evaluate_deadline schedule runtime runtime.next_due_at_ms now_ms has_active_run

  unfoldable pub rearm_interval : ScheduleConfig → ℤ → Result ScheduleError (Option ℤ)
  rearm_interval (interval value) terminal_at_ms = do
    next ← next_after_ms (interval value) terminal_at_ms
    ok (some next)
  rearm_interval (cron expression timezone) terminal_at_ms = ok none

pub record RetryContext : Type 0 where
  pub outcome : AttemptState
  pub attempt_no : ℕ
  pub max_attempts : ℕ
  pub retry_delay_seconds : ℕ
  pub cancel_requested : Bool
  pub mirror_eligible : Bool
  pub owner_unchanged : Bool
  pub server_now_ms : ℤ

pub data RetryDecision : Type 0 where
  schedule : ℤ → RetryDecision
  final : RunState → RetryDecision

is_retryable : AttemptState → Bool
is_retryable AttemptState.failed = true
is_retryable AttemptState.timed_out = true
is_retryable AttemptState.interrupted = true
is_retryable _ = false

final_run_state : AttemptState → RunState
final_run_state AttemptState.succeeded = RunState.succeeded
final_run_state AttemptState.timed_out = RunState.timed_out
final_run_state AttemptState.cancelled = RunState.cancelled
final_run_state _ = RunState.failed

-- `u64::saturating_mul(1_000)`.
abbrev pub u64_max : ℕ
u64_max = 18446744073709551615

unfoldable pub seconds_to_ms : ℕ → ℕ
seconds_to_ms seconds = if leb (seconds * 1000) u64_max then seconds * 1000 else u64_max

-- `i64::try_from(...).unwrap_or(i64::MAX)`.
retry_delay_ms : ℕ → ℕ
unfolding seconds_to_ms
retry_delay_ms seconds =
    if leb (seconds_to_ms seconds) i64_max then seconds_to_ms seconds else i64_max

unfoldable pub decide_retry : RetryContext → RetryDecision
unfolding is_retryable final_run_state retry_delay_ms
decide_retry c =
    if is_retryable c.outcome
      && ltb c.attempt_no c.max_attempts
      && not c.cancel_requested
      && c.mirror_eligible
      && c.owner_unchanged
    then schedule (saturating_add c.server_now_ms (pos (retry_delay_ms c.retry_delay_seconds)))
    else final (final_run_state c.outcome)
