-- ===== src/Core/State.antt =====
-- crates/lmt-core/src/state.rs: the states of runs and attempts, the run specification, the events
-- that an Agent reports, and the projection of an event onto its run.
pub mod Order
pub mod Projection
use lzu_mirror_tools.Prelude.{
  ℕ, Bool, true, false, ◌&&◌, ◌||◌, not, Option, none, some, List, if◌then◌else◌, Result, ok, err,
  coalesce,
}
use lzu_mirror_tools.Prelude.Int.{ℤ}
use lzu_mirror_tools.Prelude.Text.{Text}

pub data RunState : Type 0 where
  pending running succeeded failed cancelled timed_out : RunState

pub data AttemptState : Type 0 where
  queued accepted running succeeded failed timed_out cancelled interrupted rejected : AttemptState

-- `RunState::is_terminal`.
unfoldable pub run_is_terminal : RunState → Bool
run_is_terminal RunState.succeeded = true
run_is_terminal RunState.failed = true
run_is_terminal RunState.cancelled = true
run_is_terminal RunState.timed_out = true
run_is_terminal _ = false

-- `AttemptState::is_terminal`.
unfoldable pub is_terminal : AttemptState → Bool
is_terminal AttemptState.succeeded = true
is_terminal AttemptState.failed = true
is_terminal AttemptState.timed_out = true
is_terminal AttemptState.cancelled = true
is_terminal AttemptState.interrupted = true
is_terminal AttemptState.rejected = true
is_terminal _ = false

-- The derived `==` of `AttemptState`.
unfoldable pub attempt_state_eq : AttemptState → AttemptState → Bool
attempt_state_eq AttemptState.queued AttemptState.queued = true
attempt_state_eq AttemptState.accepted AttemptState.accepted = true
attempt_state_eq AttemptState.running AttemptState.running = true
attempt_state_eq AttemptState.succeeded AttemptState.succeeded = true
attempt_state_eq AttemptState.failed AttemptState.failed = true
attempt_state_eq AttemptState.timed_out AttemptState.timed_out = true
attempt_state_eq AttemptState.cancelled AttemptState.cancelled = true
attempt_state_eq AttemptState.interrupted AttemptState.interrupted = true
attempt_state_eq AttemptState.rejected AttemptState.rejected = true
attempt_state_eq _ _ = false

-- The `match` of `AttemptState::allows`, after the test for equality.
advances : AttemptState → AttemptState → Bool
advances AttemptState.queued AttemptState.accepted = true
advances AttemptState.queued AttemptState.cancelled = true
advances AttemptState.queued AttemptState.rejected = true
advances AttemptState.accepted AttemptState.running = true
advances AttemptState.accepted AttemptState.succeeded = true
advances AttemptState.accepted AttemptState.failed = true
advances AttemptState.accepted AttemptState.timed_out = true
advances AttemptState.accepted AttemptState.cancelled = true
advances AttemptState.accepted AttemptState.interrupted = true
advances AttemptState.running AttemptState.succeeded = true
advances AttemptState.running AttemptState.failed = true
advances AttemptState.running AttemptState.timed_out = true
advances AttemptState.running AttemptState.cancelled = true
advances AttemptState.running AttemptState.interrupted = true
advances _ _ = false

-- `AttemptState::allows`.
unfoldable pub allows : AttemptState → AttemptState → Bool
unfolding attempt_state_eq advances
allows from next = if attempt_state_eq from next then true else advances from next

pub data FailureKind : Type 0 where
  process timeout interrupted rejected invalid_result publication_durability : FailureKind

pub record AtomicPublicationSpec : Type 0 where
  pub mirror : Text
  pub publication_root : Text
  pub published_dir : Text
  pub candidate_dir : Text
  pub basis_dir : Text
  pub exchange_dir : Text
  pub gc_dir : Text

pub record ProcessRunSpec : Type 0 where
  pub runner : Text
  pub program : Text
  pub args : List Text
  pub cwd : Option Text
  pub timeout_seconds : ℕ
  pub mirror_root : Text
  pub target_dir : Text
  pub publication : Option AtomicPublicationSpec

pub record AttemptEvent : Type 0 where
  pub event_sequence : ℕ
  pub state : AttemptState
  pub agent_instance_id : Text
  pub accepted_at_ms : Option ℤ
  pub started_at_ms : Option ℤ
  pub finished_at_ms : Option ℤ
  pub exit_code : Option ℤ
  pub failure_kind : Option FailureKind
  pub failure_message : Option Text

pub record TransitionError : Type 0 where
  pub from : AttemptState
  pub to : AttemptState

pub record AttemptProjection : Type 0 where
  pub run_state : Option RunState
  pub run_started_at_ms : Option ℤ
  pub run_finished_at_ms : Option ℤ

-- The early return of `project_attempt_event` for an attempt that is under way.
is_under_way : AttemptState → Bool
is_under_way AttemptState.accepted = true
is_under_way AttemptState.running = true
is_under_way _ = false

-- The run state that an attempt's state stands for.
projected_run_state : AttemptState → Option RunState
projected_run_state AttemptState.succeeded = some RunState.succeeded
projected_run_state AttemptState.timed_out = some RunState.timed_out
projected_run_state AttemptState.cancelled = some RunState.cancelled
projected_run_state AttemptState.failed = some RunState.failed
projected_run_state AttemptState.interrupted = some RunState.failed
projected_run_state AttemptState.rejected = some RunState.failed
projected_run_state AttemptState.queued = none
projected_run_state AttemptState.accepted = none
projected_run_state AttemptState.running = none

unfoldable pub project_attempt_event :
    AttemptState → AttemptEvent → Result TransitionError AttemptProjection
unfolding allows is_terminal is_under_way projected_run_state
project_attempt_event current event =
    let terminal_snapshot_skip =
      attempt_state_eq current AttemptState.queued && is_terminal event.state in
    if not (allows current event.state) && not terminal_snapshot_skip
    then err (record { from = current; to = event.state })
    else if is_under_way event.state
    then ok (record {
      run_state = some RunState.running;
      run_started_at_ms = coalesce event.accepted_at_ms event.started_at_ms;
      run_finished_at_ms = none;
    })
    else ok (record {
      run_state = projected_run_state event.state;
      run_started_at_ms = coalesce event.started_at_ms event.accepted_at_ms;
      run_finished_at_ms = event.finished_at_ms;
    })

unfoldable pub validate_attempt_transition :
    AttemptState → AttemptState → Result TransitionError (Unit {0})
unfolding allows
validate_attempt_transition from to =
    if allows from to then ok tt else err (record { from = from; to = to })
