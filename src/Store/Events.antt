-- ===== src/Store/Events.antt =====
-- `Store::apply_event` (crates/lmt-store/src/lib.rs): an Agent's report on an attempt.
pub mod Soundness
pub mod Replay
use lzu_mirror_tools.Prelude.{
  ℕ, Bool, true, false, ◌&&◌, ◌||◌, not, Option, none, some, Result, ok, err, ◌>>=◌, if◌then◌else◌,
  leb, ◌==◌, coalesce, unwrap_or, is_some,
}
use lzu_mirror_tools.Prelude.Int.{ℤ}
use lzu_mirror_tools.Prelude.Text.{Text, text_eq}
use lzu_mirror_tools.Prelude.Tables.{update_where, find_where}
use lzu_mirror_tools.Core.State.{
  RunState, AttemptState, AttemptEvent, AttemptProjection, TransitionError, FailureKind,
  project_attempt_event,
}
use lzu_mirror_tools.Core.Schedule.{RetryDecision}
use lzu_mirror_tools.Store.Rows.{
  StoreError, MirrorRow, GenerationRow, RunRow, AttemptRow, Db, Tx, is_active, is_pending,
  is_attempt, failure_kind_str, attempt_not_found, illegal_transition, database,
}
use lzu_mirror_tools.Store.Queries.{find_run, has_id, current_generations, rearm_schedule}

pub record TerminalDecisionSource : Type 0 where
  pub outcome : AttemptState
  pub attempt_no : ℕ
  pub max_attempts : ℕ
  pub retry_delay_ms : ℕ
  pub cancel_requested : Bool
  pub mirror_eligible : Bool
  pub owner_unchanged : Bool
  pub mirror_name : Text
  pub current_config_toml : Text

pub record TerminalDecision : Type 0 where
  pub retry : RetryDecision
  pub interval_next_due_at_ms : Option ℤ

pub record AttemptEventApplyResult : Type 0 where
  pub accepted_event_sequence : ℕ
  pub newly_applied : Bool
  pub retry_scheduled : Bool

unfoldable pub find_attempt : Text → ℕ → Db → Option AttemptRow
unfolding find_where is_attempt
find_attempt run_id attempt_no db = find_where (is_attempt run_id attempt_no) db.attempts

unfoldable pub kind_text : Option FailureKind → Option Text
kind_text none = none
kind_text (some kind) = some (failure_kind_str kind)

-- UPDATE attempts by the event.
unfoldable pub record_event : AttemptEvent → AttemptRow → AttemptRow
unfolding kind_text
record_event e a = record a {
  state = e.state;
  last_event_sequence = e.event_sequence;
  agent_instance_id = some e.agent_instance_id;
  accepted_at_ms = coalesce a.accepted_at_ms e.accepted_at_ms;
  started_at_ms = coalesce a.started_at_ms e.started_at_ms;
  finished_at_ms = coalesce a.finished_at_ms e.finished_at_ms;
  exit_code = e.exit_code;
  failure_kind = kind_text e.failure_kind;
  failure_message = e.failure_message;
}

-- UPDATE runs ... WHERE id=? AND p, with p a test of the state.
unfoldable pub update_run_if : (RunState → Bool) → Text → (RunRow → RunRow) → Db → Db
unfolding has_id update_where
update_run_if p id f db = record db {
  runs = update_where (λ r. has_id id r && p r.state) f db.runs;
}

-- The attempt is under way.
unfoldable pub mark_running : Option ℤ → ℤ → RunRow → RunRow
mark_running started now r = record r {
  state = RunState.running;
  started_at_ms = coalesce r.started_at_ms (some (unwrap_or started now));
}

-- Another attempt follows.
unfoldable pub await_retry : Option ℤ → ℤ → RunRow → RunRow
await_retry started retry_due r = record r {
  state = RunState.running;
  started_at_ms = coalesce r.started_at_ms started;
  retry_due_at_ms = some retry_due;
  finished_at_ms = none;
  final_exit_code = none;
  failure_kind = none;
  failure_message = none;
}

-- The run is at an end.
unfoldable pub finish_run : RunState → AttemptProjection → AttemptEvent → ℤ → RunRow → RunRow
unfolding kind_text
finish_run state p e now r = record r {
  state = state;
  started_at_ms = coalesce r.started_at_ms p.run_started_at_ms;
  finished_at_ms = some (unwrap_or p.run_finished_at_ms now);
  retry_due_at_ms = none;
  final_exit_code = e.exit_code;
  failure_kind = kind_text e.failure_kind;
  failure_message = e.failure_message;
}

-- `terminal_source`.
unfoldable pub source_of :
    ℕ → AttemptState → RunRow → MirrorRow × GenerationRow → TerminalDecisionSource
source_of attempt_no outcome r (m, g) = record {
  outcome = outcome;
  attempt_no = attempt_no;
  max_attempts = r.max_attempts;
  retry_delay_ms = r.retry_delay_ms;
  cancel_requested = is_some r.cancel_requested_at_ms;
  mirror_eligible = m.managed && m.enabled;
  owner_unchanged = text_eq m.owner_node r.owner_node;
  mirror_name = m.name;
  current_config_toml = g.config_toml;
}

unfoldable pub source_of_run :
    ℕ → AttemptState → Db → Option RunRow → Result StoreError TerminalDecisionSource
unfolding source_of find_where
source_of_run attempt_no outcome db none = err database
source_of_run attempt_no outcome db (some r) =
    elim (find_where (λ p. text_eq p.0.name r.mirror_name) (current_generations db)) [
      | none ↦ err database
      | some p ↦ ok (source_of attempt_no outcome r p)
    ]

unfoldable pub terminal_source :
    Text → ℕ → AttemptState → Db → Result StoreError TerminalDecisionSource
unfolding source_of_run
terminal_source run_id attempt_no outcome db =
    source_of_run attempt_no outcome db (find_run run_id db)

-- The two arms of the decision; the flag is `retry_scheduled`.
unfoldable pub rearm_decided : Option ℤ → Text → ℤ → Db → Db
rearm_decided none mirror now db = db
rearm_decided (some next_due) mirror now db = rearm_schedule mirror next_due now db

unfoldable pub apply_decision :
    Text → AttemptProjection → AttemptEvent → ℤ → Text → Option ℤ → RetryDecision → Db → Bool × Db
unfolding await_retry finish_run rearm_decided
apply_decision run_id p e now mirror next_due (RetryDecision.schedule retry_due) db =
    (true, update_run_if is_active run_id (await_retry p.run_started_at_ms retry_due) db)
apply_decision run_id p e now mirror next_due (RetryDecision.final state) db = (
  false,
  rearm_decided next_due mirror now (update_run_if is_active run_id (finish_run state p e now) db),
)

unfoldable pub apply_terminal :
    (TerminalDecisionSource → ℤ → Result StoreError TerminalDecision)
    → Text
    → ℕ
    → AttemptProjection
    → AttemptEvent
    → ℤ
    → Db
    → Tx Bool
apply_terminal decide run_id attempt_no p e now db = do
  source ← terminal_source run_id attempt_no e.state db
  decision ← decide source now
  ok (
      apply_decision run_id p e now source.mirror_name decision.interval_next_due_at_ms
        decision.retry db)

-- The run's row, by the projected state.
unfoldable pub apply_projection :
    (TerminalDecisionSource → ℤ → Result StoreError TerminalDecision)
    → Text
    → ℕ
    → AttemptProjection
    → AttemptEvent
    → ℤ
    → Option RunState
    → Db
    → Tx Bool
unfolding mark_running
apply_projection decide run_id attempt_no p e now none db = ok (false, db)
apply_projection decide run_id attempt_no p e now (some RunState.running) db =
    ok (false, update_run_if is_pending run_id (mark_running p.run_started_at_ms now) db)
apply_projection decide run_id attempt_no p e now (some _) db =
    apply_terminal decide run_id attempt_no p e now db

unfoldable pub write_event : Text → ℕ → AttemptEvent → Db → Db
unfolding update_where is_attempt record_event
write_event run_id attempt_no e db = record db {
  attempts = update_where (is_attempt run_id attempt_no) (record_event e) db.attempts;
}

unfoldable pub refuse :
    Result TransitionError AttemptProjection → Result StoreError AttemptProjection
refuse (ok p) = ok p
refuse (err x) = err (illegal_transition x.from x.to)

-- An event with a new sequence number, on the attempt `a`.
unfoldable pub apply_new :
    (TerminalDecisionSource → ℤ → Result StoreError TerminalDecision)
    → AttemptRow
    → Text
    → ℕ
    → AttemptEvent
    → ℤ
    → Db
    → Tx AttemptEventApplyResult
unfolding refuse write_event
apply_new decide a run_id attempt_no e now db = do
  p ← refuse (project_attempt_event a.state e)
  done ←
      apply_projection decide run_id attempt_no p e now p.run_state
        (write_event run_id attempt_no e db)
  ok (
    record {
      accepted_event_sequence = e.event_sequence;
      newly_applied = true;
      retry_scheduled = done.0;
    },
    done.1,
  )

-- `decide` is the decision on a terminal report.
unfoldable pub apply_event :
    (TerminalDecisionSource → ℤ → Result StoreError TerminalDecision)
    → Text
    → ℕ
    → AttemptEvent
    → ℤ
    → Db
    → Tx AttemptEventApplyResult
apply_event decide run_id attempt_no e now db = elim (find_attempt run_id attempt_no db) [
  | none ↦ err attempt_not_found
  | some a ↦
      if leb e.event_sequence a.last_event_sequence
      then ok (
        record {
          accepted_event_sequence = a.last_event_sequence;
          newly_applied = false;
          retry_scheduled = false;
        },
        db,
      )
      else apply_new decide a run_id attempt_no e now db
]
