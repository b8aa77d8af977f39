-- ===== src/Store/Revisions/Effects.antt =====
-- What a change of the configuration does to runs and schedules (crates/lmt-store/src/lib.rs):
-- `cancel_undispatched_pending`, `finalize_ineligible_retries`, `reconcile_schedule` and
-- `enforce_quiescent_high_impact_changes`.
use lzu_mirror_tools.Prelude.{
  Bool, true, false, ◌&&◌, ◌||◌, not, Option, none, some, List, [], ◌∷◌, ◌++◌, Result, ok, err,
  ◌>>=◌, if◌then◌else◌, ltb, ◌==◌, is_some, is_none,
}
use lzu_mirror_tools.Prelude.Int.{ℤ}
use lzu_mirror_tools.Prelude.Text.{Text, codes, text_eq, text_lt}
use lzu_mirror_tools.Prelude.Tables.{
  exists_where, find_where, update_where, where_rows, join, select_first,
}
use lzu_mirror_tools.Prelude.Int.{ltb_ℤ}
use lzu_mirror_tools.Core.State.{RunState, AttemptState, attempt_state_eq}
use lzu_mirror_tools.Core.Schedule.{ScheduleConfig, ScheduleRuntime}
use lzu_mirror_tools.Core.Config.{MirrorDocument}
use lzu_mirror_tools.Store.Rows.{
  StoreError, ScheduleRow, RunRow, AttemptRow, Db, is_pending, is_running, is_queued, occupies,
  mirror_busy,
}
use lzu_mirror_tools.Store.Queries.{update_run}
use lzu_mirror_tools.Store.Revisions.{ConfigChange, ConfigLibrary, is_move, is_create}

-- A queued attempt of a pending run of the mirror that was not handed out.
unfoldable pub is_undelivered : Text → Db → AttemptRow → Bool
unfolding exists_where
is_undelivered mirror db a =
    exists_where (λ r. text_eq r.id a.run_id && text_eq r.mirror_name mirror && is_pending r.state)
      db.runs
    && a.dispatch_count == 0
    && is_queued a.state

unfoldable pub cancel_queued : ℤ → AttemptRow → AttemptRow
cancel_queued now a = record a { state = AttemptState.cancelled; finished_at_ms = some now }

unfoldable pub is_unstarted : Text → Db → RunRow → Bool
unfolding exists_where
is_unstarted mirror db r =
    text_eq r.mirror_name mirror
    && is_pending r.state
    && not (exists_where (λ a. text_eq a.run_id r.id && ltb 0 a.dispatch_count) db.attempts)

unfoldable pub cancel_unstarted : ℤ → RunRow → RunRow
cancel_unstarted now r = record r {
  state = RunState.cancelled;
  finished_at_ms = some now;
  failure_kind = some (codes "configuration_removed");
  failure_message = some (codes "configuration disabled or removed before dispatch");
}

unfoldable pub cancel_attempts_of : Text → ℤ → Db → Db
unfolding is_undelivered cancel_queued update_where
cancel_attempts_of mirror now db = record db {
  attempts = update_where (is_undelivered mirror db) (cancel_queued now) db.attempts;
}

unfoldable pub cancel_runs_of : Text → ℤ → Db → Db
unfolding is_unstarted cancel_unstarted update_where
cancel_runs_of mirror now db = record db {
  runs = update_where (is_unstarted mirror db) (cancel_unstarted now) db.runs;
}

unfoldable pub cancel_undispatched_pending : Text → ℤ → Db → Db
unfolding cancel_attempts_of cancel_runs_of
cancel_undispatched_pending mirror now db =
    cancel_runs_of mirror now (cancel_attempts_of mirror now db)

-- A run of the mirror that waits for a retry, with its latest attempt.
unfoldable pub is_waiting : Text → RunRow × AttemptRow → Bool
is_waiting mirror (r, a) =
    text_eq r.mirror_name mirror && is_running r.state && is_some r.retry_due_at_ms

unfoldable pub is_latest : RunRow → AttemptRow → Bool
is_latest r a = text_eq a.run_id r.id && a.attempt_no == r.attempt_count

unfoldable pub finalize : AttemptRow → ℤ → RunRow → RunRow
unfolding attempt_state_eq
finalize a now r = record r {
  state =
      if attempt_state_eq a.state AttemptState.timed_out
      then RunState.timed_out
      else RunState.failed;
  finished_at_ms = some now;
  retry_due_at_ms = none;
  final_exit_code = a.exit_code;
  failure_kind = a.failure_kind;
  failure_message = a.failure_message;
}

unfoldable pub finalize_all : ℤ → List (RunRow × AttemptRow) → Db → Db
unfolding finalize
finalize_all now [] db = db
finalize_all now ((r, a) ∷ rest) db = finalize_all now rest (update_run r.id (finalize a now) db)

unfoldable pub finalize_ineligible_retries : Text → ℤ → Db → Db
unfolding is_waiting is_latest finalize_all where_rows join
finalize_ineligible_retries mirror now db =
    finalize_all now (where_rows (is_waiting mirror) (join is_latest db.runs db.attempts)) db

-- ORDER BY created_at_ms,id.
unfoldable pub created_before : RunRow → RunRow → Bool
created_before r s =
    ltb_ℤ r.created_at_ms s.created_at_ms
    || (not (ltb_ℤ s.created_at_ms r.created_at_ms) && text_lt r.id s.id)

unfoldable pub enforce_quiescent_high_impact_changes :
    List ConfigChange → Db → Result StoreError (Unit {0})
unfolding created_before is_move select_first occupies
enforce_quiescent_high_impact_changes [] db = ok tt
enforce_quiescent_high_impact_changes (change ∷ changes) db =
    let rest = enforce_quiescent_high_impact_changes changes db in
    if not (is_move change.kind) && is_none change.publication_change
    then rest
    else elim (select_first (occupies change.mirror) created_before db.runs) [
      | some r ↦ err (mirror_busy r.id)
      | none ↦ rest
    ]

unfoldable pub delete_schedule : Text → Db → Db
unfolding where_rows
delete_schedule mirror db = record db {
  schedules = where_rows (λ s. not (text_eq s.mirror_name mirror)) db.schedules;
}

-- INSERT INTO mirror_schedule_state ... ON CONFLICT(mirror_name) DO UPDATE.
unfoldable pub upsert_schedule : ScheduleRow → Db → Db
unfolding exists_where update_where
upsert_schedule row db =
    if exists_where (λ s. text_eq s.mirror_name row.mirror_name) db.schedules
    then record db {
      schedules = update_where (λ s. text_eq s.mirror_name row.mirror_name) (λ s. row) db.schedules;
    }
    else record db { schedules = db.schedules ++ row ∷ [] }

-- `document.schedule.as_ref().filter(|_| document.mirror.enabled)`.
unfoldable pub wanted_schedule : MirrorDocument → Option ScheduleConfig
wanted_schedule document = if document.mirror.enabled then document.schedule else none

-- `existing_hash.as_deref() == Some(&schedule_hash)`.
unfoldable pub has_hash : Text → Option ScheduleRow → Bool
has_hash hash none = false
has_hash hash (some s) = elim s.schedule_hash [ none ↦ false | some h ↦ text_eq h hash ]

-- `previous.is_none_or(...)`: managed, enabled and the owner before the change.
unfoldable pub was_ineligible : Text → Option (Bool × Bool × Text) → Bool
was_ineligible owner_node none = true
was_ineligible owner_node (some (managed, enabled, owner)) =
    not managed || not enabled || not (text_eq owner owner_node)

unfoldable pub activated : Text → Text → ScheduleRuntime → ScheduleRow
activated mirror hash runtime = record {
  mirror_name = mirror;
  schedule_hash = some hash;
  runtime = record runtime { catch_up_pending = false; catch_up_since_ms = none };
}

module _ (library : ConfigLibrary) where
  open library use {activate, semantic_hash}

  unfoldable pub needs_reset :
      ConfigChange → Text → Option (Bool × Bool × Text) → Text → Option ScheduleRow → Bool
  unfolding has_hash was_ineligible is_create is_move
  needs_reset change owner_node previous hash existing =
      is_create change.kind
      || is_move change.kind
      || was_ineligible owner_node previous
      || not (has_hash hash existing)

  unfoldable pub reset_schedule : Text → ScheduleConfig → ℤ → Db → Result StoreError Db
  unfolding activated upsert_schedule
  reset_schedule mirror schedule now db = do
    runtime ← activate schedule now
    ok (upsert_schedule (activated mirror (semantic_hash schedule) runtime) db)

  unfoldable pub reconcile_schedule :
      ConfigChange
      → MirrorDocument
      → Text
      → Option (Bool × Bool × Text)
      → ℤ
      → Db
      → Result StoreError Db
  unfolding wanted_schedule delete_schedule needs_reset reset_schedule find_where
  reconcile_schedule change document owner_node previous now db = elim (wanted_schedule document) [
    | none ↦ ok (delete_schedule change.mirror db)
    | some schedule ↦
        if needs_reset change owner_node previous (semantic_hash schedule)
          (find_where (λ s. text_eq s.mirror_name change.mirror) db.schedules)
        then reset_schedule change.mirror schedule now db
        else ok db
  ]
