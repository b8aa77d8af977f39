-- ===== src/Store/Cancellation.antt =====
-- `Store::request_cancellation` (crates/lmt-store/src/lib.rs).
pub mod Soundness
use lzu_mirror_tools.Prelude.{
  ℕ, Bool, true, false, ◌&&◌, ◌||◌, not, Option, none, some, Result, ok, err, ◌>>=◌, if◌then◌else◌,
  ltb, ◌==◌, coalesce, is_none,
}
use lzu_mirror_tools.Prelude.Int.{ℤ}
use lzu_mirror_tools.Prelude.Text.{Text, text_eq}
use lzu_mirror_tools.Prelude.Tables.{update_where, exists_where, find_where}
use lzu_mirror_tools.Core.State.{RunState, AttemptState, is_terminal, run_is_terminal}
use lzu_mirror_tools.Store.Rows.{
  StoreError, MirrorRow, GenerationRow, RunRow, AttemptRow, Db, Tx, attempt_not_found,
}
use lzu_mirror_tools.Store.Queries.{
  RunRecord, map_run, find_run, current_generations, update_run, update_schedule,
  attempts_with_runs, rearm_schedule,
}

pub record CancellationApplyResult : Type 0 where
  pub run : RunRecord
  pub newly_requested : Bool

unfoldable pub request_cancel : ℤ → RunRow → RunRow
request_cancel now r = record r {
  cancel_requested_at_ms = coalesce r.cancel_requested_at_ms (some now);
}

-- Whether the run's latest attempt is in an Agent's hands.
unfoldable pub is_dispatched : Text → AttemptRow × RunRow → Bool
is_dispatched run_id (a, r) =
    text_eq a.run_id run_id
    && a.attempt_no == r.attempt_count
    && ltb 0 a.dispatch_count
    && not (is_terminal a.state)

unfoldable pub active_dispatched : Text → Db → Bool
unfolding is_dispatched exists_where
active_dispatched run_id db = exists_where (is_dispatched run_id) (attempts_with_runs db)

-- An attempt of the run that no Agent has been given.
unfoldable pub is_undispatched : Text → AttemptRow → Bool
is_undispatched run_id a =
    text_eq a.run_id run_id && a.dispatch_count == 0 && not (is_terminal a.state)

unfoldable pub cancel_row : ℤ → AttemptRow → AttemptRow
cancel_row now a = record a {
  state = AttemptState.cancelled;
  finished_at_ms = coalesce a.finished_at_ms (some now);
}

unfoldable pub cancel_run_row : ℤ → RunRow → RunRow
cancel_run_row now r = record r {
  state = RunState.cancelled;
  finished_at_ms = some now;
  retry_due_at_ms = none;
  final_exit_code = none;
  failure_kind = none;
  failure_message = none;
}

-- The configuration by which an interval is armed again: that of an eligible mirror whose owner is
-- still the run's.
unfoldable pub rearm_current : RunRow → Db → Option (MirrorRow × GenerationRow)
unfolding find_where
rearm_current r db =
    find_where
      (λ (p : MirrorRow × GenerationRow).
        text_eq p.0.name r.mirror_name
        && p.0.managed
        && p.0.enabled
        && text_eq p.0.owner_node r.owner_node)
      (current_generations db)

unfoldable pub rearmed :
    (Text → Result StoreError (Option ℤ))
    → Option (MirrorRow × GenerationRow)
    → Result StoreError (Option ℤ)
rearmed rearm none = ok none
rearmed rearm (some p) = rearm p.1.config_toml

unfoldable pub rearm_if : Option ℤ → Text → ℤ → Db → Db
rearm_if none mirror now db = db
rearm_if (some next_due) mirror now db = rearm_schedule mirror next_due now db

unfoldable pub cancel_attempts : Text → ℤ → Db → Db
unfolding update_where is_undispatched cancel_row
cancel_attempts run_id now db = record db {
  attempts = update_where (is_undispatched run_id) (cancel_row now) db.attempts;
}

-- The run is at an end at once, since nothing of it is dispatched.
unfoldable pub cancel_now :
    (Text → Result StoreError (Option ℤ)) → RunRow → ℤ → Db → Result StoreError Db
unfolding cancel_run_row
cancel_now rearm r now db = do
  next_due ← rearmed rearm (rearm_current r db)
  ok (
      rearm_if next_due r.mirror_name now
        (update_run r.id (cancel_run_row now) (cancel_attempts r.id now db)))

-- The row that the final SELECT reads.
unfoldable pub read_run : Text → Bool → Db → Tx CancellationApplyResult
read_run run_id newly db = elim (find_run run_id db) [
  | none ↦ err attempt_not_found
  | some r ↦ ok (record { run = map_run r; newly_requested = newly }, db)
]

-- A run that is under way.
unfoldable pub cancel_active :
    (Text → Result StoreError (Option ℤ)) → RunRow → ℤ → Db → Tx CancellationApplyResult
unfolding request_cancel
cancel_active rearm r now db =
    let requested = update_run r.id (request_cancel now) db in
    do
      db' ←
          (if active_dispatched r.id requested
            then ok requested
            else cancel_now rearm r now requested)
      read_run r.id (is_none r.cancel_requested_at_ms) db'

-- `rearm` reads the next interval deadline off a configuration.
unfoldable pub request_cancellation :
    (Text → Result StoreError (Option ℤ)) → Text → ℤ → Db → Tx CancellationApplyResult
request_cancellation rearm run_id now db = elim (find_run run_id db) [
  | none ↦ err attempt_not_found
  | some r ↦
      if run_is_terminal r.state
      then ok (record { run = map_run r; newly_requested = false }, db)
      else cancel_active rearm r now db
]
