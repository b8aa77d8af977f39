-- ===== src/Store/ManualRun.antt =====
-- `Store::create_manual_run` (crates/lmt-store/src/lib.rs).
pub mod Soundness
pub mod Requests
use lzu_mirror_tools.Prelude.{
  ℕ, Bool, true, false, ◌&&◌, ◌||◌, not, Option, none, some, Result, ok, err, ◌>>=◌, if◌then◌else◌,
}
use lzu_mirror_tools.Prelude.Int.{ℤ}
use lzu_mirror_tools.Prelude.Text.{Text, text_eq}
use lzu_mirror_tools.Prelude.Tables.{find_where}
use lzu_mirror_tools.Core.State.{RunState}
use lzu_mirror_tools.Core.Schedule.{RunTrigger}
use lzu_mirror_tools.Store.Rows.{
  StoreError, MirrorRow, GenerationRow, RunRow, Db, Tx, occupies, mirror_not_found,
  mirror_ineligible, mirror_busy, request_conflict,
}
use lzu_mirror_tools.Store.Queries.{
  RunRecord, map_run, RunPolicySnapshot, find_run_by_request, current_generations, insert_run,
  update_schedule, clear_intent,
}

-- The row that the INSERT writes.
unfoldable pub manual_row : Text → Text → Text → ℤ → MirrorRow → RunPolicySnapshot → RunRow
manual_row run_id mirror request_id now m policy = record {
  id = run_id;
  mirror_name = mirror;
  mirror_generation = m.current_generation;
  owner_node = m.owner_node;
  trigger = RunTrigger.manual;
  state = RunState.pending;
  created_at_ms = now;
  started_at_ms = none;
  finished_at_ms = none;
  max_attempts = policy.max_attempts;
  retry_delay_ms = policy.retry_delay_ms;
  attempt_count = 0;
  final_exit_code = none;
  failure_kind = none;
  failure_message = none;
  cancel_requested_at_ms = none;
  manual_request_id = some request_id;
  scheduled_for_at_ms = none;
  retry_due_at_ms = none;
}

-- The writes, once the mirror is known to be eligible and free.
unfoldable pub insert_manual :
    (Text → Result StoreError RunPolicySnapshot)
    → Text
    → Text
    → Text
    → ℤ
    → MirrorRow × GenerationRow
    → Db
    → Tx RunRecord
unfolding manual_row
insert_manual policy run_id mirror request_id now (m, g) db = do
  snapshot ← policy g.config_toml
  let row = manual_row run_id mirror request_id now m snapshot
  db' ← insert_run row db
  ok (map_run row, update_schedule mirror clear_intent db')

-- A request that is not yet known.
unfoldable pub create_new :
    (Text → Result StoreError RunPolicySnapshot) → Text → Text → Text → ℤ → Db → Tx RunRecord
unfolding find_where occupies
create_new policy run_id mirror request_id now db =
    elim (find_where (λ p. text_eq p.0.name mirror) (current_generations db)) [
      | none ↦ err mirror_not_found
      | some p ↦
          if not p.0.managed || not p.0.enabled
          then err mirror_ineligible
          else elim (find_where (occupies mirror) db.runs) [
            | some active ↦ err (mirror_busy active.id)
            | none ↦ insert_manual policy run_id mirror request_id now p db
          ]
    ]

-- `policy` compiles the policy of a configuration, and `run_id` is the new identifier.
unfoldable pub create_manual_run :
    (Text → Result StoreError RunPolicySnapshot) → Text → Text → Text → ℤ → Db → Tx RunRecord
create_manual_run policy run_id mirror request_id now db =
    elim (find_run_by_request request_id db) [
      | some existing ↦
          if text_eq existing.mirror_name mirror
          then ok (map_run existing, db)
          else err request_conflict
      | none ↦ create_new policy run_id mirror request_id now db
    ]
