-- ===== src/Store/Poll.antt =====
-- `Store::poll_action` (crates/lmt-store/src/lib.rs): what a polling Agent is given to do.
mod Candidates
pub mod Soundness
unfoldable pub use Candidates.*
use lzu_mirror_tools.Prelude.{
  ℕ, ◌+◌, Bool, true, false, ◌&&◌, ◌||◌, not, Option, none, some, Result, ok, err, ◌>>=◌,
  if◌then◌else◌, ltb, ◌==◌, List, is_some, is_none,
}
use lzu_mirror_tools.Prelude.Int.{ℤ, leb_ℤ, ltb_ℤ}
use lzu_mirror_tools.Prelude.Text.{Text, text_eq, text_lt}
use lzu_mirror_tools.Prelude.Tables.{
  update_where, exists_where, where_rows, min_by, select_first, join,
}
use lzu_mirror_tools.Core.State.{RunState, AttemptState, ProcessRunSpec, is_terminal}
use lzu_mirror_tools.Core.Schedule.{RunTrigger}
use lzu_mirror_tools.Store.Rows.{
  StoreError, MirrorRow, GenerationRow, ScheduleRow, RunRow, AttemptRow, Db, Tx, occupies,
  is_active, is_pending, is_running, is_queued, is_manual, is_scheduled, is_attempt, database,
}
use lzu_mirror_tools.Store.Queries.{
  RunPolicySnapshot, attempts_with_runs, insert_run, insert_attempt, update_run, update_schedule,
  clear_intent, generation_config, node_has_capacity, time_lt, time_then,
}

pub data PollAction : Type 0 where
  start_attempt : Text → ℕ → Text → Text → ProcessRunSpec → PollAction
  cancel_attempt : Text → ℕ → Text → PollAction

pub record DispatchSource : Type 0 where
  pub run_id : Text
  pub attempt_no : ℕ
  pub mirror_name : Text
  pub mirror_generation : ℕ
  pub config_toml : Text

pub record CompiledDispatch : Type 0 where
  pub spec : ProcessRunSpec
  pub spec_hash : Text
  pub policy : RunPolicySnapshot

unfoldable pub apply_policy : RunPolicySnapshot → RunRow → RunRow
apply_policy policy r =
    if is_scheduled r.trigger
    then record r { max_attempts = policy.max_attempts; retry_delay_ms = policy.retry_delay_ms }
    else r

unfoldable pub attempt_row : Candidate → CompiledDispatch → ℤ → AttemptRow
attempt_row c d now = record {
  run_id = c.run_id;
  attempt_no = c.attempt_no;
  state = AttemptState.queued;
  spec_hash = d.spec_hash;
  spec = d.spec;
  created_at_ms = now;
  accepted_at_ms = none;
  started_at_ms = none;
  finished_at_ms = none;
  agent_instance_id = none;
  exit_code = none;
  failure_kind = none;
  failure_message = none;
  last_event_sequence = 0;
  dispatch_count = 1;
  last_dispatch_at_ms = some now;
}

unfoldable pub count_attempt : ℕ → RunRow → RunRow
count_attempt number r = record r { attempt_count = number; retry_due_at_ms = none }

unfoldable pub persist_dispatch : Candidate → CompiledDispatch → ℤ → Db → Tx (Option PollAction)
unfolding apply_policy attempt_row count_attempt
persist_dispatch c d now db = do
  db' ← insert_attempt (attempt_row c d now) (update_run c.run_id (apply_policy d.policy) db)
  ok (
    some (start_attempt c.run_id c.attempt_no c.mirror_name d.spec_hash d.spec),
    update_run c.run_id (count_attempt c.attempt_no) db',
  )

unfoldable pub to_source : Candidate → GenerationRow → DispatchSource
to_source c g = record {
  run_id = c.run_id;
  attempt_no = c.attempt_no;
  mirror_name = c.mirror_name;
  mirror_generation = c.generation;
  config_toml = g.config_toml;
}

-- A specification that is not available rolls back to `before`: `unavailable_dispatch`.
unfoldable pub dispatch_compiled :
    Candidate → ℤ → Db → Db → Option CompiledDispatch → Tx (Option PollAction)
dispatch_compiled c now before db none = ok (none, before)
dispatch_compiled c now before db (some d) = persist_dispatch c d now db

-- What is compiled and written for a candidate; `before` is what a rollback returns to.
unfoldable pub dispatch_candidate :
    (DispatchSource → Result StoreError (Option CompiledDispatch))
    → Candidate
    → ℤ
    → Db
    → Db
    → Tx (Option PollAction)
unfolding to_source
dispatch_candidate compile c now before db =
    elim (generation_config c.mirror_name c.generation db) [
      | none ↦ err database
      | some g ↦ do compiled ← compile (to_source c g); dispatch_compiled c now before db compiled
    ]

unfoldable pub dispatch_found :
    (DispatchSource → Result StoreError (Option CompiledDispatch))
    → ℤ
    → Db
    → Option Candidate × Db
    → Tx (Option PollAction)
dispatch_found compile now before (none, db) = ok (none, db)
dispatch_found compile now before (some c, db) = dispatch_candidate compile c now before db

-- A new start, for a node with room.
unfoldable pub start_new :
    (DispatchSource → Result StoreError (Option CompiledDispatch))
    → Text
    → Text
    → ℤ
    → Db
    → Tx (Option PollAction)
start_new compile run_id node now db = do
  found ← find_candidate run_id node now db
  dispatch_found compile now db found

-- `compile` compiles a specification, and `run_id` is the identifier of a materialised run.
unfoldable pub poll_action :
    (DispatchSource → Result StoreError (Option CompiledDispatch))
    → Text
    → Text
    → ℤ
    → Db
    → Tx (Option PollAction)
poll_action compile run_id node now db = elim (find_cancellation node db) [
  | some (a, r) ↦ ok (some (cancel_attempt a.run_id a.attempt_no a.spec_hash), db)
  | none ↦ elim (find_redelivery node db) [
    | some (a, r) ↦ ok (
      some (start_attempt a.run_id a.attempt_no r.mirror_name a.spec_hash a.spec),
      mark_redelivery a.run_id a.attempt_no now db,
    )
    | none ↦
        if node_has_capacity node db then start_new compile run_id node now db else ok (none, db)
  ]
]
