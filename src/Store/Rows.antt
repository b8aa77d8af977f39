-- ===== src/Store/Rows.antt =====
-- The tables of crates/lmt-store/migrations as records and lists of rows, and the store's errors.
-- A TEXT column that holds a state, a trigger or a specification holds the value that it encodes.
-- The columns that no modelled statement reads are left out.
use lzu_mirror_tools.Prelude.{
  ℕ, Bool, true, false, ◌&&◌, ◌||◌, Option, none, some, List, Result, ◌==◌,
}
use lzu_mirror_tools.Prelude.Int.{ℤ}
use lzu_mirror_tools.Prelude.Text.{Text, codes, text_eq}
use lzu_mirror_tools.Prelude.Tables.{exists_where}
use lzu_mirror_tools.Core.State.{RunState, AttemptState, FailureKind, ProcessRunSpec}
use lzu_mirror_tools.Core.Schedule.{RunTrigger, ScheduleRuntime}

pub data StoreError : Type 0 where
  database : StoreError
  invalid_config : Text → StoreError
  revision_conflict : ℕ → StoreError
  mirror_not_found : StoreError
  mirror_ineligible : StoreError
  mirror_busy : Text → StoreError
  request_conflict : StoreError
  attempt_not_found : StoreError
  agent_binding_conflict : Text → Text → StoreError
  binding_replacement_unsafe : StoreError
  credential_not_found : StoreError
  illegal_transition : AttemptState → AttemptState → StoreError

pub record MirrorRow : Type 0 where
  pub name : Text
  pub managed : Bool
  pub enabled : Bool
  pub owner_node : Text
  pub current_generation : ℕ
  pub removed_at_ms : Option ℤ

pub record RevisionRow : Type 0 where
  pub revision : ℕ
  pub bundle_hash : Text
  pub applied_at_ms : ℤ
  pub actor : Text

pub record GenerationRow : Type 0 where
  pub mirror_name : Text
  pub generation : ℕ
  pub config_revision : ℕ
  pub owner_node : Text
  pub config_hash : Text
  pub config_toml : Text
  pub created_at_ms : ℤ

-- `mirror_schedule_state`; its four columns of runtime are one `ScheduleRuntime`.
pub record ScheduleRow : Type 0 where
  pub mirror_name : Text
  pub schedule_hash : Option Text
  pub runtime : ScheduleRuntime

pub record NodeRow : Type 0 where
  pub name : Text
  pub registered_at_ms : ℤ
  pub agent_version : Option Text
  pub agent_instance_id : Option Text
  pub agent_boot_id : Option Text
  pub bound_agent_id : Option Text
  pub last_seen_at_ms : Option ℤ
  pub mirror_root_free_bytes : Option ℕ
  pub active_runs : ℕ
  pub max_concurrent_runs : ℕ

pub record RunRow : Type 0 where
  pub id : Text
  pub mirror_name : Text
  pub mirror_generation : ℕ
  pub owner_node : Text
  pub trigger : RunTrigger
  pub state : RunState
  pub created_at_ms : ℤ
  pub started_at_ms : Option ℤ
  pub finished_at_ms : Option ℤ
  pub max_attempts : ℕ
  pub retry_delay_ms : ℕ
  pub attempt_count : ℕ
  pub final_exit_code : Option ℤ
  pub failure_kind : Option Text
  pub failure_message : Option Text
  pub cancel_requested_at_ms : Option ℤ
  pub manual_request_id : Option Text
  pub scheduled_for_at_ms : Option ℤ
  pub retry_due_at_ms : Option ℤ

pub record AttemptRow : Type 0 where
  pub run_id : Text
  pub attempt_no : ℕ
  pub state : AttemptState
  pub spec_hash : Text
  pub spec : ProcessRunSpec
  pub created_at_ms : ℤ
  pub accepted_at_ms : Option ℤ
  pub started_at_ms : Option ℤ
  pub finished_at_ms : Option ℤ
  pub agent_instance_id : Option Text
  pub exit_code : Option ℤ
  pub failure_kind : Option Text
  pub failure_message : Option Text
  pub last_event_sequence : ℕ
  pub dispatch_count : ℕ
  pub last_dispatch_at_ms : Option ℤ

pub record LogRow : Type 0 where
  pub run_id : Text
  pub attempt_no : ℕ
  pub relative_path : Text
  pub stored_bytes : ℕ
  pub complete : Bool
  pub updated_at_ms : ℤ
  pub expired_at_ms : Option ℤ

pub record Db : Type 0 where
  pub revisions : List RevisionRow
  pub mirrors : List MirrorRow
  pub generations : List GenerationRow
  pub schedules : List ScheduleRow
  pub nodes : List NodeRow
  pub runs : List RunRow
  pub attempts : List AttemptRow
  pub logs : List LogRow

-- A committed transaction gives its value and the new database; an error rolls it back.
abbrev pub Tx : Type 0 → Type 0
Tx A = Result StoreError (A × Db)

-- `state IN('pending','running')`.
unfoldable pub is_active : RunState → Bool
is_active RunState.pending = true
is_active RunState.running = true
is_active _ = false

-- `state='pending'`, `state='running'` and `state='queued'`.
unfoldable pub is_pending : RunState → Bool
is_pending RunState.pending = true
is_pending _ = false

unfoldable pub is_running : RunState → Bool
is_running RunState.running = true
is_running _ = false

unfoldable pub is_queued : AttemptState → Bool
is_queued AttemptState.queued = true
is_queued _ = false

unfoldable pub is_manual : RunTrigger → Bool
is_manual RunTrigger.manual = true
is_manual RunTrigger.scheduled = false

unfoldable pub is_scheduled : RunTrigger → Bool
is_scheduled RunTrigger.manual = false
is_scheduled RunTrigger.scheduled = true

-- `failure_kind_str`.
unfoldable pub failure_kind_str : FailureKind → Text
failure_kind_str FailureKind.process = codes "process"
failure_kind_str FailureKind.timeout = codes "timeout"
failure_kind_str FailureKind.interrupted = codes "interrupted"
failure_kind_str FailureKind.rejected = codes "rejected"
failure_kind_str FailureKind.invalid_result = codes "invalid_result"
failure_kind_str FailureKind.publication_durability = codes "publication_durability"

-- `manual_request_id=?` is false of NULL.
unfoldable pub is_request : Text → Option Text → Bool
is_request request none = false
is_request request (some r) = text_eq r request

-- The key of `attempts` and `attempt_logs`.
unfoldable pub is_attempt : Text → ℕ → AttemptRow → Bool
is_attempt run_id attempt_no a = text_eq a.run_id run_id && a.attempt_no == attempt_no

-- Whether a run occupies its mirror, as the index `one_active_run_per_mirror` has it.
unfoldable pub occupies : Text → RunRow → Bool
unfolding is_active
occupies mirror r = text_eq r.mirror_name mirror && is_active r.state

-- INSERT INTO runs, with the primary key, the UNIQUE request id and the partial unique index.
unfoldable pub has_request : Option Text → List RunRow → Bool
unfolding is_request exists_where
has_request none runs = false
has_request (some request) runs = exists_where (λ r. is_request request r.manual_request_id) runs

unfoldable pub violates_keys : RunRow → List RunRow → Bool
unfolding has_request occupies exists_where
violates_keys row runs =
    exists_where (λ r. text_eq r.id row.id) runs
    || has_request row.manual_request_id runs
    || (is_active row.state && exists_where (occupies row.mirror_name) runs)
