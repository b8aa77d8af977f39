-- ===== src/Examples.antt =====
-- Concrete data: a control plane with one mirror, one node, a run at its end and one under way; and
-- a stand-in for the libraries, with intervals of a minute, no cron expression and no time zone.
mod Lifecycle
mod Transactions
mod Decisions
mod Logs
mod Nodes
mod Credentials
mod Revisions
mod Documents
mod Publications
use lzu_mirror_tools.Prelude.{
  ℕ, ◌≡◌, refl, Bool, true, false, Option, none, some, inl, inr, List, [], ◌∷◌, Memᴰ, Result, ok,
  err, arith,
}
use lzu_mirror_tools.Prelude.Int.{ℤ, pos}
use lzu_mirror_tools.Prelude.Text.{Text, codes, text_eq}
use lzu_mirror_tools.Prelude.Tables.{exists_where}
use lzu_mirror_tools.Core.Config.{MirrorDocument, SyncConfig}
use lzu_mirror_tools.Core.State.{RunState, AttemptState, ProcessRunSpec, AttemptEvent}
use lzu_mirror_tools.Core.Schedule.{Calendar, RunTrigger, ScheduleRuntime, interval}
use lzu_mirror_tools.Store.Rows.{
  StoreError, MirrorRow, GenerationRow, ScheduleRow, NodeRow, RunRow, AttemptRow, LogRow, Db,
  is_active, is_request,
}
use lzu_mirror_tools.Store.Queries.{RunPolicySnapshot}
use lzu_mirror_tools.Store.Poll.{DispatchSource, CompiledDispatch}
use lzu_mirror_tools.Store.Invariant.{IsValid}

abbrev pub calendar : Calendar
calendar = record {
  Zone = Unit;
  Cron = Unit;
  parse_duration = λ value. ok (60, 0);
  parse_zone = λ name. none;
  is_timestamp = λ t. true;
  parse_cron = λ expression. err (codes "cron");
  find_next_occurrence = λ c z t. err (codes "none");
}

abbrev pub document : MirrorDocument
document = record {
  mirror = record {
    name = codes "debian";
    enabled = true;
    description = [];
    target = codes "debian";
  };
  schedule = some (interval (codes "1m"));
  sync = SyncConfig.rsync (codes "src") [];
  publication = none;
  run = record { timeout_seconds = 60; max_attempts = 3; retry_delay_seconds = 5 };
}

abbrev pub parse_document : Text → Result Text MirrorDocument
parse_document config_toml = ok document

abbrev pub debug : Text → Text
debug text = text

abbrev pub no_schedule : ScheduleRuntime
no_schedule = record {
  next_due_at_ms = some (pos 5000);
  last_evaluated_at_ms = none;
  catch_up_pending = false;
  catch_up_since_ms = none;
}

abbrev pub debian : MirrorRow
debian = record {
  name = codes "debian";
  managed = true;
  enabled = true;
  owner_node = codes "n1";
  current_generation = 1;
  removed_at_ms = none;
}

abbrev pub n1 : NodeRow
n1 = record {
  name = codes "n1";
  registered_at_ms = pos 1;
  agent_version = none;
  agent_instance_id = some (codes "i1");
  agent_boot_id = some (codes "b1");
  bound_agent_id = some (codes "a1");
  last_seen_at_ms = some (pos 1900);
  mirror_root_free_bytes = none;
  active_runs = 1;
  max_concurrent_runs = 2;
}

-- A run of two attempts at most, with the columns that a test varies.
abbrev pub run_of : Text → RunState → ℕ → Option ℤ → Option Text → RunRow
run_of id state attempt_count finished_at_ms manual_request_id = record {
  id = id;
  mirror_name = codes "debian";
  mirror_generation = 1;
  owner_node = codes "n1";
  trigger = RunTrigger.manual;
  state = state;
  created_at_ms = pos 1000;
  started_at_ms = some (pos 1001);
  finished_at_ms = finished_at_ms;
  max_attempts = 3;
  retry_delay_ms = 5000;
  attempt_count = attempt_count;
  final_exit_code = none;
  failure_kind = none;
  failure_message = none;
  cancel_requested_at_ms = none;
  manual_request_id = manual_request_id;
  scheduled_for_at_ms = none;
  retry_due_at_ms = none;
}

abbrev pub spec : ProcessRunSpec
spec = record {
  runner = codes "process";
  program = codes "rsync";
  args = [];
  cwd = none;
  timeout_seconds = 60;
  mirror_root = codes "/srv";
  target_dir = codes "debian";
  publication = none;
}

abbrev pub attempt_of : Text → AttemptState → ℕ → AttemptRow
attempt_of run_id state last_event_sequence = record {
  run_id = run_id;
  attempt_no = 1;
  state = state;
  spec_hash = codes "h";
  spec = spec;
  created_at_ms = pos 1000;
  accepted_at_ms = some (pos 1001);
  started_at_ms = some (pos 1001);
  finished_at_ms = none;
  agent_instance_id = some (codes "i1");
  exit_code = none;
  failure_kind = none;
  failure_message = none;
  last_event_sequence = last_event_sequence;
  dispatch_count = 1;
  last_dispatch_at_ms = some (pos 1000);
}

abbrev pub ended_run : RunRow
ended_run = run_of (codes "r0") RunState.succeeded 1 (some (pos 1500)) (some (codes "q0"))

abbrev pub active_run : RunRow
active_run = run_of (codes "r1") RunState.running 1 none (some (codes "q1"))

abbrev pub ended_attempt : AttemptRow
ended_attempt = attempt_of (codes "r0") AttemptState.succeeded 3

abbrev pub active_attempt : AttemptRow
active_attempt = attempt_of (codes "r1") AttemptState.running 2

abbrev pub log_of : Text → Bool → Option ℤ → LogRow
log_of run_id complete expired_at_ms = record {
  run_id = run_id;
  attempt_no = 1;
  relative_path = codes "log";
  stored_bytes = 3;
  complete = complete;
  updated_at_ms = pos 1400;
  expired_at_ms = expired_at_ms;
}

abbrev pub db_of : List RunRow → List AttemptRow → Db
db_of runs attempts = record {
  revisions =
      record { revision = 1; bundle_hash = codes "b1"; applied_at_ms = pos 900; actor = codes "op" }
      ∷ [];
  mirrors = debian ∷ [];
  generations =
      record {
        mirror_name = codes "debian";
        generation = 1;
        config_revision = 1;
        owner_node = codes "n1";
        config_hash = codes "h1";
        config_toml = codes "";
        created_at_ms = pos 900;
      }
      ∷ [];
  schedules =
      record {
        mirror_name = codes "debian";
        schedule_hash = some (codes "s");
        runtime = no_schedule;
      }
      ∷ [];
  nodes = n1 ∷ [];
  runs = runs;
  attempts = attempts;
  logs = log_of (codes "r0") true none ∷ [];
}

abbrev pub busy : Db
busy = db_of (ended_run ∷ active_run ∷ []) (ended_attempt ∷ active_attempt ∷ [])

abbrev pub idle : Db
idle = db_of (ended_run ∷ []) (ended_attempt ∷ [])

pub busy-IsValid : IsValid busy.runs busy.attempts
unfolding exists_where text_eq is_active is_request
busy-IsValid = record {
  runs_keyed = (refl, (refl, tt));
  mirrors_free = (refl, (refl, tt));
  requests_keyed = (refl, (refl, tt));
  attempts_keyed = (refl, (refl, tt));
  attempts_counted = (
    (ended_run, Memᴰ.head refl, refl, omega arith),
    ((active_run, Memᴰ.tail (Memᴰ.head refl), refl, omega arith), tt),
  );
  counts_backed = (
    inr (ended_attempt, Memᴰ.head refl, refl, refl),
    (inr (active_attempt, Memᴰ.tail (Memᴰ.head refl), refl, refl), tt),
  );
}

pub idle-IsValid : IsValid idle.runs idle.attempts
unfolding exists_where text_eq is_active is_request
idle-IsValid = record {
  runs_keyed = (refl, tt);
  mirrors_free = (refl, tt);
  requests_keyed = (refl, tt);
  attempts_keyed = (refl, tt);
  attempts_counted = ((ended_run, Memᴰ.head refl, refl, omega arith), tt);
  counts_backed = (inr (ended_attempt, Memᴰ.head refl, refl, refl), tt);
}

-- The report that the attempt under way has failed, which a second attempt may repair.
abbrev pub failure : AttemptEvent
failure = record {
  event_sequence = 3;
  state = AttemptState.failed;
  agent_instance_id = codes "i1";
  accepted_at_ms = some (pos 1001);
  started_at_ms = some (pos 1001);
  finished_at_ms = some (pos 2000);
  exit_code = some (pos 1);
  failure_kind = none;
  failure_message = none;
}

abbrev pub compile : DispatchSource → Result StoreError (Option CompiledDispatch)
compile source = ok (
    some (record {
      spec = spec;
      spec_hash = codes "h";
      policy = record { max_attempts = 3; retry_delay_ms = 5000 };
    }))

abbrev pub policy : Text → Result StoreError RunPolicySnapshot
policy config_toml = ok (record { max_attempts = 3; retry_delay_ms = 5000 })

-- The value and the database that a transaction leaves, with others in place of those of an error.
abbrev pub value {ℓ} : {A : Type ℓ} → Result StoreError (A × Db) → A → A
value (ok (a, db)) d = a
value (err e) d = d

abbrev pub after {ℓ} : {A : Type ℓ} → Result StoreError (A × Db) → Db
after (ok (a, db)) = db
after (err e) = idle
