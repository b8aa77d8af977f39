-- ===== src/Store/Queries.antt =====
-- The statements of crates/lmt-store/src/lib.rs that several transactions share.
use lzu_mirror_tools.Prelude.{
  ℕ, Bool, true, false, ◌&&◌, ◌||◌, not, Option, none, some, List, [], ◌∷◌, ◌++◌, Result, ok, err,
  if◌then◌else◌, ◌==◌, ltb, is_none,
}
use lzu_mirror_tools.Prelude.Int.{ℤ, ltb_ℤ}
use lzu_mirror_tools.Prelude.Text.{Text, text_eq}
use lzu_mirror_tools.Prelude.Tables.{update_where, exists_where, find_where, join}
use lzu_mirror_tools.Core.State.{RunState}
use lzu_mirror_tools.Core.Schedule.{RunTrigger, ScheduleRuntime}
use lzu_mirror_tools.Store.Rows.{
  StoreError, MirrorRow, GenerationRow, NodeRow, RunRow, AttemptRow, Db, violates_keys, is_attempt,
  is_request, database,
}

pub record RunRecord : Type 0 where
  pub id : Text
  pub mirror_name : Text
  pub mirror_generation : ℕ
  pub owner_node : Text
  pub trigger : RunTrigger
  pub state : RunState
  pub created_at_ms : ℤ
  pub started_at_ms : Option ℤ
  pub finished_at_ms : Option ℤ
  pub final_exit_code : Option ℤ
  pub failure_kind : Option Text
  pub failure_message : Option Text
  pub max_attempts : ℕ
  pub retry_delay_ms : ℕ
  pub scheduled_for_at_ms : Option ℤ
  pub retry_due_at_ms : Option ℤ
  pub cancel_requested_at_ms : Option ℤ

unfoldable pub map_run : RunRow → RunRecord
map_run r = record {
  id = r.id;
  mirror_name = r.mirror_name;
  mirror_generation = r.mirror_generation;
  owner_node = r.owner_node;
  trigger = r.trigger;
  state = r.state;
  created_at_ms = r.created_at_ms;
  started_at_ms = r.started_at_ms;
  finished_at_ms = r.finished_at_ms;
  final_exit_code = r.final_exit_code;
  failure_kind = r.failure_kind;
  failure_message = r.failure_message;
  max_attempts = r.max_attempts;
  retry_delay_ms = r.retry_delay_ms;
  scheduled_for_at_ms = r.scheduled_for_at_ms;
  retry_due_at_ms = r.retry_due_at_ms;
  cancel_requested_at_ms = r.cancel_requested_at_ms;
}

pub record RunPolicySnapshot : Type 0 where
  pub max_attempts : ℕ
  pub retry_delay_ms : ℕ

-- WHERE id=?.
unfoldable pub has_id : Text → RunRow → Bool
has_id id r = text_eq r.id id

unfoldable pub find_run : Text → Db → Option RunRow
unfolding has_id find_where
find_run id db = find_where (has_id id) db.runs

-- `find_run_by_request`.
unfoldable pub find_run_by_request : Text → Db → Option RunRow
unfolding find_where is_request
find_run_by_request request db = find_where (λ r. is_request request r.manual_request_id) db.runs

-- FROM attempts a JOIN runs r ON r.id=a.run_id.
unfoldable pub attempts_with_runs : Db → List (AttemptRow × RunRow)
unfolding join
attempts_with_runs db = join (λ a r. text_eq r.id a.run_id) db.attempts db.runs

-- FROM mirrors m JOIN mirror_generations g ON g.mirror_name=m.name AND g.generation=m.current_generation.
unfoldable pub current_generations : Db → List (MirrorRow × GenerationRow)
unfolding join
current_generations db =
    join (λ m g. text_eq g.mirror_name m.name && g.generation == m.current_generation) db.mirrors
      db.generations

-- `generation_config`.
unfoldable pub generation_config : Text → ℕ → Db → Option GenerationRow
unfolding find_where
generation_config mirror generation db =
    find_where (λ g. text_eq g.mirror_name mirror && g.generation == generation) db.generations

-- INSERT INTO runs under its keys, its index and its foreign key.
unfoldable pub insert_run : RunRow → Db → Result StoreError Db
unfolding violates_keys generation_config
insert_run row db =
    if violates_keys row db.runs
      || is_none (generation_config row.mirror_name row.mirror_generation db)
    then err database
    else ok (record db { runs = db.runs ++ row ∷ [] })

-- INSERT INTO attempts under its primary key, its CHECK and its foreign key.
unfoldable pub insert_attempt : AttemptRow → Db → Result StoreError Db
unfolding exists_where is_attempt has_id
insert_attempt row db =
    if exists_where (is_attempt row.run_id row.attempt_no) db.attempts
      || row.attempt_no == 0
      || not (exists_where (has_id row.run_id) db.runs)
    then err database
    else ok (record db { attempts = db.attempts ++ row ∷ [] })

unfoldable pub update_run : Text → (RunRow → RunRow) → Db → Db
unfolding has_id update_where
update_run id f db = record db { runs = update_where (has_id id) f db.runs }

unfoldable pub update_schedule : Text → (ScheduleRuntime → ScheduleRuntime) → Db → Db
unfolding update_where
update_schedule mirror f db = record db {
  schedules =
      update_where (λ s. text_eq s.mirror_name mirror) (λ s. record s { runtime = f s.runtime })
        db.schedules;
}

-- SET catch_up_pending=0,catch_up_since_ms=NULL.
unfoldable pub clear_intent : ScheduleRuntime → ScheduleRuntime
clear_intent s = record s { catch_up_pending = false; catch_up_since_ms = none }

-- `rearm_schedule`.
unfoldable pub rearm_schedule : Text → ℤ → ℤ → Db → Db
unfolding update_schedule
rearm_schedule mirror next_due now db =
    update_schedule mirror
      (λ s. record s {
        next_due_at_ms = some next_due;
        last_evaluated_at_ms = some now;
        catch_up_pending = false;
        catch_up_since_ms = none;
      })
      db

-- `node_has_capacity`: a node that has no row has room.
capacity_of : Option NodeRow → Bool
capacity_of none = true
capacity_of (some n) = ltb n.active_runs n.max_concurrent_runs

unfoldable pub node_has_capacity : Text → Db → Bool
unfolding capacity_of find_where
node_has_capacity node db = capacity_of (find_where (λ n. text_eq n.name node) db.nodes)

-- `ORDER BY time,run_id` of two nullable times, where NULL comes first.
unfoldable pub time_lt : Option ℤ → Option ℤ → Bool
time_lt none none = false
time_lt none (some b) = true
time_lt (some a) none = false
time_lt (some a) (some b) = ltb_ℤ a b

-- The order by a time and then by a tie break.
unfoldable pub time_then : Option ℤ → Option ℤ → Bool → Bool
unfolding time_lt
time_then a b tie = time_lt a b || (not (time_lt b a) && tie)
