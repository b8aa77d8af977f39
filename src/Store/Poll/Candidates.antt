-- ===== src/Store/Poll/Candidates.antt =====
-- The queries of `poll_action` (crates/lmt-store/src/lib.rs): a cancellation, a redelivery, and the
-- candidates for a new start with `materialize_scheduled_candidate`.
use lzu_mirror_tools.Prelude.{
  ℕ, ◌+◌, Bool, false, ◌&&◌, ◌||◌, not, Option, none, some, ok, ◌>>=◌, ltb, ◌==◌, List, is_some,
  is_none,
}
use lzu_mirror_tools.Prelude.Int.{ℤ, leb_ℤ, ltb_ℤ}
use lzu_mirror_tools.Prelude.Text.{Text, text_eq, text_lt}
use lzu_mirror_tools.Prelude.Tables.{update_where, exists_where, select_first, join}
use lzu_mirror_tools.Core.State.{RunState, is_terminal}
use lzu_mirror_tools.Core.Schedule.{RunTrigger}
use lzu_mirror_tools.Store.Rows.{
  MirrorRow, ScheduleRow, RunRow, AttemptRow, Db, Tx, occupies, is_active, is_pending, is_running,
  is_queued, is_manual, is_attempt,
}
use lzu_mirror_tools.Store.Queries.{
  attempts_with_runs, insert_run, update_schedule, clear_intent, time_then,
}

-- `find_cancellation`.
unfoldable pub awaits_cancel : Text → AttemptRow × RunRow → Bool
awaits_cancel node (a, r) =
    text_eq r.owner_node node
    && is_active r.state
    && is_some r.cancel_requested_at_ms
    && a.attempt_no == r.attempt_count
    && ltb 0 a.dispatch_count
    && not (is_terminal a.state)

unfoldable pub find_cancellation : Text → Db → Option (AttemptRow × RunRow)
unfolding awaits_cancel select_first
find_cancellation node db =
    select_first (awaits_cancel node)
      (λ (p : AttemptRow × RunRow) (q : AttemptRow × RunRow).
        time_then p.1.cancel_requested_at_ms q.1.cancel_requested_at_ms
          (text_lt p.0.run_id q.0.run_id))
      (attempts_with_runs db)

-- The query for a redelivery.
unfoldable pub awaits_answer : Text → AttemptRow × RunRow → Bool
awaits_answer node (a, r) =
    text_eq r.owner_node node && is_active r.state && is_queued a.state && ltb 0 a.dispatch_count

unfoldable pub find_redelivery : Text → Db → Option (AttemptRow × RunRow)
unfolding awaits_answer select_first
find_redelivery node db =
    select_first (awaits_answer node)
      (λ (p : AttemptRow × RunRow) (q : AttemptRow × RunRow).
        time_then p.0.last_dispatch_at_ms q.0.last_dispatch_at_ms (
          text_lt p.0.run_id q.0.run_id
          || (text_eq p.0.run_id q.0.run_id && ltb p.0.attempt_no q.0.attempt_no)))
      (attempts_with_runs db)

-- `mark_redelivery`.
unfoldable pub redeliver : ℤ → AttemptRow → AttemptRow
redeliver now a = record a { dispatch_count = a.dispatch_count + 1; last_dispatch_at_ms = some now }

unfoldable pub mark_redelivery : Text → ℕ → ℤ → Db → Db
unfolding redeliver update_where is_attempt
mark_redelivery run_id attempt_no now db = record db {
  attempts = update_where (is_attempt run_id attempt_no) (redeliver now) db.attempts;
}

-- FROM runs r JOIN mirrors m ON m.name=r.mirror_name.
unfoldable pub runs_with_mirrors : Db → List (RunRow × MirrorRow)
unfolding join
runs_with_mirrors db = join (λ r m. text_eq m.name r.mirror_name) db.runs db.mirrors

-- The oldest manual run that has no attempt.
unfoldable pub is_initial : Text → Db → RunRow × MirrorRow → Bool
unfolding exists_where
is_initial node db (r, m) =
    text_eq r.owner_node node
    && is_pending r.state
    && is_manual r.trigger
    && m.managed
    && m.enabled
    && not (exists_where (λ a. text_eq a.run_id r.id) db.attempts)

-- The retry that has been due for the longest time.
unfoldable pub is_due : Option ℤ → ℤ → Bool
is_due none now = false
is_due (some due) now = leb_ℤ due now

unfoldable pub is_retry : Text → ℤ → RunRow × MirrorRow → Bool
unfolding is_due
is_retry node now (r, m) =
    text_eq r.owner_node node
    && is_running r.state
    && is_due r.retry_due_at_ms now
    && is_none r.cancel_requested_at_ms
    && m.managed
    && m.enabled
    && text_eq m.owner_node r.owner_node
    && ltb r.attempt_count r.max_attempts

pub record Candidate : Type 0 where
  pub run_id : Text
  pub mirror_name : Text
  pub generation : ℕ
  pub attempt_no : ℕ

unfoldable pub to_candidate : RunRow → ℕ → Candidate
to_candidate r number = record {
  run_id = r.id;
  mirror_name = r.mirror_name;
  generation = r.mirror_generation;
  attempt_no = number;
}

unfoldable pub find_initial : Text → Db → Option (RunRow × MirrorRow)
unfolding is_initial select_first
find_initial node db =
    select_first (is_initial node db)
      (λ (p : RunRow × MirrorRow) (q : RunRow × MirrorRow).
        ltb_ℤ p.0.created_at_ms q.0.created_at_ms)
      (runs_with_mirrors db)

unfoldable pub find_retry : Text → ℤ → Db → Option (RunRow × MirrorRow)
unfolding is_retry select_first
find_retry node now db =
    select_first (is_retry node now)
      (λ (p : RunRow × MirrorRow) (q : RunRow × MirrorRow).
        time_then p.0.retry_due_at_ms q.0.retry_due_at_ms
          (ltb_ℤ p.0.created_at_ms q.0.created_at_ms))
      (runs_with_mirrors db)

-- The query of `materialize_scheduled_candidate`.
unfoldable pub is_intent : Text → Db → ScheduleRow × MirrorRow → Bool
unfolding exists_where occupies
is_intent node db (s, m) =
    text_eq m.owner_node node
    && m.managed
    && m.enabled
    && s.runtime.catch_up_pending
    && is_some s.runtime.catch_up_since_ms
    && not (exists_where (occupies m.name) db.runs)

unfoldable pub find_intent : Text → Db → Option (ScheduleRow × MirrorRow)
unfolding is_intent select_first join
find_intent node db =
    select_first (is_intent node db)
      (λ (p : ScheduleRow × MirrorRow) (q : ScheduleRow × MirrorRow).
        time_then p.0.runtime.catch_up_since_ms q.0.runtime.catch_up_since_ms
          (text_lt p.1.name q.1.name))
      (join (λ (s : ScheduleRow) (m : MirrorRow). text_eq m.name s.mirror_name) db.schedules
        db.mirrors)

unfoldable pub scheduled_row : Text → ℤ → ScheduleRow × MirrorRow → RunRow
scheduled_row run_id now (s, m) = record {
  id = run_id;
  mirror_name = m.name;
  mirror_generation = m.current_generation;
  owner_node = m.owner_node;
  trigger = RunTrigger.scheduled;
  state = RunState.pending;
  created_at_ms = now;
  started_at_ms = none;
  finished_at_ms = none;
  max_attempts = 1;
  retry_delay_ms = 0;
  attempt_count = 0;
  final_exit_code = none;
  failure_kind = none;
  failure_message = none;
  cancel_requested_at_ms = none;
  manual_request_id = none;
  scheduled_for_at_ms = s.runtime.catch_up_since_ms;
  retry_due_at_ms = none;
}

-- The INSERT of a due mirror's run, and its intent cleared.
unfoldable pub insert_scheduled : Text → ℤ → ScheduleRow × MirrorRow → Db → Tx (Option Candidate)
insert_scheduled run_id now p db = do
  db' ← insert_run (scheduled_row run_id now p) db
  ok (some (to_candidate (scheduled_row run_id now p) 1), update_schedule p.1.name clear_intent db')

unfoldable pub materialize_scheduled_candidate : Text → Text → ℤ → Db → Tx (Option Candidate)
materialize_scheduled_candidate run_id node now db = elim (find_intent node db) [
  | none ↦ ok (none, db)
  | some p ↦ insert_scheduled run_id now p db
]

-- The first of an initial manual run, a due retry, and a due schedule.
unfoldable pub find_candidate : Text → Text → ℤ → Db → Tx (Option Candidate)
unfolding to_candidate
find_candidate run_id node now db = elim (find_initial node db) [
  | some p ↦ ok (some (to_candidate p.0 1), db)
  | none ↦ elim (find_retry node now db) [
    | some p ↦ ok (some (to_candidate p.0 (p.0.attempt_count + 1)), db)
    | none ↦ materialize_scheduled_candidate run_id node now db
  ]
]
