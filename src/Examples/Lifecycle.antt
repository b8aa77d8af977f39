-- ===== src/Examples/Lifecycle.antt =====
-- A run of the control plane (apps/lmt-server/src/services.rs): the attempt under way fails, and the
-- Agent polls after the delay of the retry.
use lzu_mirror_tools.Store.Events.{
  find_attempt, kind_text, record_event, update_run_if, mark_running, await_retry, finish_run,
  source_of, source_of_run, terminal_source, rearm_decided, apply_decision, apply_terminal,
  apply_projection, write_event, refuse, apply_new, apply_event,
}
use lzu_mirror_tools.Store.Poll.{
  awaits_cancel, find_cancellation, awaits_answer, find_redelivery, redeliver, mark_redelivery,
  runs_with_mirrors, is_initial, is_due, is_retry, to_candidate, find_initial, find_retry,
  is_intent, find_intent, scheduled_row, insert_scheduled, materialize_scheduled_candidate,
  find_candidate, apply_policy, attempt_row, count_attempt, persist_dispatch, to_source,
  dispatch_compiled, dispatch_candidate, dispatch_found, start_new, poll_action,
}
use lzu_mirror_tools.Store.Queries.{
  map_run, has_id, find_run, find_run_by_request, attempts_with_runs, current_generations,
  generation_config, insert_run, insert_attempt, update_run, update_schedule, clear_intent,
  rearm_schedule, node_has_capacity, time_lt, time_then,
}
use lzu_mirror_tools.Server.Services.{
  rearm_config, retry_context, decide_terminal, compile_policy, evaluate_tick, apply_attempt_event,
  create_manual_run, request_cancellation, evaluate_schedules,
}
use lzu_mirror_tools.Core.Schedule.{
  parse_interval, interval_seconds, next_after_ms, activate_schedule, evaluate_schedule_due,
  rearm_interval, seconds_to_ms, decide_retry,
}
use lzu_mirror_tools.Prelude.Tables.{
  update_where, exists_where, where_rows, find_where, min_by, select_first, join,
}
use lzu_mirror_tools.Prelude.{◌≡◌, refl, Memᴰ, List, [], ◌∷◌}
use lzu_mirror_tools.Prelude.Int.{pos, ◌+ℤ◌, ◌-ℤ◌, checked_add, saturating_add, saturating_sub}
use lzu_mirror_tools.Prelude.Text.{codes, text_eq, text_lt}
use lzu_mirror_tools.Core.State.{
  AttemptState, run_is_terminal, is_terminal, attempt_state_eq, allows, project_attempt_event,
  validate_attempt_transition,
}
use lzu_mirror_tools.Store.Rows.{
  Db, RunRow, AttemptRow, is_active, is_pending, is_running, is_queued, is_manual, is_scheduled,
  failure_kind_str, is_request, is_attempt, occupies, has_request, violates_keys,
}
use lzu_mirror_tools.Store.Invariant.{Sound}
use lzu_mirror_tools.Server.Lifecycle.{
  Step, Reach, Reach-Sound, Reach-terminal_run, Reach-terminal_attempt, Reach-one_active,
}
use lzu_mirror_tools.Examples.{
  calendar, parse_document, debug, busy, busy-IsValid, failure, compile, after, ended_run,
  ended_attempt, spec,
}

abbrev second : List RunRow → RunRow
second [] = ended_run
second (x ∷ []) = ended_run
second (x ∷ y ∷ ys) = y

abbrev failed : Db
failed =
    after (apply_attempt_event calendar parse_document debug (codes "r1") 1 failure (pos 2001) busy)

abbrev retried : Db
retried = after (poll_action compile (codes "x") (codes "n1") (pos 9000) failed)

history : Reach calendar parse_document debug busy retried
unfolding find_attempt kind_text record_event update_run_if mark_running await_retry finish_run
    source_of source_of_run terminal_source rearm_decided apply_decision apply_terminal
    apply_projection write_event refuse apply_new apply_event awaits_cancel find_cancellation
    awaits_answer find_redelivery redeliver mark_redelivery runs_with_mirrors is_initial is_due
    is_retry to_candidate find_initial find_retry is_intent find_intent scheduled_row
    insert_scheduled materialize_scheduled_candidate find_candidate apply_policy attempt_row
    count_attempt persist_dispatch to_source dispatch_compiled dispatch_candidate dispatch_found
    start_new poll_action map_run has_id find_run find_run_by_request attempts_with_runs
    current_generations generation_config insert_run insert_attempt update_run update_schedule
    clear_intent rearm_schedule node_has_capacity time_lt time_then is_active is_pending is_running
    is_queued is_manual is_scheduled failure_kind_str is_request is_attempt occupies has_request
    violates_keys rearm_config retry_context decide_terminal compile_policy evaluate_tick
    apply_attempt_event create_manual_run request_cancellation evaluate_schedules parse_interval
    interval_seconds next_after_ms activate_schedule evaluate_schedule_due rearm_interval
    seconds_to_ms decide_retry run_is_terminal is_terminal attempt_state_eq allows
    project_attempt_event validate_attempt_transition update_where exists_where where_rows
    find_where min_by select_first join ◌+ℤ◌ ◌-ℤ◌ checked_add saturating_add saturating_sub text_eq
    text_lt
history =
    Reach.next (Reach.next Reach.here (Step.report (codes "r1") 1 failure (pos 2001) _ refl))
      (Step.poll compile (codes "x") (codes "n1") (pos 9000) _ refl)

Reach-Sound_example : Sound busy retried
Reach-Sound_example = Reach-Sound calendar parse_document debug busy-IsValid history

Reach-terminal_run_example : Memᴰ ended_run retried.runs
unfolding run_is_terminal
Reach-terminal_run_example =
    Reach-terminal_run calendar parse_document debug busy-IsValid history (Memᴰ.head refl) refl

Reach-terminal_attempt_example :
    (a' : AttemptRow) × Memᴰ a' retried.attempts
    × (a'.run_id ≡ codes "r0")
    × (a'.attempt_no ≡ 1)
    × (a'.spec ≡ spec)
    × (a'.state ≡ AttemptState.succeeded)
unfolding is_terminal
Reach-terminal_attempt_example =
    Reach-terminal_attempt calendar parse_document debug {a = ended_attempt} busy-IsValid history
      (Memᴰ.head refl) refl

-- The run that the failed attempt belonged to, as the history leaves it.
abbrev run_of_failed : RunRow
run_of_failed = second retried.runs

Reach-one_active_example : run_of_failed ≡ second retried.runs
unfolding find_attempt kind_text record_event update_run_if mark_running await_retry finish_run
    source_of source_of_run terminal_source rearm_decided apply_decision apply_terminal
    apply_projection write_event refuse apply_new apply_event awaits_cancel find_cancellation
    awaits_answer find_redelivery redeliver mark_redelivery runs_with_mirrors is_initial is_due
    is_retry to_candidate find_initial find_retry is_intent find_intent scheduled_row
    insert_scheduled materialize_scheduled_candidate find_candidate apply_policy attempt_row
    count_attempt persist_dispatch to_source dispatch_compiled dispatch_candidate dispatch_found
    start_new poll_action map_run has_id find_run find_run_by_request attempts_with_runs
    current_generations generation_config insert_run insert_attempt update_run update_schedule
    clear_intent rearm_schedule node_has_capacity time_lt time_then is_active is_pending is_running
    is_queued is_manual is_scheduled failure_kind_str is_request is_attempt occupies has_request
    violates_keys rearm_config retry_context decide_terminal compile_policy evaluate_tick
    apply_attempt_event create_manual_run request_cancellation evaluate_schedules parse_interval
    interval_seconds next_after_ms activate_schedule evaluate_schedule_due rearm_interval
    seconds_to_ms decide_retry run_is_terminal is_terminal attempt_state_eq allows
    project_attempt_event validate_attempt_transition update_where exists_where where_rows
    find_where min_by select_first join ◌+ℤ◌ ◌-ℤ◌ checked_add saturating_add saturating_sub text_eq
    text_lt
Reach-one_active_example =
    Reach-one_active calendar parse_document debug {r = run_of_failed} {s = second retried.runs}
      busy-IsValid history (Memᴰ.tail (Memᴰ.head refl)) (Memᴰ.tail (Memᴰ.head refl)) refl refl refl
