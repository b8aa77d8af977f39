-- ===== src/Examples/Transactions.antt =====
-- One transaction each on the concrete database: a request, a report, and the restore of a backup.
use lzu_mirror_tools.Store.ManualRun.{manual_row, insert_manual, create_new, create_manual_run}
use lzu_mirror_tools.Core.Schedule.{
  parse_interval, interval_seconds, next_after_ms, activate_schedule, evaluate_schedule_due,
  rearm_interval, seconds_to_ms, decide_retry,
}
use lzu_mirror_tools.Prelude.{◌≡◌, refl, Option, none, some, ok, Result, true, false}
use lzu_mirror_tools.Prelude.Int.{ℤ, pos, ◌+ℤ◌, ◌-ℤ◌, checked_add, saturating_add, saturating_sub}
use lzu_mirror_tools.Prelude.Text.{Text, codes, text_eq, text_lt}
use lzu_mirror_tools.Core.State.{
  run_is_terminal, is_terminal, attempt_state_eq, allows, project_attempt_event,
  validate_attempt_transition,
}
use lzu_mirror_tools.Store.Rows.{
  Db, StoreError, is_active, is_pending, is_running, is_queued, is_manual, is_scheduled,
  failure_kind_str, is_request, is_attempt, occupies, has_request, violates_keys,
}
use lzu_mirror_tools.Store.Queries.{
  RunRecord, map_run, has_id, find_run, find_run_by_request, attempts_with_runs,
  current_generations, generation_config, insert_run, insert_attempt, update_run, update_schedule,
  clear_intent, rearm_schedule, node_has_capacity, time_lt, time_then,
}
use lzu_mirror_tools.Store.ManualRun.Requests.{create_manual_run-again}
use lzu_mirror_tools.Store.Events.{
  find_attempt, kind_text, record_event, update_run_if, mark_running, await_retry, finish_run,
  source_of, source_of_run, terminal_source, rearm_decided, apply_decision, apply_terminal,
  apply_projection, write_event, refuse, apply_new, apply_event,
}
use lzu_mirror_tools.Store.Events.Replay.{apply_event-again}
use lzu_mirror_tools.Prelude.Tables.{
  All, update_where, exists_where, where_rows, find_where, min_by, select_first, join,
}
use lzu_mirror_tools.Store.Restore.{normalize_restored_database}
use lzu_mirror_tools.Store.Restore.Soundness.{normalize_restored_database-quiet}
use lzu_mirror_tools.Server.Services.{decide_terminal, rearm_config, retry_context}
use lzu_mirror_tools.Examples.{
  calendar, parse_document, debug, busy, idle, ended_run, failure, policy, after, value,
}

abbrev requested : Db
requested =
    after (create_manual_run policy (codes "r2") (codes "debian") (codes "q2") (pos 3000) idle)

abbrev answer : RunRecord
answer =
    value (create_manual_run policy (codes "r2") (codes "debian") (codes "q2") (pos 3000) idle)
      (map_run ended_run)

create_manual_run-again_example :
    create_manual_run policy (codes "r3") (codes "debian") (codes "q2") (pos 4000) requested
    ≡ ok (answer, requested)
unfolding manual_row insert_manual create_new create_manual_run map_run has_id find_run
    find_run_by_request attempts_with_runs current_generations generation_config insert_run
    insert_attempt update_run update_schedule clear_intent rearm_schedule node_has_capacity time_lt
    time_then is_active is_pending is_running is_queued is_manual is_scheduled failure_kind_str
    is_request is_attempt occupies has_request violates_keys update_where exists_where where_rows
    find_where min_by select_first join ◌+ℤ◌ ◌-ℤ◌ checked_add saturating_add saturating_sub text_eq
    text_lt
create_manual_run-again_example =
    create_manual_run-again policy (codes "r2") (codes "debian") (codes "q2") (pos 3000) idle policy
      (codes "r3") (pos 4000) answer requested refl

abbrev rearm : Text → Result StoreError (Option ℤ)
rearm config_toml = ok (some (pos 60000))

abbrev failed : Db
failed = after (
    apply_event (decide_terminal calendar parse_document debug) (codes "r1") 1 failure (pos 2001)
      busy)

apply_event-again_example :
    apply_event
      (decide_terminal calendar parse_document debug)
      (codes "r1")
      1
      failure
      (pos 2500)
      failed
    ≡ ok (
      record { accepted_event_sequence = 3; newly_applied = false; retry_scheduled = false },
      failed,
    )
unfolding find_attempt kind_text record_event update_run_if mark_running await_retry finish_run
    source_of source_of_run terminal_source rearm_decided apply_decision apply_terminal
    apply_projection write_event refuse apply_new apply_event map_run has_id find_run
    find_run_by_request attempts_with_runs current_generations generation_config insert_run
    insert_attempt update_run update_schedule clear_intent rearm_schedule node_has_capacity time_lt
    time_then is_active is_pending is_running is_queued is_manual is_scheduled failure_kind_str
    is_request is_attempt occupies has_request violates_keys parse_interval interval_seconds
    next_after_ms activate_schedule evaluate_schedule_due rearm_interval seconds_to_ms decide_retry
    run_is_terminal is_terminal attempt_state_eq allows project_attempt_event
    validate_attempt_transition update_where exists_where where_rows find_where min_by select_first
    join ◌+ℤ◌ ◌-ℤ◌ checked_add saturating_add saturating_sub text_eq text_lt rearm_config
    retry_context decide_terminal
apply_event-again_example =
    apply_event-again (decide_terminal calendar parse_document debug)
      (decide_terminal calendar parse_document debug) (codes "r1") 1 failure (pos 2001) (pos 2500)
      busy refl

normalize_restored_database-quiet_example :
    let db' = normalize_restored_database (pos 3000) busy in
    All (λ r. is_active r.state ≡ false) db'.runs
    × All (λ a. is_terminal a.state ≡ true) db'.attempts
    × All
        (λ n. (n.active_runs ≡ 0) × (n.agent_instance_id ≡ none) × (n.agent_boot_id ≡ none))
        db'.nodes
normalize_restored_database-quiet_example = normalize_restored_database-quiet (pos 3000) busy
