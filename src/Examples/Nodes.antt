-- ===== src/Examples/Nodes.antt =====
-- The binding of a node to its Agent, and the texts of states.
use lzu_mirror_tools.Prelude.Tables.{
  update_where, exists_where, where_rows, find_where, min_by, select_first, join,
}
use lzu_mirror_tools.Store.Queries.{
  map_run, has_id, find_run, find_run_by_request, attempts_with_runs, current_generations,
  generation_config, insert_run, insert_attempt, update_run, update_schedule, clear_intent,
  rearm_schedule, node_has_capacity, time_lt, time_then,
}
use lzu_mirror_tools.Prelude.{◌≡◌, ◌≢◌, ◌↔◌, refl, none, some, err, true, false, arith}
use lzu_mirror_tools.Prelude.Int.{pos}
use lzu_mirror_tools.Prelude.Text.{Text, codes, text_eq, text_lt}
use lzu_mirror_tools.Core.State.{
  AttemptState, RunState, run_is_terminal, is_terminal, attempt_state_eq, allows,
  project_attempt_event, validate_attempt_transition,
}
use lzu_mirror_tools.Store.Rows.{
  agent_binding_conflict, binding_replacement_unsafe, is_active, is_pending, is_running, is_queued,
  is_manual, is_scheduled, failure_kind_str, is_request, is_attempt, occupies, has_request,
  violates_keys,
}
use lzu_mirror_tools.Store.Codecs.{
  attempt_state_str, parse_attempt_state, run_state_str, parse_run_state,
}
use lzu_mirror_tools.Store.Codecs.RoundTrip.{parse_attempt_state_iff, parse_run_state_iff}
use lzu_mirror_tools.Store.Nodes.{
  NodeObservation, is_node, find_node, update_node, conflicts, observed, conflict, observe_node,
  may_execute, rebound, replace_agent_binding,
}
use lzu_mirror_tools.Store.Nodes.Binding.{
  observe_node-binds, replace_agent_binding-binds, replace_agent_binding-unsafe, Executing,
}
use lzu_mirror_tools.Examples.{busy, n1, after}

abbrev observation : Text → NodeObservation
observation agent = record {
  node = codes "n1";
  agent_version = codes "1";
  agent_instance_id = agent;
  agent_boot_id = codes "b2";
  active_runs = 1;
  max_concurrent_runs = 2;
  mirror_root_free_bytes = none;
  observed_at_ms = pos 2000;
}

another : codes "a2" ≢ codes "a1"
another e = ground arith

observe_node-binds_example :
    let db' = after (observe_node (observation (codes "a1")) busy) in
    (observe_node (observation (codes "a2")) db'
      ≡ err (agent_binding_conflict (codes "a1") (codes "a2")))
    × (db'.runs ≡ busy.runs)
    × (db'.attempts ≡ busy.attempts)
unfolding is_node find_node update_node conflicts observed conflict observe_node may_execute rebound
    replace_agent_binding update_where exists_where where_rows find_where min_by select_first join
    text_eq text_lt
observe_node-binds_example =
    observe_node-binds (observation (codes "a1")) (observation (codes "a2")) busy
      (after (observe_node (observation (codes "a1")) busy)) refl refl another

replace_agent_binding-binds_example :
    let db' = after (replace_agent_binding (codes "n1") (codes "a1") true busy) in
    (observe_node (observation (codes "a2")) db'
      ≡ err (agent_binding_conflict (codes "a1") (codes "a2")))
    × (db'.runs ≡ busy.runs)
    × (db'.attempts ≡ busy.attempts)
unfolding is_node find_node update_node conflicts observed conflict observe_node may_execute rebound
    replace_agent_binding map_run has_id find_run find_run_by_request attempts_with_runs
    current_generations generation_config insert_run insert_attempt update_run update_schedule
    clear_intent rearm_schedule node_has_capacity time_lt time_then is_active is_pending is_running
    is_queued is_manual is_scheduled failure_kind_str is_request is_attempt occupies has_request
    violates_keys run_is_terminal is_terminal attempt_state_eq allows project_attempt_event
    validate_attempt_transition update_where exists_where where_rows find_where min_by select_first
    join text_eq text_lt
replace_agent_binding-binds_example =
    replace_agent_binding-binds (codes "n1") (codes "a1") true (observation (codes "a2")) busy
      (after (replace_agent_binding (codes "n1") (codes "a1") true busy)) refl refl another

replace_agent_binding-unsafe_example :
    (replace_agent_binding (codes "n1") (codes "a2") false busy ≡ err binding_replacement_unsafe)
    ↔ Executing (codes "n1") busy
unfolding is_node find_node update_node conflicts observed conflict observe_node may_execute rebound
    replace_agent_binding map_run has_id find_run find_run_by_request attempts_with_runs
    current_generations generation_config insert_run insert_attempt update_run update_schedule
    clear_intent rearm_schedule node_has_capacity time_lt time_then is_active is_pending is_running
    is_queued is_manual is_scheduled failure_kind_str is_request is_attempt occupies has_request
    violates_keys run_is_terminal is_terminal attempt_state_eq allows project_attempt_event
    validate_attempt_transition update_where exists_where where_rows find_where min_by select_first
    join text_eq text_lt
replace_agent_binding-unsafe_example =
    replace_agent_binding-unsafe (codes "n1") (codes "a2") busy {n = n1} refl

parse_attempt_state_iff_example :
    (parse_attempt_state (codes "timed_out") ≡ some AttemptState.timed_out)
    ↔ (codes "timed_out" ≡ attempt_state_str AttemptState.timed_out)
parse_attempt_state_iff_example = parse_attempt_state_iff (codes "timed_out") AttemptState.timed_out

parse_run_state_iff_example :
    (parse_run_state (codes "pending") ≡ some RunState.pending)
    ↔ (codes "pending" ≡ run_state_str RunState.pending)
parse_run_state_iff_example = parse_run_state_iff (codes "pending") RunState.pending
