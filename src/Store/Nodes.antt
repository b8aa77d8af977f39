-- ===== src/Store/Nodes.antt =====
-- The binding of a node to its Agent (crates/lmt-store/src/lib.rs): `observe_node` and
-- `replace_agent_binding`. Numbers are below 2^63, what a column holds; the columns that no modelled
-- statement reads are left out.
pub mod Binding
use lzu_mirror_tools.Prelude.{
  ℕ, Bool, true, false, ◌&&◌, not, Option, none, some, ok, err, if◌then◌else◌, ltb, ◌==◌, coalesce,
}
use lzu_mirror_tools.Prelude.Int.{ℤ}
use lzu_mirror_tools.Prelude.Text.{Text, text_eq}
use lzu_mirror_tools.Prelude.Tables.{find_where, update_where, exists_where}
use lzu_mirror_tools.Core.State.{is_terminal}
use lzu_mirror_tools.Store.Rows.{
  StoreError, NodeRow, RunRow, AttemptRow, Db, Tx, is_active, database, agent_binding_conflict,
  attempt_not_found, binding_replacement_unsafe,
}
use lzu_mirror_tools.Store.Queries.{attempts_with_runs}

pub record NodeObservation : Type 0 where
  pub node : Text
  pub agent_version : Text
  pub agent_instance_id : Text
  pub agent_boot_id : Text
  pub active_runs : ℕ
  pub max_concurrent_runs : ℕ
  pub mirror_root_free_bytes : Option ℕ
  pub observed_at_ms : ℤ

unfoldable pub is_node : Text → NodeRow → Bool
is_node node n = text_eq n.name node

unfoldable pub find_node : Text → Db → Option NodeRow
unfolding is_node find_where
find_node node db = find_where (is_node node) db.nodes

unfoldable pub update_node : Text → (NodeRow → NodeRow) → Db → Db
unfolding is_node update_where
update_node node f db = record db { nodes = update_where (is_node node) f db.nodes }

-- `bound_agent_id != observation.agent_instance_id`, which a node without an Agent passes.
unfoldable pub conflicts : Option Text → Text → Bool
conflicts none presented = false
conflicts (some bound) presented = not (text_eq bound presented)

unfoldable pub observed : NodeObservation → NodeRow → NodeRow
observed o n = record n {
  agent_version = some o.agent_version;
  agent_instance_id = some o.agent_instance_id;
  bound_agent_id = coalesce n.bound_agent_id (some o.agent_instance_id);
  agent_boot_id = some o.agent_boot_id;
  last_seen_at_ms = some o.observed_at_ms;
  active_runs = o.active_runs;
  mirror_root_free_bytes = o.mirror_root_free_bytes;
  max_concurrent_runs = o.max_concurrent_runs;
}

-- The error of a conflict; the binding is there where it is asked for.
unfoldable pub conflict : Option Text → Text → StoreError
conflict none presented = database
conflict (some bound) presented = agent_binding_conflict bound presented

-- The table's CHECK(max_concurrent_runs > 0) fails the UPDATE.
unfoldable pub observe_node : NodeObservation → Db → Tx (Unit {0})
unfolding conflicts conflict observed update_node
observe_node o db = elim (find_node o.node db) [
  | none ↦ err database
  | some n ↦
      if conflicts n.bound_agent_id o.agent_instance_id
      then err (conflict n.bound_agent_id o.agent_instance_id)
      else if o.max_concurrent_runs == 0
      then err database
      else ok (tt, update_node o.node (observed o) db)
]

-- An attempt that was handed out to the node and is not at its end.
unfoldable pub may_execute : Text → AttemptRow × RunRow → Bool
may_execute node (a, r) =
    text_eq r.owner_node node
    && is_active r.state
    && ltb 0 a.dispatch_count
    && not (is_terminal a.state)

unfoldable pub rebound : Text → NodeRow → NodeRow
rebound agent_id n = record n {
  bound_agent_id = some agent_id;
  agent_instance_id = none;
  agent_boot_id = none;
}

unfoldable pub replace_agent_binding : Text → Text → Bool → Db → Tx (Unit {0})
unfolding may_execute rebound update_node
replace_agent_binding node agent_id acknowledge_execution_risk db = elim (find_node node db) [
  | none ↦ err attempt_not_found
  | some n ↦
      if exists_where (may_execute node) (attempts_with_runs db) && not acknowledge_execution_risk
      then err binding_replacement_unsafe
      else ok (tt, update_node node (rebound agent_id) db)
]
