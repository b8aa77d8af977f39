-- ===== src/Store/Restore.antt =====
-- `normalize_restored_database` (crates/lmt-store/src/lib.rs): the statements of its transaction.
pub mod Soundness
use lzu_mirror_tools.Prelude.{
  ℕ, Bool, true, false, ◌&&◌, not, Option, none, some, ltb, if◌then◌else◌,
}
use lzu_mirror_tools.Prelude.Int.{ℤ}
use lzu_mirror_tools.Prelude.Text.{Text, text_eq, codes}
use lzu_mirror_tools.Prelude.Tables.{update_where, exists_where}
use lzu_mirror_tools.Core.State.{RunState, AttemptState}
use lzu_mirror_tools.Store.Rows.{RunRow, AttemptRow, NodeRow, Db, is_active, is_pending}

abbrev pub restore_message : Text
restore_message = codes "interrupted by offline control-plane restore"

-- `state IN('queued','accepted','running')`.
unfoldable pub is_unfinished : AttemptState → Bool
is_unfinished AttemptState.queued = true
is_unfinished AttemptState.accepted = true
is_unfinished AttemptState.running = true
is_unfinished _ = false

unfoldable pub interrupt_row : ℤ → AttemptRow → AttemptRow
interrupt_row at a = record a {
  state = AttemptState.interrupted;
  finished_at_ms = some at;
  exit_code = none;
  failure_kind = some (codes "interrupted");
  failure_message = some restore_message;
}

unfoldable pub interrupt_attempts : ℤ → Db → Db
unfolding is_unfinished interrupt_row update_where
interrupt_attempts at db = record db {
  attempts = update_where (λ a. is_unfinished a.state) (interrupt_row at) db.attempts;
}

-- A pending run of which nothing was dispatched.
unfoldable pub is_fresh : Db → RunRow → Bool
unfolding exists_where
is_fresh db r =
    is_pending r.state
    && not (exists_where (λ a. text_eq a.run_id r.id && ltb 0 a.dispatch_count) db.attempts)

unfoldable pub withdraw_row : ℤ → RunRow → RunRow
withdraw_row at r = record r {
  state = RunState.cancelled;
  finished_at_ms = some at;
  retry_due_at_ms = none;
  final_exit_code = none;
  failure_kind = none;
  failure_message = some (codes "cancelled by offline control-plane restore before dispatch");
}

unfoldable pub withdraw_runs : ℤ → Db → Db
unfolding is_fresh withdraw_row update_where
withdraw_runs at db = record db { runs = update_where (is_fresh db) (withdraw_row at) db.runs }

unfoldable pub fail_row : ℤ → RunRow → RunRow
fail_row at r = record r {
  state = RunState.failed;
  finished_at_ms = some at;
  retry_due_at_ms = none;
  final_exit_code = none;
  failure_kind = some (codes "interrupted");
  failure_message = some restore_message;
}

unfoldable pub fail_runs : ℤ → Db → Db
unfolding fail_row update_where
fail_runs at db = record db { runs = update_where (λ r. is_active r.state) (fail_row at) db.runs }

unfoldable pub clear_node : NodeRow → NodeRow
clear_node n = record n { active_runs = 0; agent_instance_id = none; agent_boot_id = none }

unfoldable pub clear_nodes : Db → Db
unfolding clear_node update_where
clear_nodes db = record db { nodes = update_where (λ _. true) clear_node db.nodes }

unfoldable pub normalize_restored_database : ℤ → Db → Db
unfolding interrupt_attempts withdraw_runs fail_runs clear_nodes
normalize_restored_database restored_at_ms db =
    clear_nodes (
      fail_runs restored_at_ms
        (withdraw_runs restored_at_ms (interrupt_attempts restored_at_ms db)))
