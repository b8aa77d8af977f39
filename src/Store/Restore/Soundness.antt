-- ===== src/Store/Restore/Soundness.antt =====
-- `normalize_restored_database` (crates/lmt-store/src/lib.rs) keeps the database valid, and leaves
-- nothing under way.
use lzu_mirror_tools.Prelude.{◌≡◌, refl, true, false, none, arith}
use lzu_mirror_tools.Prelude.Int.{ℤ}
use lzu_mirror_tools.Prelude.Tables.{All}
use lzu_mirror_tools.Prelude.Tables.Select.{All-of_Mem}
use lzu_mirror_tools.Core.State.{is_terminal, run_is_terminal}
use lzu_mirror_tools.Store.Invariant.{IsValid, Sound}
use lzu_mirror_tools.Store.Invariant.Statements.{
  Sound-trans, update_runs-Sound, update_attempts-Sound,
}
use lzu_mirror_tools.Prelude.Tables.Evolution.{All-updated_rows}
use lzu_mirror_tools.Store.Rows.{Db, RunRow, AttemptRow, NodeRow, is_active, is_pending}
use lzu_mirror_tools.Store.Restore.{
  is_unfinished, interrupt_row, interrupt_attempts, is_fresh, withdraw_row, withdraw_runs, fail_row,
  fail_runs, clear_node, clear_nodes, normalize_restored_database,
}

interrupt_attempts-Sound :
    (at : ℤ) (db : Db) → IsValid db.runs db.attempts → Sound db (interrupt_attempts at db)
unfolding interrupt_attempts
interrupt_attempts-Sound at db v =
    update_attempts-Sound (λ a. is_unfinished a.state) (interrupt_row at) db v (λ x. (refl, refl))
      (All-of_Mem _ db.attempts (λ x m h. ground arith))

withdraw_runs-Sound :
    (at : ℤ) (db : Db) → IsValid db.runs db.attempts → Sound db (withdraw_runs at db)
unfolding withdraw_runs run_is_terminal is_pending is_active
withdraw_runs-Sound at db v =
    update_runs-Sound (is_fresh db) (withdraw_row at)
      (record {
        id = λ x. refl;
        mirror = λ x. refl;
        request = λ x. refl;
        active = λ x h k. ground arith;
      })
      db v (λ x. refl) (All-of_Mem _ db.runs (λ x m h. ground arith))

fail_runs-Sound : (at : ℤ) (db : Db) → IsValid db.runs db.attempts → Sound db (fail_runs at db)
unfolding fail_runs run_is_terminal is_pending is_active
fail_runs-Sound at db v =
    update_runs-Sound (λ r. is_active r.state) (fail_row at)
      (record {
        id = λ x. refl;
        mirror = λ x. refl;
        request = λ x. refl;
        active = λ x h k. ground arith;
      })
      db v (λ x. refl) (All-of_Mem _ db.runs (λ x m h. ground arith))

-- A restored database is valid if the snapshot was; runs that were at an end are as they were.
pub normalize_restored_database-Sound :
    (at : ℤ) (db : Db) → IsValid db.runs db.attempts → Sound db (normalize_restored_database at db)
unfolding normalize_restored_database clear_nodes
normalize_restored_database-Sound at db v =
    let a = interrupt_attempts-Sound at db v in
    let db1 : Db = interrupt_attempts at db in
    let w = withdraw_runs-Sound at db1 a.valid in
    let db2 : Db = withdraw_runs at db1 in
    let f = fail_runs-Sound at db2 w.valid in
    let s = Sound-trans db db1 _ a (Sound-trans db1 db2 (fail_runs at db2) w f) in
    record { valid = s.valid; runs = s.runs; attempts = s.attempts }

-- After a restore no run is active, no attempt is unfinished, and no node counts a running job or
-- remembers an Agent process.
pub normalize_restored_database-quiet :
    (at : ℤ) (db : Db)
    → let db' = normalize_restored_database at db in
      All (λ r. is_active r.state ≡ false) db'.runs
      × All (λ a. is_terminal a.state ≡ true) db'.attempts
      × All
          (λ n. (n.active_runs ≡ 0) × (n.agent_instance_id ≡ none) × (n.agent_boot_id ≡ none))
          db'.nodes
unfolding normalize_restored_database clear_nodes fail_runs withdraw_runs interrupt_attempts
    is_active is_terminal
normalize_restored_database-quiet at db = (
  All-updated_rows (λ (r : RunRow). is_active r.state ≡ false) (λ r. is_active r.state)
      (fail_row at) _ (All-of_Mem _ _ (λ x m. ground arith)),
  All-updated_rows (λ (a : AttemptRow). is_terminal a.state ≡ true) (λ a. is_unfinished a.state)
      (interrupt_row at) db.attempts (All-of_Mem _ _ (λ x m. ground arith)),
  All-updated_rows
      (λ (n : NodeRow).
        (n.active_runs ≡ 0) × (n.agent_instance_id ≡ none) × (n.agent_boot_id ≡ none))
      (λ _. true) clear_node db.nodes (All-of_Mem _ _ (λ x m. (refl, refl, refl))),
)
