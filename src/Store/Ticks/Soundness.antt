-- ===== src/Store/Ticks/Soundness.antt =====
-- `evaluate_due_schedules` (crates/lmt-store/src/lib.rs) writes schedules only.
use lzu_mirror_tools.Prelude.{ℕ, ◌≡◌, subst, ok, Result, >>=-eq-ok, ok-injective, List, [], ◌∷◌}
use lzu_mirror_tools.Prelude.Int.{ℤ}
use lzu_mirror_tools.Store.Invariant.{IsValid, Sound}
use lzu_mirror_tools.Store.Invariant.Statements.{Sound-refl, Sound-trans, Sound-schedule}
use lzu_mirror_tools.Core.Schedule.{ScheduleRuntime}
use lzu_mirror_tools.Store.Rows.{Db, StoreError}
use lzu_mirror_tools.Store.Queries.{update_schedule}
use lzu_mirror_tools.Store.Ticks.{
  ScheduleTickSource, due_sources, write_runtimes, evaluate_due_schedules,
}

module _ (evaluate : ScheduleTickSource → Result StoreError ScheduleRuntime) where
  write_runtimes-Sound :
      (sources : List ScheduleTickSource) (db db' : Db)
      → IsValid db.runs db.attempts
      → write_runtimes evaluate sources db ≡ ok db'
      → Sound db db'
  unfolding write_runtimes
  write_runtimes-Sound [] db db' v h = subst (Sound db) (ok-injective h) (Sound-refl db v)
  write_runtimes-Sound (source ∷ rest) db db' v h =
      let (runtime, _, h') = >>=-eq-ok (evaluate source) _ h in
      let db1 : Db = update_schedule source.mirror_name (λ _. runtime) db in
      let written = Sound-schedule db db source.mirror_name (λ _. runtime) (Sound-refl db v) in
      Sound-trans db db1 db' written (write_runtimes-Sound rest db1 db' written.valid h')

  -- A tick leaves a valid database valid, and no run or attempt changes its state.
  pub evaluate_due_schedules-Sound :
      (now : ℤ) (db : Db) {result : ℕ × Db}
      → IsValid db.runs db.attempts
      → evaluate_due_schedules evaluate now db ≡ ok result
      → Sound db result.1
  unfolding evaluate_due_schedules
  evaluate_due_schedules-Sound now db v h =
      let (db', e, h') = >>=-eq-ok (write_runtimes evaluate (due_sources now db) db) _ h in
      subst (λ (t : ℕ × Db). Sound db t.1) (ok-injective h')
        (write_runtimes-Sound (due_sources now db) db db' v e)
