-- ===== src/Store/Ticks.antt =====
-- `Store::evaluate_due_schedules` and `Store::earliest_wakeup` (crates/lmt-store/src/lib.rs).
pub mod Soundness
use lzu_mirror_tools.Prelude.{
  ℕ, Bool, true, false, ◌&&◌, ◌||◌, not, Option, none, some, Result, ok, err, ◌>>=◌, List, [], ◌∷◌,
  if◌then◌else◌, ◌==◌, length, map, ◌++◌,
}
use lzu_mirror_tools.Prelude.Int.{ℤ, leb_ℤ, min_ℤ}
use lzu_mirror_tools.Prelude.Text.{Text, text_eq, text_lt}
use lzu_mirror_tools.Prelude.Tables.{where_rows, exists_where, join}
use lzu_mirror_tools.Core.Schedule.{ScheduleRuntime}
use lzu_mirror_tools.Store.Rows.{
  StoreError, MirrorRow, GenerationRow, ScheduleRow, RunRow, Db, Tx, occupies, is_running,
}
use lzu_mirror_tools.Store.Queries.{current_generations, update_schedule, time_then}

pub record ScheduleTickSource : Type 0 where
  pub mirror_name : Text
  pub config_toml : Text
  pub runtime : ScheduleRuntime
  pub has_active_run : Bool

abbrev pub TickRow : Type 0
TickRow = ScheduleRow × (MirrorRow × GenerationRow)

unfoldable pub is_due_at : ℤ → Option ℤ → Bool
is_due_at now none = false
is_due_at now (some due) = leb_ℤ due now

unfoldable pub is_due_row : ℤ → TickRow → Bool
unfolding is_due_at
is_due_row now (s, p) = p.0.managed && p.0.enabled && is_due_at now s.runtime.next_due_at_ms

-- ORDER BY s.next_due_at_ms,m.name, by insertion.
row_before : TickRow → TickRow → Bool
row_before (s, p) (t, q) =
    time_then s.runtime.next_due_at_ms t.runtime.next_due_at_ms (text_lt p.0.name q.0.name)

insert_row : TickRow → List TickRow → List TickRow
unfolding row_before
insert_row x [] = x ∷ []
insert_row x (y ∷ ys) =
    let rest = insert_row x ys in if row_before y x then y ∷ rest else x ∷ y ∷ ys

unfoldable pub order_rows : List TickRow → List TickRow
unfolding insert_row
order_rows [] = []
order_rows (x ∷ xs) = insert_row x (order_rows xs)

unfoldable pub to_tick : Db → TickRow → ScheduleTickSource
unfolding exists_where occupies
to_tick db (s, p) = record {
  mirror_name = p.0.name;
  config_toml = p.1.config_toml;
  runtime = s.runtime;
  has_active_run = exists_where (occupies p.0.name) db.runs;
}

unfoldable pub due_sources : ℤ → Db → List ScheduleTickSource
unfolding order_rows where_rows is_due_row join to_tick
due_sources now db = map (to_tick db) (
    order_rows (
      where_rows (is_due_row now) (
        join (λ (s : ScheduleRow) (p : MirrorRow × GenerationRow). text_eq p.0.name s.mirror_name)
          db.schedules (current_generations db))))

-- The loop over the sources that were read before it.
unfoldable pub write_runtimes :
    (ScheduleTickSource → Result StoreError ScheduleRuntime)
    → List ScheduleTickSource
    → Db
    → Result StoreError Db
write_runtimes evaluate [] db = ok db
write_runtimes evaluate (source ∷ rest) db = evaluate source >>= λ runtime.
    write_runtimes evaluate rest (update_schedule source.mirror_name (λ _. runtime) db)

unfoldable pub evaluate_due_schedules :
    (ScheduleTickSource → Result StoreError ScheduleRuntime) → ℤ → Db → Tx ℕ
unfolding write_runtimes due_sources
evaluate_due_schedules evaluate now db = do
  db' ← write_runtimes evaluate (due_sources now db) db
  ok (length (due_sources now db), db')

-- MIN over the times that are not NULL.
earlier : Option ℤ → Option ℤ → Option ℤ
earlier none b = b
earlier (some a) none = some a
earlier (some a) (some b) = some (min_ℤ a b)

unfoldable pub min_time : List (Option ℤ) → Option ℤ
unfolding earlier
min_time [] = none
min_time (t ∷ ts) = earlier t (min_time ts)

unfoldable pub earliest_wakeup : Db → Option ℤ
unfolding min_time where_rows
earliest_wakeup db = min_time (
    map (λ s. s.runtime.next_due_at_ms) db.schedules
    ++ map (λ r. r.retry_due_at_ms) (where_rows (λ r. is_running r.state) db.runs))
