-- ===== src/Store/Logs.antt =====
-- The rows of `attempt_logs` (crates/lmt-store/src/lib.rs): `log_metadata`, `update_log_metadata`,
-- `mark_log_expired` and `log_retention_entries`.
pub mod Entries
pub mod Keys
use lzu_mirror_tools.Prelude.{
  ℕ, Bool, ◌&&◌, ◌||◌, not, Option, none, some, List, [], ◌∷◌, ◌++◌, Result, ok, err, if◌then◌else◌,
  ◌==◌, map, is_none, ltb,
}
use lzu_mirror_tools.Prelude.Int.{ℤ, ltb_ℤ}
use lzu_mirror_tools.Prelude.Text.{Text, text_eq, text_lt}
use lzu_mirror_tools.Prelude.Tables.{update_where, exists_where, find_where, join}
use lzu_mirror_tools.Core.State.{is_terminal}
use lzu_mirror_tools.Store.Rows.{StoreError, AttemptRow, LogRow, Db, is_attempt, database}

unfoldable pub is_log : Text → ℕ → LogRow → Bool
is_log run_id attempt_no l = text_eq l.run_id run_id && l.attempt_no == attempt_no

unfoldable pub log_metadata : Text → ℕ → Db → Option LogRow
unfolding is_log find_where
log_metadata run_id attempt_no db = find_where (is_log run_id attempt_no) db.logs

-- ON CONFLICT DO UPDATE: `complete` is never taken back.
unfoldable pub grow_log : ℕ → Bool → ℤ → LogRow → LogRow
grow_log stored complete now l = record l {
  stored_bytes = stored;
  complete = l.complete || complete;
  updated_at_ms = now;
}

unfoldable pub update_log_metadata : Text → ℕ → Text → ℕ → Bool → ℤ → Db → Result StoreError Db
unfolding is_log grow_log update_where exists_where is_attempt
update_log_metadata run_id attempt_no path stored complete now db =
    if exists_where (is_log run_id attempt_no) db.logs
    then ok (record db {
      logs = update_where (is_log run_id attempt_no) (grow_log stored complete now) db.logs;
    })
    else if exists_where (is_attempt run_id attempt_no) db.attempts
    then ok (record db {
      logs =
          db.logs
          ++ record {
            run_id = run_id;
            attempt_no = attempt_no;
            relative_path = path;
            stored_bytes = stored;
            complete = complete;
            updated_at_ms = now;
            expired_at_ms = none;
          }
            ∷ [];
    })
    else err database

-- The rows that `mark_log_expired` updates: complete, not yet expired, of an attempt at an end.
unfoldable pub may_expire : Text → ℕ → Db → LogRow → Bool
unfolding is_log exists_where is_attempt
may_expire run_id attempt_no db l =
    is_log run_id attempt_no l
    && l.complete
    && is_none l.expired_at_ms
    && exists_where (λ a. is_attempt run_id attempt_no a && is_terminal a.state) db.attempts

unfoldable pub mark_log_expired : Text → ℕ → ℤ → Db → Bool × Db
unfolding may_expire update_where exists_where
mark_log_expired run_id attempt_no now db = (
  exists_where (may_expire run_id attempt_no db) db.logs,
  record db {
    logs =
        update_where (may_expire run_id attempt_no db) (λ l. record l { expired_at_ms = some now })
          db.logs;
  },
)

pub record LogRetentionEntry : Type 0 where
  pub run_id : Text
  pub attempt_no : ℕ
  pub stored_bytes : ℕ
  pub updated_at_ms : ℤ
  pub eligible : Bool
  pub expired_at_ms : Option ℤ

unfoldable pub to_entry : LogRow × AttemptRow → LogRetentionEntry
to_entry (l, a) = record {
  run_id = l.run_id;
  attempt_no = l.attempt_no;
  stored_bytes = l.stored_bytes;
  updated_at_ms = l.updated_at_ms;
  eligible = l.complete && is_terminal a.state;
  expired_at_ms = l.expired_at_ms;
}

-- ORDER BY l.updated_at_ms,l.run_id,l.attempt_no, by insertion.
log_before : LogRow → LogRow → Bool
log_before l m =
    ltb_ℤ l.updated_at_ms m.updated_at_ms
    || (not (ltb_ℤ m.updated_at_ms l.updated_at_ms)
        && (text_lt l.run_id m.run_id
            || (text_eq l.run_id m.run_id && ltb l.attempt_no m.attempt_no)))

insert_log : LogRow × AttemptRow → List (LogRow × AttemptRow) → List (LogRow × AttemptRow)
unfolding log_before
insert_log x [] = x ∷ []
insert_log x (y ∷ ys) =
    let rest = insert_log x ys in if log_before y.0 x.0 then y ∷ rest else x ∷ y ∷ ys

unfoldable pub order_logs : List (LogRow × AttemptRow) → List (LogRow × AttemptRow)
unfolding insert_log
order_logs [] = []
order_logs (x ∷ xs) = insert_log x (order_logs xs)

unfoldable pub log_retention_entries : Db → List LogRetentionEntry
unfolding to_entry order_logs join
log_retention_entries db = map to_entry (
    order_logs (
      join
        (λ (l : LogRow) (a : AttemptRow). text_eq a.run_id l.run_id && a.attempt_no == l.attempt_no)
        db.logs db.attempts))
