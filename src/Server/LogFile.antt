-- ===== src/Server/LogFile.antt =====
-- `append_log` (apps/lmt-server/src/lib.rs): a chunk of an attempt's log is written to its file.
-- The lock of the attempt makes a call one step; a failing file system is left out.
pub mod Content
use lzu_mirror_tools.Prelude.{
  ℕ, ◌+◌, ◌-◌, Bool, true, false, not, Option, none, some, List, [], ◌++◌, Result, ok, err,
  if◌then◌else◌, ltb, length, take, drop, min, unwrap_or, is_some,
}
use lzu_mirror_tools.Prelude.Int.{ℤ}
use lzu_mirror_tools.Prelude.Text.{Text, text_eq}
use lzu_mirror_tools.Store.Rows.{StoreError, LogRow, Db}
use lzu_mirror_tools.Store.Logs.{log_metadata, update_log_metadata}

-- The failures of the call, by their codes.
pub data LogFailure : Type 0 where
  log_offset_ahead : LogFailure
  log_content_conflict : LogFailure
  store : StoreError → LogFailure

-- The file of one attempt (none before it is created), and the database.
pub record LogState : Type 0 where
  pub file : Option (List ℕ)
  pub db : Db

abbrev pub content : LogState → List ℕ
content s = unwrap_or s.file []

-- The part of the chunk that the file has already.
unfoldable pub overlap_of : List ℕ → ℕ → List ℕ → ℕ
overlap_of stored offset body = min (length stored - offset) (length body)

-- The last step: the size is recorded, and answered.
unfoldable pub record_size :
    Text → ℕ → Text → ℕ → Bool → ℤ → LogState → Result LogFailure ℕ × LogState
record_size run_id attempt_no path size complete now s =
    elim (update_log_metadata run_id attempt_no path size complete now s.db) [
      | ok db' ↦ (ok size, record s { db = db' })
      | err e ↦ (err (store e), s)
    ]

-- The chunk against the bytes of the file, whose bytes are compared as those of a text are.
unfoldable pub append_bytes :
    Text → ℕ → Text → ℕ → List ℕ → Bool → ℤ → LogState → Result LogFailure ℕ × LogState
unfolding overlap_of record_size
append_bytes run_id attempt_no path offset body complete now s =
    let stored = content s in
    let overlap = overlap_of stored offset body in
    let tail = drop overlap body in
    if ltb (length stored) offset
    then (err log_offset_ahead, record s { file = some stored })
    else if not (text_eq (take overlap (drop offset stored)) (take overlap body))
    then (err log_content_conflict, record s { file = some stored })
    else record_size run_id attempt_no path (length stored + length tail) complete now
        (record s { file = some (stored ++ tail) })

-- The size that is answered for an expired log, which is not written any more.
unfoldable pub expired_size : Option LogRow → Option ℕ
expired_size none = none
expired_size (some l) = if is_some l.expired_at_ms then some l.stored_bytes else none

unfoldable pub append_log :
    Text → ℕ → Text → ℕ → List ℕ → Bool → ℤ → LogState → Result LogFailure ℕ × LogState
unfolding append_bytes expired_size
append_log run_id attempt_no path offset body complete now s =
    elim (expired_size (log_metadata run_id attempt_no s.db)) [
      | some size ↦ (ok size, s)
      | none ↦ append_bytes run_id attempt_no path offset body complete now s
    ]
