-- ===== src/Server/LogFile/Content.antt =====
-- What a log file holds after `append_log` (apps/lmt-server/src/lib.rs).
use lzu_mirror_tools.Prelude.{
  ℕ, ◌+◌, ◌-◌, ◌≤◌, ◌≡◌, sym, ap, ◌∙◌, Bool, false, none, some, inl, inr, List, ◌++◌, ok, length,
  take, drop, min, arith, ltb, Bool-cases, Result-cases, take_all, drop-append, length-append,
  length-drop, take-append, take-append-drop, ltb→lt, ltb→ge,
}
use lzu_mirror_tools.Prelude.Int.{ℤ}
use lzu_mirror_tools.Prelude.Text.{Text, text_eq, text_eq→eq}
use lzu_mirror_tools.Store.Logs.{update_log_metadata, log_metadata}
use lzu_mirror_tools.Server.LogFile.{
  LogState, content, overlap_of, record_size, append_bytes, append_log, expired_size,
}

-- The chunk stands at its offset once the missing part of it is appended.
written_at :
    (stored body : List ℕ) (offset : ℕ)
    → offset ≤ length stored
    → take (overlap_of stored offset body) (drop offset stored)
      ≡ take (overlap_of stored offset body) body
    → take (length body) (drop offset (stored ++ drop (overlap_of stored offset body) body)) ≡ body
unfolding overlap_of
written_at stored body offset h same =
    ap (take (length body)) (drop-append offset stored (drop overlap body) h)
    ∙ elim (Bool-cases (ltb (length stored - offset) (length body))) [
      | inl short ↦
          ap (λ (l : List ℕ). take (length body) (l ++ drop overlap body))
            (sym (take_all overlap (drop offset stored) (omega (arith, rest, ltb→lt _ _ short)))
              ∙ same)
          ∙ ap (take (length body)) (take-append-drop overlap body)
          ∙ take_all (length body) body (omega arith)
      | inr whole ↦
          take-append (length body) (drop offset stored) (drop overlap body)
            (omega (arith, rest, ltb→ge _ _ whole))
          ∙ ap (λ (n : ℕ). take n (drop offset stored)) (sym (all whole))
          ∙ same
          ∙ take_all overlap body (omega (arith, all whole))
    ]
  where
    overlap : ℕ
    overlap = min (length stored - offset) (length body)

    rest : length (drop offset stored) ≡ length stored - offset
    rest = length-drop offset stored

    all : ltb (length stored - offset) (length body) ≡ false → overlap ≡ length body
    all whole = omega (arith, ltb→ge (length stored - offset) (length body) whole)

-- The call has written: what the file held stays in front, the chunk stands at its offset, and the
-- size that is answered is the file's.
pub record HasWritten (offset : ℕ) (body : List ℕ) (size : ℕ) (s s' : LogState) : Type 0 where
  pub added : List ℕ
  pub kept : content s' ≡ content s ++ added
  pub written : take (length body) (drop offset (content s')) ≡ body
  pub measured : size ≡ length (content s')

record_size-ok :
    (run_id : Text) (attempt_no : ℕ) (path : Text) (n : ℕ) (complete : Bool) (now : ℤ)
    (s s' : LogState) (size : ℕ)
    → record_size run_id attempt_no path n complete now s ≡ (ok size, s')
    → (size ≡ n) × (content s' ≡ content s)
unfolding record_size
record_size-ok run_id attempt_no path n complete now s s' size h =
    elim (Result-cases (update_log_metadata run_id attempt_no path n complete now s.db)) [
      | inl (db', e) ↦ (ground arith, ground arith)
      | inr (x, e) ↦ absurd (ground arith)
    ]

append_bytes-ok :
    (run_id : Text) (attempt_no : ℕ) (path : Text) (offset : ℕ) (body : List ℕ) (complete : Bool)
    (now : ℤ) (s s' : LogState) (size : ℕ)
    → append_bytes run_id attempt_no path offset body complete now s ≡ (ok size, s')
    → HasWritten offset body size s s'
unfolding append_bytes
append_bytes-ok run_id attempt_no path offset body complete now s s' size h =
    let stored : List ℕ = content s in
    let overlap : ℕ = overlap_of stored offset body in
    let tail : List ℕ = drop overlap body in
    elim (Bool-cases (ltb (length stored) offset)) [
      | inl ahead ↦ absurd (ground arith)
      | inr near ↦
          elim (Bool-cases (text_eq (take overlap (drop offset stored)) (take overlap body))) [
            | inr differs ↦ absurd (ground arith)
            | inl same ↦
                let (measured, kept) =
                  record_size-ok run_id attempt_no path (length stored + length tail) complete now
                    (record s { file = some (stored ++ tail) }) s' size (ground arith) in
                record {
                  added = tail;
                  kept = kept;
                  written =
                      ap (λ (l : List ℕ). take (length body) (drop offset l)) kept
                      ∙ written_at stored body offset (ltb→ge _ _ near) (text_eq→eq _ _ same);
                  measured = measured ∙ sym (length-append stored tail) ∙ ap length (sym kept);
                }
          ]
    ]

-- A chunk that is accepted for a log that has not expired is in the file at its offset, behind all
-- that the file held before; nothing that was stored is lost or overwritten, and the answer is the
-- size of the file.
pub append_log-HasWritten :
    (run_id : Text) (attempt_no : ℕ) (path : Text) (offset : ℕ) (body : List ℕ) (complete : Bool)
    (now : ℤ) (s s' : LogState) (size : ℕ)
    → expired_size (log_metadata run_id attempt_no s.db) ≡ none
    → append_log run_id attempt_no path offset body complete now s ≡ (ok size, s')
    → HasWritten offset body size s s'
unfolding append_log
append_log-HasWritten run_id attempt_no path offset body complete now s s' size live h =
    append_bytes-ok run_id attempt_no path offset body complete now s s' size (ground arith)
