-- ===== src/Store/Cancellation/Soundness.antt =====
-- `request_cancellation` (crates/lmt-store/src/lib.rs) keeps the database valid.
use lzu_mirror_tools.Prelude.{
  ◌≡◌, refl, subst, Bool, false, Option, none, some, inl, inr, arith, ok, Result, >>=-eq-ok,
  ok-injective, Bool-cases, Option-cases, Memᴰ, if◌then◌else◌,
}
use lzu_mirror_tools.Prelude.Int.{ℤ}
use lzu_mirror_tools.Prelude.Text.{Text, text_eq→eq, text_eq_refl}
use lzu_mirror_tools.Prelude.Tables.Select.{All-of_Mem, find_where-Mem}
use lzu_mirror_tools.Prelude.Tables.Evolution.{Mem-update_where}
use lzu_mirror_tools.Core.State.{is_terminal, run_is_terminal}
use lzu_mirror_tools.Store.Invariant.{IsValid, Sound}
use lzu_mirror_tools.Store.Invariant.Statements.{
  Sound-refl, Sound-trans, Sound-schedule, update_run-Sound, update_attempts-Sound,
}
use lzu_mirror_tools.Store.Rows.{Db, RunRow, StoreError, is_active, is_pending}
use lzu_mirror_tools.Store.Queries.{find_run, has_id, update_run, rearm_schedule}
use lzu_mirror_tools.Store.Cancellation.{
  CancellationApplyResult, request_cancel, cancel_row, cancel_run_row, cancel_attempts,
  is_undispatched, rearm_current, rearmed, rearm_if, cancel_now, read_run, cancel_active,
  active_dispatched, request_cancellation,
}

-- A run that is read by its identifier is in the table, under that identifier.
find_run-Mem :
    (id : Text) (db : Db) {r : RunRow} → find_run id db ≡ some r → Memᴰ r db.runs × (r.id ≡ id)
unfolding find_run
find_run-Mem id db {r} h =
    let (m, t) = find_where-Mem (has_id id) db.runs h in (m, text_eq→eq r.id id t)

request_cancel-Sound :
    (now : ℤ) (db : Db) (r : RunRow)
    → IsValid db.runs db.attempts
    → Memᴰ r db.runs
    → run_is_terminal r.state ≡ false
    → Sound db (update_run r.id (request_cancel now) db)
unfolding request_cancel
request_cancel-Sound now db r v m active =
    update_run-Sound (request_cancel now) db r v m (λ x. (refl, refl, refl, refl, λ h. h))
      (ground arith)

cancel_attempts-Sound :
    (id : Text) (now : ℤ) (db : Db)
    → IsValid db.runs db.attempts
    → Sound db (cancel_attempts id now db)
unfolding cancel_attempts is_terminal
cancel_attempts-Sound id now db v =
    update_attempts-Sound (is_undispatched id) (cancel_row now) db v (λ x. (refl, refl))
      (All-of_Mem _ db.attempts (λ x m h. ground arith))

cancel_run_row-Sound :
    (now : ℤ) (db : Db) (r : RunRow)
    → IsValid db.runs db.attempts
    → Memᴰ r db.runs
    → run_is_terminal r.state ≡ false
    → Sound db (update_run r.id (cancel_run_row now) db)
unfolding cancel_run_row is_active is_pending
cancel_run_row-Sound now db r v m active =
    update_run-Sound (cancel_run_row now) db r v m
      (λ x. (refl, refl, refl, refl, λ h. ground arith)) (ground arith)

rearm_if-Sound :
    (due : Option ℤ) (mirror : Text) (now : ℤ) (db db' : Db)
    → Sound db db'
    → Sound db (rearm_if due mirror now db')
unfolding rearm_if rearm_schedule
rearm_if-Sound none mirror now db db' s = s
rearm_if-Sound (some due) mirror now db db' s = Sound-schedule db db' mirror _ s

cancel_now-Sound :
    (rearm : Text → Result StoreError (Option ℤ)) (r row : RunRow) (now : ℤ) (db db' : Db)
    → IsValid db.runs db.attempts
    → Memᴰ row db.runs
    → row.id ≡ r.id
    → run_is_terminal row.state ≡ false
    → cancel_now rearm r now db ≡ ok db'
    → Sound db db'
unfolding cancel_now cancel_attempts
cancel_now-Sound rearm r row now db db' v m e active h =
    let (due, _, h') = >>=-eq-ok (rearmed rearm (rearm_current r db)) _ h in
    let attempts = cancel_attempts-Sound r.id now db v in
    let run = cancel_run_row-Sound now (cancel_attempts r.id now db) row attempts.valid m active in
    subst (Sound db) (ok-injective h') (
      rearm_if-Sound due r.mirror_name now db _ (
        Sound-trans db _ _ attempts (
          subst
            (λ i.
              Sound (cancel_attempts r.id now db)
                (update_run i (cancel_run_row now) (cancel_attempts r.id now db)))
            e run)))

read_run-same :
    (id : Text) (newly : Bool) (db : Db) (result : CancellationApplyResult × Db)
    → read_run id newly db ≡ ok result
    → db ≡ result.1
unfolding read_run
read_run-same id newly db result h = ground arith

cancel_active-Sound :
    (rearm : Text → Result StoreError (Option ℤ)) (r : RunRow) (now : ℤ) (db : Db)
    (result : CancellationApplyResult × Db)
    → IsValid db.runs db.attempts
    → Memᴰ r db.runs
    → run_is_terminal r.state ≡ false
    → cancel_active rearm r now db ≡ ok result
    → Sound db result.1
unfolding cancel_active update_run has_id
cancel_active-Sound rearm r now db result v m active h =
    let requested : Db = update_run r.id (request_cancel now) db in
    let asked = request_cancel-Sound now db r v m active in
    let (db', e, h') =
      >>=-eq-ok {A = Db}
        (if active_dispatched r.id requested
          then ok requested
          else cancel_now rearm r now requested)
        _ h in
    let row : RunRow = request_cancel now r in
    let there : Memᴰ row requested.runs =
      Mem-update_where (has_id r.id) (request_cancel now) db.runs m (text_eq_refl r.id) in
    subst (Sound db) (read_run-same r.id _ db' result h') (
      Sound-trans db requested db' asked (elim (Bool-cases (active_dispatched r.id requested)) [
        | inl t ↦
            subst (Sound requested) {x = requested} (ground arith)
              (Sound-refl requested asked.valid)
        | inr f ↦
            cancel_now-Sound rearm r row now requested db' asked.valid there
              (unfold request_cancel in refl) (unfold request_cancel in active) (ground arith)
      ]))

-- A request to cancel leaves a valid database valid, freezes terminal runs and steps the others.
pub request_cancellation-Sound :
    (rearm : Text → Result StoreError (Option ℤ)) (run_id : Text) (now : ℤ) (db : Db)
    {result : CancellationApplyResult × Db}
    → IsValid db.runs db.attempts
    → request_cancellation rearm run_id now db ≡ ok result
    → Sound db result.1
unfolding request_cancellation
request_cancellation-Sound rearm run_id now db {result} v h =
    elim (Option-cases (find_run run_id db)) [
      | inl e ↦ absurd (ground arith)
      | inr (r, e) ↦ elim (Bool-cases (run_is_terminal r.state)) [
        | inl t ↦ subst (Sound db) {x = db} (ground arith) (Sound-refl db v)
        | inr f ↦
            cancel_active-Sound rearm r now db result v (find_run-Mem run_id db e).0 f
              (ground arith)
      ]
    ]
