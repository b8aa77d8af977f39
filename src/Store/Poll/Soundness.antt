-- ===== src/Store/Poll/Soundness.antt =====
-- `poll_action` (crates/lmt-store/src/lib.rs) keeps the database valid.
use lzu_mirror_tools.Prelude.{
  ℕ, ◌+◌, ◌≤◌, ◌≡◌, refl, sym, subst, false, Option, none, some, inl, inr, arith, ok, Result,
  >>=-eq-ok, ok-injective, Bool-cases, Option-cases, Result-cases, Memᴰ,
}
use lzu_mirror_tools.Prelude.Int.{ℤ}
use lzu_mirror_tools.Prelude.Text.{Text, text_eq, text_eq_refl}
use lzu_mirror_tools.Prelude.Tables.{exists_where}
use lzu_mirror_tools.Prelude.Tables.Select.{
  All-of_Mem, All-Mem, exists_where-Mem, select_first-Mem, join-Mem,
}
use mathlib.Core.List.Memᴰ
use lzu_mirror_tools.Prelude.Tables.Evolution.{Mem-update_where}
use lzu_mirror_tools.Core.State.{run_is_terminal}
use lzu_mirror_tools.Store.Invariant.{IsValid, Sound, Backed}
use lzu_mirror_tools.Store.Invariant.Statements.{
  Sound-refl, Sound-trans, Sound-schedule, update_run-Sound, update_attempts-Sound,
}
use lzu_mirror_tools.Store.Invariant.Inserts.{
  insert_run-ok, insert_run-Sound, insert_attempt-ok, dispatch-Sound,
}
use lzu_mirror_tools.Store.Rows.{
  Db, RunRow, AttemptRow, StoreError, MirrorRow, ScheduleRow, is_pending, is_attempt, is_running,
}
use lzu_mirror_tools.Store.Queries.{
  insert_run, insert_attempt, update_run, update_schedule, clear_intent, RunPolicySnapshot,
  generation_config, has_id, node_has_capacity,
}
use lzu_mirror_tools.Store.Poll.{
  PollAction, DispatchSource, CompiledDispatch, Candidate, find_cancellation, find_redelivery,
  mark_redelivery, redeliver, runs_with_mirrors, find_initial, is_initial, find_retry, is_retry,
  find_intent, scheduled_row, to_candidate, insert_scheduled, materialize_scheduled_candidate,
  find_candidate, apply_policy, attempt_row, count_attempt, persist_dispatch, to_source,
  dispatch_compiled, dispatch_candidate, dispatch_found, start_new, poll_action,
}

-- What makes a candidate safe to dispatch: its run is active, and has counted fewer attempts.
abbrev pub IsReady : Db → Candidate → Type 0
IsReady db c =
    (r : RunRow) × Memᴰ r db.runs
    × (r.id ≡ c.run_id)
    × (run_is_terminal r.state ≡ false)
    × (r.attempt_count ≤ c.attempt_no)

-- A redelivery counts one more delivery.
mark_redelivery-Sound :
    (run_id : Text) (attempt_no : ℕ) (now : ℤ) (db : Db)
    → IsValid db.runs db.attempts
    → Sound db (mark_redelivery run_id attempt_no now db)
unfolding mark_redelivery redeliver
mark_redelivery-Sound run_id attempt_no now db v =
    update_attempts-Sound (is_attempt run_id attempt_no) (redeliver now) db v (λ x. (refl, refl))
      (All-of_Mem _ db.attempts (λ x m h. ground arith))

-- A run without attempts has counted none.
uncounted :
    (db : Db) (r : RunRow)
    → IsValid db.runs db.attempts
    → Memᴰ r db.runs
    → exists_where (λ a. text_eq a.run_id r.id) db.attempts ≡ false
    → r.attempt_count ≡ 0
uncounted db r v m h = elim (All-Mem (Backed db.attempts) db.runs v.counts_backed m) [
  | inl z ↦ z
  | inr (a, n, e, _) ↦ absurd (
      ground (
        arith,
        exists_where-Mem (λ a. text_eq a.run_id r.id) db.attempts n (rw e (text_eq_refl r.id)),
      ))
]

find_initial-IsReady :
    (node : Text) (db : Db) (p : RunRow × MirrorRow)
    → IsValid db.runs db.attempts
    → find_initial node db ≡ some p
    → IsReady db (to_candidate p.0 1)
unfolding find_initial runs_with_mirrors to_candidate run_is_terminal is_pending
find_initial-IsReady node db p v h =
    let (m, t) = select_first-Mem (is_initial node db) _ _ h in
    let (n, _, _) = join-Mem _ db.runs db.mirrors m in
    (p.0, n, refl, ground arith, omega (arith, uncounted db p.0 v n (ground arith)))

find_retry-IsReady :
    (node : Text) (now : ℤ) (db : Db) (p : RunRow × MirrorRow)
    → find_retry node now db ≡ some p
    → IsReady db (to_candidate p.0 (p.0.attempt_count + 1))
unfolding find_retry runs_with_mirrors to_candidate is_retry run_is_terminal is_running
find_retry-IsReady node now db p h =
    let (m, t) = select_first-Mem (is_retry node now) _ _ h in
    let (n, _, _) = join-Mem _ db.runs db.mirrors m in (p.0, n, refl, ground arith, omega arith)

-- The database and the candidate that the search for one leaves.
abbrev pub IsFound : Db → Option Candidate × Db → Type 0
IsFound db (none, db') = db' ≡ db
IsFound db (some c, db') = Sound db db' × IsReady db' c

insert_scheduled-IsFound :
    (run_id : Text) (now : ℤ) (p : ScheduleRow × MirrorRow) (db : Db)
    (found : Option Candidate × Db)
    → IsValid db.runs db.attempts
    → insert_scheduled run_id now p db ≡ ok found
    → IsFound db found
unfolding insert_scheduled scheduled_row to_candidate run_is_terminal update_schedule
insert_scheduled-IsFound run_id now p db found v h =
    let row : RunRow = scheduled_row run_id now p in
    let (db', e, h') = >>=-eq-ok (insert_run row db) _ h in
    let (new, same) = insert_run-ok row db e in
    let sound : Sound db db' = subst (Sound db) (sym same) (insert_run-Sound row db v new refl) in
    let there : Memᴰ row db'.runs =
      subst (λ (x : Db). Memᴰ row x.runs) (sym same) (Memᴰ.append_right db.runs (Memᴰ.head refl)) in
    subst (IsFound db) (ok-injective h')
      (Sound-schedule db db' p.1.name clear_intent sound, (row, there, refl, refl, omega arith))

materialize-IsFound :
    (run_id node : Text) (now : ℤ) (db : Db) (found : Option Candidate × Db)
    → IsValid db.runs db.attempts
    → materialize_scheduled_candidate run_id node now db ≡ ok found
    → IsFound db found
unfolding materialize_scheduled_candidate
materialize-IsFound run_id node now db found v h = elim (Option-cases (find_intent node db)) [
  | inl e ↦ subst (IsFound db) {x = (none, db)} (ok-injective {E = StoreError} (ground arith)) refl
  | inr (p, e) ↦ insert_scheduled-IsFound run_id now p db found v (ground arith)
]

find_candidate-IsFound :
    (run_id node : Text) (now : ℤ) (db : Db) (found : Option Candidate × Db)
    → IsValid db.runs db.attempts
    → find_candidate run_id node now db ≡ ok found
    → IsFound db found
unfolding find_candidate
find_candidate-IsFound run_id node now db found v h = elim (Option-cases (find_initial node db)) [
  | inr (p, e) ↦
      subst (IsFound db) {x = (some (to_candidate p.0 1), db)}
        (ok-injective {E = StoreError} (ground arith))
        (Sound-refl db v, find_initial-IsReady node db p v e)
  | inl e ↦ elim (Option-cases (find_retry node now db)) [
    | inr (p, e') ↦
        subst (IsFound db) {x = (some (to_candidate p.0 (p.0.attempt_count + 1)), db)}
          (ok-injective {E = StoreError} (ground arith))
          (Sound-refl db v, find_retry-IsReady node now db p e')
    | inl e' ↦ materialize-IsFound run_id node now db found v (ground arith)
  ]
]

-- The policy of a scheduled run is written before its attempt.
apply_policy-Sound :
    (id : Text) (policy : RunPolicySnapshot) (db : Db) (r : RunRow)
    → IsValid db.runs db.attempts
    → Memᴰ r db.runs
    → r.id ≡ id
    → run_is_terminal r.state ≡ false
    → Sound db (update_run id (apply_policy policy) db)
unfolding apply_policy
apply_policy-Sound id policy db r v m e active =
    subst (λ i. Sound db (update_run i (apply_policy policy) db)) e
      (update_run-Sound (apply_policy policy) db r v m
        (λ x. (ground arith, ground arith, ground arith, ground arith, λ h. ground arith))
        (ground arith))

-- What `persist_dispatch` writes.
persist_dispatch-Sound :
    (c : Candidate) (d : CompiledDispatch) (now : ℤ) (db : Db) (result : Option PollAction × Db)
    → IsValid db.runs db.attempts
    → IsReady db c
    → persist_dispatch c d now db ≡ ok result
    → Sound db result.1
unfolding persist_dispatch update_run has_id attempt_row count_attempt apply_policy
persist_dispatch-Sound c d now db result v (r, m, e, active, l) h =
    let db1 : Db = update_run c.run_id (apply_policy d.policy) db in
    let row : AttemptRow = attempt_row c d now in
    let (db2, e2, h') = >>=-eq-ok (insert_attempt row db1) _ h in
    let (new, same) = insert_attempt-ok row db1 e2 in
    let policy = apply_policy-Sound c.run_id d.policy db r v m e active in
    let r' : RunRow = apply_policy d.policy r in
    let m' : Memᴰ r' db1.runs =
      Mem-update_where (has_id c.run_id) (apply_policy d.policy) db.runs m
        (rw e (text_eq_refl c.run_id)) in
    let sound =
      dispatch-Sound row db1 r' policy.valid m' (ground arith) (ground arith) (ground arith) new in
    subst (λ (t : Option PollAction × Db). Sound db t.1) (ok-injective h')
      (Sound-trans db db1 _ policy (
        subst (λ x. Sound db1 (update_run c.run_id (count_attempt c.attempt_no) x)) (sym same)
          sound))

dispatch_compiled-Sound :
    (c : Candidate) (now : ℤ) (before db : Db) (compiled : Option CompiledDispatch)
    (result : Option PollAction × Db)
    → IsValid before.runs before.attempts
    → Sound before db
    → IsReady db c
    → dispatch_compiled c now before db compiled ≡ ok result
    → Sound before result.1
unfolding dispatch_compiled
dispatch_compiled-Sound c now before db none result v sound ready h =
    subst (λ (t : Option PollAction × Db). Sound before t.1) (ok-injective h) (Sound-refl before v)
dispatch_compiled-Sound c now before db (some d) result v sound ready h =
    Sound-trans before db result.1 sound
      (persist_dispatch-Sound c d now db result sound.valid ready h)

dispatch_candidate-Sound :
    (compile : DispatchSource → Result StoreError (Option CompiledDispatch)) (c : Candidate)
    (now : ℤ) (before db : Db) (result : Option PollAction × Db)
    → IsValid before.runs before.attempts
    → Sound before db
    → IsReady db c
    → dispatch_candidate compile c now before db ≡ ok result
    → Sound before result.1
unfolding dispatch_candidate
dispatch_candidate-Sound compile c now before db result v sound ready h =
    elim (Option-cases (generation_config c.mirror_name c.generation db)) [
      | inl e ↦ absurd (ground arith)
      | inr (g, e) ↦ elim (Result-cases (compile (to_source c g))) [
        | inr (x, e') ↦ absurd (ground arith)
        | inl (compiled, e') ↦ after compiled (ground arith)
      ]
    ]
  where
    after :
        (compiled : Option CompiledDispatch)
        → dispatch_compiled c now before db compiled ≡ ok result
        → Sound before result.1
    after compiled k = dispatch_compiled-Sound c now before db compiled result v sound ready k

dispatch_found-Sound :
    (compile : DispatchSource → Result StoreError (Option CompiledDispatch)) (now : ℤ) (before : Db)
    (found : Option Candidate × Db) (result : Option PollAction × Db)
    → IsValid before.runs before.attempts
    → IsFound before found
    → dispatch_found compile now before found ≡ ok result
    → Sound before result.1
unfolding dispatch_found
dispatch_found-Sound compile now before (none, db) result v f h =
    subst (λ (t : Option PollAction × Db). Sound before t.1) (ok-injective h)
      (subst (Sound before) (sym f) (Sound-refl before v))
dispatch_found-Sound compile now before (some c, db) result v f h =
    dispatch_candidate-Sound compile c now before db result v f.0 f.1 h

-- Whatever a polling Agent is given, a valid database stays valid, terminal runs are frozen and the
-- other rows step.
pub poll_action-Sound :
    (compile : DispatchSource → Result StoreError (Option CompiledDispatch)) (run_id node : Text)
    (now : ℤ) (db : Db) {result : Option PollAction × Db}
    → IsValid db.runs db.attempts
    → poll_action compile run_id node now db ≡ ok result
    → Sound db result.1
unfolding poll_action start_new
poll_action-Sound compile run_id node now db {result} v h =
    elim (Option-cases (find_cancellation node db)) [
      | inr (p, e) ↦ subst (Sound db) {x = db} (ground arith) (Sound-refl db v)
      | inl e ↦ elim (Option-cases (find_redelivery node db)) [
        | inr (p, e') ↦
            subst (Sound db) {x = mark_redelivery p.0.run_id p.0.attempt_no now db} (ground arith)
              (mark_redelivery-Sound p.0.run_id p.0.attempt_no now db v)
        | inl e' ↦ elim (Bool-cases (node_has_capacity node db)) [
          | inr full ↦ subst (Sound db) {x = db} (ground arith) (Sound-refl db v)
          | inl room ↦
              let (found, e'', h') =
                >>=-eq-ok (find_candidate run_id node now db) (dispatch_found compile now db)
                  {w = result} (ground arith) in
              dispatch_found-Sound compile now db found result v
                (find_candidate-IsFound run_id node now db found v e'') h'
        ]
      ]
    ]
