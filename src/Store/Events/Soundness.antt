-- ===== src/Store/Events/Soundness.antt =====
-- `apply_event` (crates/lmt-store/src/lib.rs) keeps the database valid.
use lzu_mirror_tools.Prelude.{
  ℕ, ◌<◌, ◌≡◌, refl, sym, subst, Bool, true, false, Option, none, some, inl, inr, arith, ok, Result,
  >>=-eq-ok, ok-injective, Bool-cases, Option-cases, Result-cases, ◌&&◌, Memᴰ, and_eq_true, leb,
  ◌==◌,
}
use lzu_mirror_tools.Prelude.Int.{ℤ}
use lzu_mirror_tools.Prelude.Text.{Text, text_eq, text_eq→eq}
use lzu_mirror_tools.Prelude.Tables.Select.{All-of_Mem, find_where-Mem}
use lzu_mirror_tools.Core.State.{RunState, run_is_terminal}
use lzu_mirror_tools.Core.State.Order.{Advances}
use lzu_mirror_tools.Store.Invariant.{IsValid, Sound, RunStep, AttemptStep}
use lzu_mirror_tools.Store.Invariant.Statements.{
  Sound-refl, Sound-trans, Sound-schedule, update_runs-Sound, update_attempts-Sound,
  is_attempt_unique,
}
use lzu_mirror_tools.Core.Schedule.{RetryDecision}
use lzu_mirror_tools.Core.State.{AttemptEvent, AttemptProjection, project_attempt_event}
use lzu_mirror_tools.Core.State.Projection.{project_attempt_event-Advances}
use lzu_mirror_tools.Store.Rows.{
  Db, RunRow, AttemptRow, StoreError, is_active, is_pending, is_attempt,
}
use lzu_mirror_tools.Store.Queries.{has_id, rearm_schedule}
use lzu_mirror_tools.Store.Events.{
  TerminalDecisionSource, TerminalDecision, AttemptEventApplyResult, find_attempt, record_event,
  update_run_if, mark_running, await_retry, finish_run, terminal_source, rearm_decided,
  apply_decision, apply_terminal, apply_projection, write_event, refuse, apply_new, apply_event,
}

-- An UPDATE of a run that is tested to be active.
update_run_if-Sound :
    (p : RunState → Bool) (id : Text) (f : RunRow → RunRow) (db : Db)
    → IsValid db.runs db.attempts
    → ((x : RunRow)
        → ((f x).id ≡ x.id)
          × ((f x).mirror_name ≡ x.mirror_name)
          × ((f x).manual_request_id ≡ x.manual_request_id)
          × ((f x).attempt_count ≡ x.attempt_count)
          × (p x.state ≡ true → is_active x.state ≡ true)
          × (p x.state ≡ true → RunStep x (f x)))
    → Sound db (update_run_if p id f db)
unfolding update_run_if
update_run_if-Sound p id f db v keys =
    update_runs-Sound (λ x. has_id id x && p x.state) f
      (record {
        id = λ x. (keys x).0;
        mirror = λ x. (keys x).1;
        request = λ x. (keys x).2;
        active = λ x h _. (keys x).4 (and_eq_true (has_id id x) (p x.state) h).1;
      })
      db v (λ x. (keys x).3)
      (All-of_Mem _ db.runs (λ x m h. (keys x).5 (and_eq_true (has_id id x) (p x.state) h).1))

-- The attempt that is found is the only one of its key.
find_attempt_unique :
    (run_id : Text) (attempt_no : ℕ) (db : Db) (a : AttemptRow) {x : AttemptRow}
    → IsValid db.runs db.attempts
    → find_attempt run_id attempt_no db ≡ some a
    → Memᴰ x db.attempts
    → is_attempt run_id attempt_no x ≡ true
    → x ≡ a
unfolding find_attempt is_attempt
find_attempt_unique run_id attempt_no db a {x} v found n h =
    let (m, t) = find_where-Mem (is_attempt run_id attempt_no) db.attempts found in
    let same_run = text_eq→eq a.run_id run_id (and_eq_true (text_eq a.run_id run_id) _ t).0 in
    let same_number : a.attempt_no ≡ attempt_no = ground arith in
    is_attempt_unique db.attempts v.attempts_keyed m n (
      subst (λ i. (text_eq x.run_id i && x.attempt_no == a.attempt_no) ≡ true) (sym same_run)
        (subst (λ k. (text_eq x.run_id run_id && x.attempt_no == k) ≡ true) (sym same_number) h))

write_event-Sound :
    (run_id : Text) (attempt_no : ℕ) (e : AttemptEvent) (db : Db) (a : AttemptRow)
    → IsValid db.runs db.attempts
    → find_attempt run_id attempt_no db ≡ some a
    → Advances a.state e.state
    → a.last_event_sequence < e.event_sequence
    → Sound db (write_event run_id attempt_no e db)
unfolding write_event record_event
write_event-Sound run_id attempt_no e db a v found forward later =
    update_attempts-Sound (is_attempt run_id attempt_no) (record_event e) db v (λ x. (refl, refl))
      (All-of_Mem _ db.attempts (λ x n h.
        subst (λ y. AttemptStep y (record_event e y))
          (sym (find_attempt_unique run_id attempt_no db a v found n h)) (step forward later)))
  where
    step :
        Advances a.state e.state
        → a.last_event_sequence < e.event_sequence
        → AttemptStep a (record_event e a)
    step forward later = record {
      same_run = refl;
      same_number = refl;
      same_spec = refl;
      same_hash = refl;
      advances = forward;
      sequence = omega arith;
      deliveries = omega arith;
    }

mark_running-Sound :
    (id : Text) (started : Option ℤ) (now : ℤ) (db : Db)
    → IsValid db.runs db.attempts
    → Sound db (update_run_if is_pending id (mark_running started now) db)
unfolding mark_running is_pending is_active run_is_terminal
mark_running-Sound id started now db v =
    update_run_if-Sound is_pending id (mark_running started now) db v
      (λ x. (refl, refl, refl, refl, λ h. ground arith, λ h. ground arith))

await_retry-Sound :
    (id : Text) (started : Option ℤ) (due : ℤ) (db : Db)
    → IsValid db.runs db.attempts
    → Sound db (update_run_if is_active id (await_retry started due) db)
unfolding await_retry is_pending is_active run_is_terminal
await_retry-Sound id started due db v =
    update_run_if-Sound is_active id (await_retry started due) db v
      (λ x. (refl, refl, refl, refl, λ h. h, λ h. ground arith))

finish_run-Sound :
    (id : Text) (state : RunState) (p : AttemptProjection) (e : AttemptEvent) (now : ℤ) (db : Db)
    → IsValid db.runs db.attempts
    → is_pending state ≡ false
    → Sound db (update_run_if is_active id (finish_run state p e now) db)
unfolding finish_run is_pending is_active run_is_terminal
finish_run-Sound id state p e now db v ended =
    update_run_if-Sound is_active id (finish_run state p e now) db v
      (λ x. (refl, refl, refl, refl, λ h. h, λ h. ground arith))

-- What a decision on a terminal report must not do: finish a run with a state that is pending.
abbrev pub Finishes : (TerminalDecisionSource → ℤ → Result StoreError TerminalDecision) → Type 0
Finishes decide =
    (source : TerminalDecisionSource) (now : ℤ) (d : TerminalDecision) (state : RunState)
    → decide source now ≡ ok d
    → d.retry ≡ RetryDecision.final state
    → run_is_terminal state ≡ true

module _ (decide : TerminalDecisionSource → ℤ → Result StoreError TerminalDecision)
    (finishes : Finishes decide) (run_id : Text) (attempt_no : ℕ) (e : AttemptEvent) (now : ℤ) where
  apply_decision-Sound :
      (p : AttemptProjection) (mirror : Text) (due : Option ℤ) (retry : RetryDecision) (db : Db)
      → IsValid db.runs db.attempts
      → ((state : RunState) → retry ≡ RetryDecision.final state → run_is_terminal state ≡ true)
      → Sound db (apply_decision run_id p e now mirror due retry db).1
  unfolding apply_decision run_is_terminal is_pending rearm_decided rearm_schedule
  apply_decision-Sound p mirror due (RetryDecision.schedule at) db v ended =
      await_retry-Sound run_id p.run_started_at_ms at db v
  apply_decision-Sound p mirror none (RetryDecision.final state) db v ended =
      finish_run-Sound run_id state p e now db v (ground (arith, ended state refl))
  apply_decision-Sound p mirror (some at) (RetryDecision.final state) db v ended =
      Sound-schedule db _ mirror _
        (finish_run-Sound run_id state p e now db v (ground (arith, ended state refl)))

  apply_terminal-Sound :
      (p : AttemptProjection) (db : Db) (result : Bool × Db)
      → IsValid db.runs db.attempts
      → apply_terminal decide run_id attempt_no p e now db ≡ ok result
      → Sound db result.1
  unfolding apply_terminal
  apply_terminal-Sound p db result v h =
      let (source, _, h') = >>=-eq-ok (terminal_source run_id attempt_no e.state db) _ h in
      let (d, decided, h'') = >>=-eq-ok (decide source now) _ h' in
      subst (λ (t : Bool × Db). Sound db t.1) (ok-injective h'')
        (apply_decision-Sound p source.mirror_name d.interval_next_due_at_ms d.retry db v
          (λ state final. finishes source now d state decided final))

  apply_projection-Sound :
      (p : AttemptProjection) (projected : Option RunState) (db : Db) (result : Bool × Db)
      → IsValid db.runs db.attempts
      → apply_projection decide run_id attempt_no p e now projected db ≡ ok result
      → Sound db result.1
  unfolding apply_projection
  apply_projection-Sound p none db result v h =
      subst (λ (t : Bool × Db). Sound db t.1) (ok-injective h) (Sound-refl db v)
  apply_projection-Sound p (some RunState.running) db result v h =
      subst (λ (t : Bool × Db). Sound db t.1) (ok-injective h)
        (mark_running-Sound run_id p.run_started_at_ms now db v)
  apply_projection-Sound p (some _) db result v h = apply_terminal-Sound p db result v h

  apply_new-Sound :
      (a : AttemptRow) (db : Db) (result : AttemptEventApplyResult × Db)
      → IsValid db.runs db.attempts
      → find_attempt run_id attempt_no db ≡ some a
      → a.last_event_sequence < e.event_sequence
      → apply_new decide a run_id attempt_no e now db ≡ ok result
      → Sound db result.1
  unfolding apply_new refuse
  apply_new-Sound a db result v found later h =
      elim (Result-cases (project_attempt_event a.state e)) [
        | inr (x, err_p) ↦ absurd (ground arith)
        | inl (p, ok_p) ↦
            let written =
              write_event-Sound run_id attempt_no e db a v found
                (project_attempt_event-Advances a.state e ok_p) later in
            let db' : Db = write_event run_id attempt_no e db in
            let (done, e', h') =
              >>=-eq-ok (apply_projection decide run_id attempt_no p e now p.run_state db')
                (λ (done : Bool × Db). ok (
                  record {
                    accepted_event_sequence = e.event_sequence;
                    newly_applied = true;
                    retry_scheduled = done.0;
                  },
                  done.1,
                ))
                {w = result} (ground arith) in
            let projected = apply_projection-Sound p p.run_state db' done written.valid e' in
            subst (λ (t : AttemptEventApplyResult × Db). Sound db t.1)
              (ok-injective {E = StoreError} h') (Sound-trans db db' done.1 written projected)
      ]

  -- An event leaves a valid database valid, freezes terminal runs and moves attempts forward only, if
  -- the decision on a terminal report finishes runs by terminal states.
  pub apply_event-Sound :
      (db : Db) {result : AttemptEventApplyResult × Db}
      → IsValid db.runs db.attempts
      → apply_event decide run_id attempt_no e now db ≡ ok result
      → Sound db result.1
  unfolding apply_event
  apply_event-Sound db {result} v h = elim (Option-cases (find_attempt run_id attempt_no db)) [
    | inl none_found ↦ absurd (ground arith)
    | inr (a, found) ↦ elim (Bool-cases (leb e.event_sequence a.last_event_sequence)) [
      | inl old ↦ subst (Sound db) {x = db} (ground arith) (Sound-refl db v)
      | inr new ↦ apply_new-Sound a db result v found (ground arith) (ground arith)
    ]
  ]
