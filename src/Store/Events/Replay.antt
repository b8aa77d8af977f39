-- ===== src/Store/Events/Replay.antt =====
-- Repeated and late reports (`apply_event`, crates/lmt-store/src/lib.rs).
use lzu_mirror_tools.Prelude.{
  ℕ, ◌≡◌, refl, sym, ap, ◌∙◌, Bool, true, false, Option, none, some, inl, inr, arith, ok, Result,
  >>=-eq-ok, ok-injective, Bool-cases, Option-cases, Result-cases, leb,
}
use lzu_mirror_tools.Prelude.Int.{ℤ}
use lzu_mirror_tools.Prelude.Text.{Text}
use lzu_mirror_tools.Prelude.Tables.{find_where}
use lzu_mirror_tools.Core.State.{RunState}
use lzu_mirror_tools.Prelude.Tables.Select.{find_where-update}
use lzu_mirror_tools.Core.Schedule.{RetryDecision}
use lzu_mirror_tools.Core.State.{AttemptEvent, AttemptProjection, project_attempt_event}
use lzu_mirror_tools.Store.Rows.{Db, AttemptRow, StoreError, is_attempt}
use lzu_mirror_tools.Store.Queries.{rearm_schedule, update_schedule}
use lzu_mirror_tools.Store.Events.{
  TerminalDecisionSource, TerminalDecision, AttemptEventApplyResult, find_attempt, record_event,
  update_run_if, terminal_source, rearm_decided, apply_decision, apply_terminal, apply_projection,
  write_event, refuse, apply_new, apply_event,
}

module _ (decide : TerminalDecisionSource → ℤ → Result StoreError TerminalDecision) (run_id : Text)
    (attempt_no : ℕ) (e : AttemptEvent) (now : ℤ) where
  -- What is done to the run leaves the attempts.
  apply_decision-attempts :
      (p : AttemptProjection) (mirror : Text) (due : Option ℤ) (retry : RetryDecision) (db : Db)
      → (apply_decision run_id p e now mirror due retry db).1.attempts ≡ db.attempts
  unfolding apply_decision update_run_if rearm_decided rearm_schedule update_schedule
  apply_decision-attempts p mirror due (RetryDecision.schedule at) db = refl
  apply_decision-attempts p mirror none (RetryDecision.final state) db = refl
  apply_decision-attempts p mirror (some at) (RetryDecision.final state) db = refl

  apply_terminal-attempts :
      (p : AttemptProjection) (db : Db) (result : Bool × Db)
      → apply_terminal decide run_id attempt_no p e now db ≡ ok result
      → result.1.attempts ≡ db.attempts
  unfolding apply_terminal
  apply_terminal-attempts p db result h =
      let (source, _, h') = >>=-eq-ok (terminal_source run_id attempt_no e.state db) _ h in
      let (d, _, h'') = >>=-eq-ok (decide source now) _ h' in
      sym (ap (λ (t : Bool × Db). t.1.attempts) (ok-injective h''))
      ∙ apply_decision-attempts p source.mirror_name d.interval_next_due_at_ms d.retry db

  apply_projection-attempts :
      (p : AttemptProjection) (projected : Option RunState) (db : Db) (result : Bool × Db)
      → apply_projection decide run_id attempt_no p e now projected db ≡ ok result
      → result.1.attempts ≡ db.attempts
  unfolding apply_projection update_run_if
  apply_projection-attempts p none db result h =
      sym (ap (λ (t : Bool × Db). t.1.attempts) (ok-injective h))
  apply_projection-attempts p (some RunState.running) db result h =
      sym (ap (λ (t : Bool × Db). t.1.attempts) (ok-injective h))
  apply_projection-attempts p (some _) db result h = apply_terminal-attempts p db result h

  -- A new event is recorded on its attempt.
  apply_new-records :
      (a : AttemptRow) (db : Db) (result : AttemptEventApplyResult × Db)
      → find_attempt run_id attempt_no db ≡ some a
      → apply_new decide a run_id attempt_no e now db ≡ ok result
      → (result.0.accepted_event_sequence ≡ e.event_sequence)
        × (find_attempt run_id attempt_no result.1 ≡ some (record_event e a))
  unfolding apply_new refuse find_attempt write_event record_event is_attempt
  apply_new-records a db result found h = elim (Result-cases (project_attempt_event a.state e)) [
    | inr (x, err_p) ↦ absurd (ground arith)
    | inl (p, ok_p) ↦
        let db' : Db = write_event run_id attempt_no e db in
        let (done, e', h') =
          >>=-eq-ok (apply_projection decide run_id attempt_no p e now p.run_state db')
            (λ (done : Bool × Db). ok (
              record {
                accepted_event_sequence = e.event_sequence;
                newly_applied = true;
                retry_scheduled = done.0;
              },
              done.1,
            ))
            {w = result} (ground arith) in
        let same = ok-injective {E = StoreError} h' in
        (
          sym (ap (λ (t : AttemptEventApplyResult × Db). t.0.accepted_event_sequence) same),
          ap (find_where (is_attempt run_id attempt_no)) (
                sym (ap (λ (t : AttemptEventApplyResult × Db). t.1.attempts) same)
                ∙ apply_projection-attempts p p.run_state db' done e')
              ∙ find_where-update (is_attempt run_id attempt_no) (record_event e) db.attempts
                  (λ x. refl) found,
        )
  ]

-- A report that was answered, new or old, is answered again with the same sequence number, is not
-- applied a second time and changes nothing, whatever would be decided then.
pub apply_event-again :
    (decide decide' : TerminalDecisionSource → ℤ → Result StoreError TerminalDecision)
    (run_id : Text) (attempt_no : ℕ) (e : AttemptEvent) (now now' : ℤ) (db : Db)
    {result : AttemptEventApplyResult × Db}
    → apply_event decide run_id attempt_no e now db ≡ ok result
    → apply_event decide' run_id attempt_no e now' result.1
      ≡ ok (
        record {
          accepted_event_sequence = result.0.accepted_event_sequence;
          newly_applied = false;
          retry_scheduled = false;
        },
        result.1,
      )
unfolding apply_event record_event
apply_event-again decide decide' run_id attempt_no e now now' db {result} h =
    elim (Option-cases (find_attempt run_id attempt_no db)) [
      | inl none_found ↦ absurd (ground arith)
      | inr (a, found) ↦ elim (Bool-cases (leb e.event_sequence a.last_event_sequence)) [
        | inl old ↦ ground arith
        | inr new ↦
            let (seq, recorded) =
              apply_new-records decide run_id attempt_no e now a db result found (ground arith) in
            ground (arith, seq, recorded)
      ]
    ]
