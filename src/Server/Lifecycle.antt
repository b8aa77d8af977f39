-- ===== src/Server/Lifecycle.antt =====
-- The control plane as a state machine: whatever transactions the Agents' polls and reports, the
-- operator, the configuration and the clock cause, in any order.
use lzu_mirror_tools.Prelude.{sym, ap, Bool, ℕ, ◌≡◌, subst, true, Option, Result, ok, Memᴰ, arith}
use lzu_mirror_tools.Prelude.Int.{ℤ}
use lzu_mirror_tools.Prelude.Text.{Text, text_eq_comm, text_eq_refl}
use lzu_mirror_tools.Prelude.Tables.Distinct.{Distinct-unique}
use lzu_mirror_tools.Prelude.Tables.Evolution.{Evolves-Mem}
use lzu_mirror_tools.Core.Config.{MirrorDocument, CanonicalBundle}
use lzu_mirror_tools.Core.State.{AttemptEvent, is_terminal, run_is_terminal}
use lzu_mirror_tools.Core.State.Order.{Advances-terminal}
use lzu_mirror_tools.Core.Schedule.{Calendar}
use lzu_mirror_tools.Store.Rows.{Db, RunRow, AttemptRow, StoreError, is_active}
use lzu_mirror_tools.Store.Queries.{RunRecord}
use lzu_mirror_tools.Store.Poll.{PollAction, DispatchSource, CompiledDispatch, poll_action}
use lzu_mirror_tools.Store.Poll.Soundness.{poll_action-Sound}
use lzu_mirror_tools.Store.ManualRun.Soundness.{create_manual_run-Sound}
use lzu_mirror_tools.Store.Cancellation.{CancellationApplyResult}
use lzu_mirror_tools.Store.Cancellation.Soundness.{request_cancellation-Sound}
use lzu_mirror_tools.Store.Events.{AttemptEventApplyResult}
use lzu_mirror_tools.Store.Events.Soundness.{apply_event-Sound}
use lzu_mirror_tools.Store.Ticks.Soundness.{evaluate_due_schedules-Sound}
use lzu_mirror_tools.Store.Logs.{update_log_metadata, mark_log_expired}
use lzu_mirror_tools.Store.Nodes.{NodeObservation, observe_node, replace_agent_binding, update_node}
use lzu_mirror_tools.Store.Nodes.Binding.{observe_node-ok, replace_agent_binding-ok}
use lzu_mirror_tools.Store.Revisions.{ConfigPlan, ConfigLibrary}
use lzu_mirror_tools.Store.Revisions.Apply.{apply}
use lzu_mirror_tools.Store.Revisions.Soundness.{apply-Sound}
use lzu_mirror_tools.Store.Restore.{normalize_restored_database}
use lzu_mirror_tools.Store.Restore.Soundness.{normalize_restored_database-Sound}
use lzu_mirror_tools.Store.Invariant.{IsValid, Sound, RunStep, AttemptStep, both_occupy}
use lzu_mirror_tools.Store.Invariant.Statements.{Sound-refl, Sound-trans}
use lzu_mirror_tools.Server.Services.{
  create_manual_run, request_cancellation, apply_attempt_event, evaluate_schedules, compile_policy,
  rearm_config, decide_terminal, evaluate_tick, decide_terminal-Finishes,
}

-- A transaction that leaves the runs and the attempts.
same_rows-Sound :
    (db db' : Db)
    → IsValid db.runs db.attempts
    → db'.runs ≡ db.runs
    → db'.attempts ≡ db.attempts
    → Sound db db'
same_rows-Sound db db' v runs attempts =
    let s = Sound-refl db v in
    record {
      valid = rw (runs, attempts) v;
      runs = rw runs s.runs;
      attempts = rw attempts s.attempts;
    }

module _ (calendar : Calendar) (parse : Text → Result Text MirrorDocument)
    (debug : Text → Text) where
  -- One committed transaction; the identifiers, the times and the compiler of specifications are
  -- whatever they are. A transaction that fails is rolled back and is no step.
  pub data Step (db : Db) : Db → Type 0 where
    manual :
        (run_id mirror request : Text) (now : ℤ) (r : RunRecord) {db' : Db}
        → create_manual_run calendar parse debug run_id mirror request now db ≡ ok (r, db')
        → Step db db'
    poll :
        (compile : DispatchSource → Result StoreError (Option CompiledDispatch))
        (run_id node : Text) (now : ℤ) (action : Option PollAction) {db' : Db}
        → poll_action compile run_id node now db ≡ ok (action, db')
        → Step db db'
    cancel :
        (run_id : Text) (now : ℤ) (r : CancellationApplyResult) {db' : Db}
        → request_cancellation calendar parse debug run_id now db ≡ ok (r, db')
        → Step db db'
    report :
        (run_id : Text) (attempt_no : ℕ) (event : AttemptEvent) (now : ℤ)
        (r : AttemptEventApplyResult) {db' : Db}
        → apply_attempt_event calendar parse debug run_id attempt_no event now db ≡ ok (r, db')
        → Step db db'
    tick :
        (now : ℤ) (count : ℕ) {db' : Db}
        → evaluate_schedules calendar parse debug now db ≡ ok (count, db')
        → Step db db'
    observe : (o : NodeObservation) {db' : Db} → observe_node o db ≡ ok (tt, db') → Step db db'
    rebind :
        (node agent_id : Text) (acknowledge_execution_risk : Bool) {db' : Db}
        → replace_agent_binding node agent_id acknowledge_execution_risk db ≡ ok (tt, db')
        → Step db db'
    log :
        (run_id : Text) (attempt_no : ℕ) (path : Text) (stored : ℕ) (complete : Bool) (now : ℤ)
        {db' : Db}
        → update_log_metadata run_id attempt_no path stored complete now db ≡ ok db'
        → Step db db'
    expire :
        (run_id : Text) (attempt_no : ℕ) (now : ℤ) (expired : Bool) {db' : Db}
        → mark_log_expired run_id attempt_no now db ≡ (expired, db')
        → Step db db'
    configure :
        (library : ConfigLibrary) (bundle : CanonicalBundle) (base_revision : ℕ) (actor : Text)
        (now : ℤ) (plan : ConfigPlan) {db' : Db}
        → apply library bundle base_revision actor now db ≡ ok (plan, db')
        → Step db db'
    restore : (at : ℤ) {db' : Db} → normalize_restored_database at db ≡ db' → Step db db'

  pub data Reach (db : Db) : Db → Type 0 where
    here : Reach db db
    next : {mid db' : Db} → Reach db mid → Step mid db' → Reach db db'

  Step-Sound : {db db' : Db} → IsValid db.runs db.attempts → Step db db' → Sound db db'
  unfolding create_manual_run request_cancellation apply_attempt_event evaluate_schedules
      update_node update_log_metadata mark_log_expired
  Step-Sound {db} v (manual run_id mirror request now r h) =
      create_manual_run-Sound (compile_policy calendar parse debug) run_id mirror request now db v h
  Step-Sound {db} v (poll compile run_id node now action h) =
      poll_action-Sound compile run_id node now db v h
  Step-Sound {db} v (cancel run_id now r h) =
      request_cancellation-Sound (rearm_config calendar parse debug now) run_id now db v h
  Step-Sound {db} v (report run_id attempt_no event now r h) =
      apply_event-Sound (decide_terminal calendar parse debug)
        (decide_terminal-Finishes calendar parse debug) run_id attempt_no event now db v h
  Step-Sound {db} v (tick now count h) =
      evaluate_due_schedules-Sound (evaluate_tick calendar parse debug now) now db v h
  Step-Sound {db} {db'} v (observe o h) =
      let (n, found, free, left) = observe_node-ok o db db' h in
      same_rows-Sound db db' v (ap (λ (d : Db). d.runs) (sym left))
        (ap (λ (d : Db). d.attempts) (sym left))
  Step-Sound {db} {db'} v (rebind node agent_id risk h) =
      let (n, found, left) = replace_agent_binding-ok node agent_id risk db db' h in
      same_rows-Sound db db' v (ap (λ (d : Db). d.runs) (sym left))
        (ap (λ (d : Db). d.attempts) (sym left))
  Step-Sound {db} {db'} v (log run_id attempt_no path stored complete now h) =
      same_rows-Sound db db' v (ground (arith, h)) (ground (arith, h))
  Step-Sound {db} {db'} v (expire run_id attempt_no now expired h) =
      same_rows-Sound db db' v (sym (ap (λ (r : Bool × Db). r.1.runs) h))
        (sym (ap (λ (r : Bool × Db). r.1.attempts) h))
  Step-Sound {db} v (configure library bundle base_revision actor now plan h) =
      apply-Sound library bundle base_revision actor now db v h
  Step-Sound {db} v (restore at h) = subst (Sound db) h (normalize_restored_database-Sound at db v)

  -- Any sequence of transactions keeps a valid database valid and evolves its rows.
  pub Reach-Sound : {db db' : Db} → IsValid db.runs db.attempts → Reach db db' → Sound db db'
  Reach-Sound {db} v here = Sound-refl db v
  Reach-Sound {db} {db'} v (next {mid} r s) =
      let before = Reach-Sound v r in Sound-trans db mid db' before (Step-Sound before.valid s)

  -- From a valid database on, a run that has come to an end stays as it is, column for column.
  pub Reach-terminal_run :
      {db db' : Db} {r : RunRow}
      → IsValid db.runs db.attempts
      → Reach db db'
      → Memᴰ r db.runs
      → run_is_terminal r.state ≡ true
      → Memᴰ r db'.runs
  Reach-terminal_run {db} {db'} v reach m ended =
      let (r', m', s) = Evolves-Mem RunStep db.runs db'.runs (Reach-Sound v reach).runs m in
      subst (λ x. Memᴰ x db'.runs) (s.frozen ended) m'

  -- From a valid database on, an attempt that has come to an end stays in that state, and stays what
  -- was dispatched.
  pub Reach-terminal_attempt :
      {db db' : Db} {a : AttemptRow}
      → IsValid db.runs db.attempts
      → Reach db db'
      → Memᴰ a db.attempts
      → is_terminal a.state ≡ true
      → (a' : AttemptRow) × Memᴰ a' db'.attempts
        × (a'.run_id ≡ a.run_id)
        × (a'.attempt_no ≡ a.attempt_no)
        × (a'.spec ≡ a.spec)
        × (a'.state ≡ a.state)
  Reach-terminal_attempt {db} {db'} {a} v reach m ended =
      let (a', m', s) =
        Evolves-Mem AttemptStep db.attempts db'.attempts (Reach-Sound v reach).attempts m in
      (
        a',
        m',
        s.same_run,
        s.same_number,
        s.same_spec,
        Advances-terminal a.state a'.state ended s.advances,
      )

  -- In a database that transactions reach from a valid one, no two runs of a mirror overlap: two
  -- active runs of one mirror are the same run.
  pub Reach-one_active :
      {db db' : Db} {r s : RunRow}
      → IsValid db.runs db.attempts
      → Reach db db'
      → Memᴰ r db'.runs
      → Memᴰ s db'.runs
      → is_active r.state ≡ true
      → is_active s.state ≡ true
      → r.mirror_name ≡ s.mirror_name
      → r ≡ s
  Reach-one_active {db} {db'} {r} {s} v reach m n a b same =
      Distinct-unique both_occupy db'.runs flip (Reach-Sound v reach).valid.mirrors_free m n
        (rw (a, b, same) (ground (arith, text_eq_refl s.mirror_name)))
    where
      flip : (x y : RunRow) → both_occupy x y ≡ both_occupy y x
      flip x y = ground (arith, text_eq_comm x.mirror_name y.mirror_name)
