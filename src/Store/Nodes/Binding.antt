-- ===== src/Store/Nodes/Binding.antt =====
-- Which Agent a node accepts (crates/lmt-store/src/lib.rs).
use lzu_mirror_tools.Prelude.{
  ◌≡◌, ◌≢◌, ◌⊎◌, ◌↔◌, ◌≤◌, ltb, refl, sym, ap, ◌∙◌, Bool, true, false, not, some, ok, err, inl, inr,
  Bool-cases, Option-cases, arith, ◌&&◌, Memᴰ,
}
use lzu_mirror_tools.Prelude.Text.{Text, text_eq, text_eq→eq, text_eq_refl}
use lzu_mirror_tools.Prelude.Tables.Membership.{Mem-join}
use lzu_mirror_tools.Core.State.{RunState, AttemptState, is_terminal}
use lzu_mirror_tools.Prelude.Tables.{exists_where}
use lzu_mirror_tools.Prelude.Tables.Select.{
  find_where-update, exists_where-Mem, exists_where-cases, join-Mem,
}
use lzu_mirror_tools.Store.Rows.{
  NodeRow, RunRow, AttemptRow, Db, is_active, agent_binding_conflict, binding_replacement_unsafe,
}
use lzu_mirror_tools.Store.Queries.{attempts_with_runs}
use lzu_mirror_tools.Store.Nodes.{
  NodeObservation, is_node, find_node, update_node, conflicts, observed, observe_node, may_execute,
  rebound, replace_agent_binding,
}

-- The node after an UPDATE that keeps its name.
find_node-update :
    (node : Text) (f : NodeRow → NodeRow) (db : Db) {n : NodeRow}
    → ((x : NodeRow) → (f x).name ≡ x.name)
    → find_node node db ≡ some n
    → find_node node (update_node node f db) ≡ some (f n)
unfolding find_node update_node is_node
find_node-update node f db named h =
    find_where-update (λ (x : NodeRow). text_eq x.name node) f db.nodes
      (λ x. ap (λ n. text_eq n node) (named x)) h

-- A node that is bound to an Agent refuses any other.
observe_node-bound :
    (o : NodeObservation) (db : Db) (bound : Text) {n : NodeRow}
    → find_node o.node db ≡ some n
    → n.bound_agent_id ≡ some bound
    → bound ≢ o.agent_instance_id
    → observe_node o db ≡ err (agent_binding_conflict bound o.agent_instance_id)
unfolding observe_node
observe_node-bound o db bound {n} found e other =
    elim (Bool-cases (text_eq bound o.agent_instance_id)) [
      | inl t ↦ absurd (other (text_eq→eq bound o.agent_instance_id t))
      | inr f ↦ ground (arith, found, e, f)
    ]

-- What an accepted observation found and left.
pub observe_node-ok :
    (o : NodeObservation) (db db' : Db)
    → observe_node o db ≡ ok (tt, db')
    → (n : NodeRow) × (find_node o.node db ≡ some n)
      × (conflicts n.bound_agent_id o.agent_instance_id ≡ false)
      × (update_node o.node (observed o) db ≡ db')
unfolding observe_node
observe_node-ok o db db' h = elim (Option-cases (find_node o.node db)) [
  | inl e ↦ absurd (ground (arith, e))
  | inr (n, e) ↦ elim (Bool-cases (conflicts n.bound_agent_id o.agent_instance_id)) [
    | inl t ↦ absurd (ground (arith, e, t))
    | inr f ↦ (n, e, f, ground (arith, e, f))
  ]
]

observed-name : (o : NodeObservation) (n : NodeRow) → (observed o n).name ≡ n.name
unfolding observed
observed-name o n = refl

-- A node that accepts an Agent is bound to it.
observed-bound :
    (o : NodeObservation) (n : NodeRow)
    → conflicts n.bound_agent_id o.agent_instance_id ≡ false
    → (observed o n).bound_agent_id ≡ some o.agent_instance_id
unfolding conflicts observed
observed-bound o n h = elim (Option-cases n.bound_agent_id) [
  | inl e ↦ rw e refl
  | inr (bound, e) ↦ rw e (ap some (text_eq→eq bound o.agent_instance_id (ground (arith, e))))
]

-- An Agent that was accepted has the node: after it, any other Agent of the node is refused, with
-- both named, and no run or attempt has changed.
pub observe_node-binds :
    (o o' : NodeObservation) (db db' : Db)
    → observe_node o db ≡ ok (tt, db')
    → o'.node ≡ o.node
    → o'.agent_instance_id ≢ o.agent_instance_id
    → (observe_node o' db' ≡ err (agent_binding_conflict o.agent_instance_id o'.agent_instance_id))
      × (db'.runs ≡ db.runs)
      × (db'.attempts ≡ db.attempts)
unfolding update_node
observe_node-binds o o' db db' h same other =
    let (n, found, free, left) = observe_node-ok o db db' h in
    (
      observe_node-bound o' db' o.agent_instance_id
          (ap (λ node. find_node node db') same
            ∙ ap (find_node o.node) (sym left)
            ∙ find_node-update o.node (observed o) db (λ x. observed-name o x) found)
          (observed-bound o n free) (λ e. other (sym e)),
      ap (λ (d : Db). d.runs) (sym left),
      ap (λ (d : Db). d.attempts) (sym left),
    )

-- What a replacement found and left.
pub replace_agent_binding-ok :
    (node agent_id : Text) (risk : Bool) (db db' : Db)
    → replace_agent_binding node agent_id risk db ≡ ok (tt, db')
    → (n : NodeRow) × (find_node node db ≡ some n) × (update_node node (rebound agent_id) db ≡ db')
unfolding replace_agent_binding
replace_agent_binding-ok node agent_id risk db db' h = elim (Option-cases (find_node node db)) [
  | inl e ↦ absurd (ground (arith, e))
  | inr (n, e) ↦
      elim (Bool-cases (exists_where (may_execute node) (attempts_with_runs db) && not risk)) [
        | inl t ↦ absurd (ground (arith, e, t))
        | inr f ↦ (n, e, ground (arith, e, f))
      ]
]

-- After a replacement the node is the new Agent's: an observation by any other Agent is refused,
-- with both named, and no run or attempt has changed.
pub replace_agent_binding-binds :
    (node agent_id : Text) (risk : Bool) (o : NodeObservation) (db db' : Db)
    → replace_agent_binding node agent_id risk db ≡ ok (tt, db')
    → o.node ≡ node
    → o.agent_instance_id ≢ agent_id
    → (observe_node o db' ≡ err (agent_binding_conflict agent_id o.agent_instance_id))
      × (db'.runs ≡ db.runs)
      × (db'.attempts ≡ db.attempts)
unfolding update_node rebound
replace_agent_binding-binds node agent_id risk o db db' h same other =
    let (n, found, left) = replace_agent_binding-ok node agent_id risk db db' h in
    (
      observe_node-bound o db' agent_id
          (ap (λ name. find_node name db') same
            ∙ ap (find_node node) (sym left)
            ∙ find_node-update node (rebound agent_id) db (λ x. refl) found)
          refl (λ e. other (sym e)),
      ap (λ (d : Db). d.runs) (sym left),
      ap (λ (d : Db). d.attempts) (sym left),
    )

-- An attempt of an active run of the node that was handed out and is not at its end.
pub record Executing (node : Text) (db : Db) : Type 0 where
  pub attempt : AttemptRow
  pub run : RunRow
  pub attempt_there : Memᴰ attempt db.attempts
  pub run_there : Memᴰ run db.runs
  pub of_run : run.id ≡ attempt.run_id
  pub of_node : run.owner_node ≡ node
  pub active : (run.state ≡ RunState.pending) ⊎ (run.state ≡ RunState.running)
  pub handed_out : 1 ≤ attempt.dispatch_count
  pub unfinished :
      (attempt.state ≡ AttemptState.queued)
      ⊎ (attempt.state ≡ AttemptState.accepted)
      ⊎ (attempt.state ≡ AttemptState.running)

active_states :
    (s : RunState) → is_active s ≡ true → (s ≡ RunState.pending) ⊎ (s ≡ RunState.running)
unfolding is_active
active_states RunState.pending h = inl refl
active_states RunState.running h = inr refl
active_states RunState.succeeded h = cc
active_states RunState.failed h = cc
active_states RunState.cancelled h = cc
active_states RunState.timed_out h = cc

unfinished_states :
    (s : AttemptState)
    → is_terminal s ≡ false
    → (s ≡ AttemptState.queued) ⊎ (s ≡ AttemptState.accepted) ⊎ (s ≡ AttemptState.running)
unfolding is_terminal
unfinished_states AttemptState.queued h = inl refl
unfinished_states AttemptState.accepted h = inr (inl refl)
unfinished_states AttemptState.running h = inr (inr refl)
unfinished_states AttemptState.succeeded h = cc
unfinished_states AttemptState.failed h = cc
unfinished_states AttemptState.timed_out h = cc
unfinished_states AttemptState.cancelled h = cc
unfinished_states AttemptState.interrupted h = cc
unfinished_states AttemptState.rejected h = cc

may_execute-Executing :
    (node : Text) (db : Db)
    → exists_where (may_execute node) (attempts_with_runs db) ≡ true
    → Executing node db
unfolding attempts_with_runs may_execute
may_execute-Executing node db h =
    let ((a, r), m, t) = exists_where-cases (may_execute node) (attempts_with_runs db) h in
    let (there, here, on) =
      join-Mem (λ (a : AttemptRow) (r : RunRow). text_eq r.id a.run_id) db.attempts db.runs m in
    record {
      attempt = a;
      run = r;
      attempt_there = there;
      run_there = here;
      of_run = text_eq→eq r.id a.run_id on;
      of_node = text_eq→eq r.owner_node node (ground (arith, t));
      active = active_states r.state (ground (arith, t));
      handed_out = ground (arith, t);
      unfinished = unfinished_states a.state (ground (arith, t));
    }

Executing-may_execute :
    (node : Text) (db : Db)
    → Executing node db
    → exists_where (may_execute node) (attempts_with_runs db) ≡ true
unfolding attempts_with_runs may_execute is_active is_terminal
Executing-may_execute node db x =
    exists_where-Mem (may_execute node) (attempts_with_runs db)
      (Mem-join (λ (a : AttemptRow) (r : RunRow). text_eq r.id a.run_id) db.attempts db.runs
        x.attempt_there x.run_there (rw x.of_run (text_eq_refl x.attempt.run_id)))
      (may x.active x.unfinished)
  where
    owner : text_eq x.run.owner_node node ≡ true
    owner = rw x.of_node (text_eq_refl node)

    given : ltb 0 x.attempt.dispatch_count ≡ true
    given = let l = x.handed_out in ground (arith, l)

    may :
        (x.run.state ≡ RunState.pending) ⊎ (x.run.state ≡ RunState.running)
        → (x.attempt.state ≡ AttemptState.queued)
          ⊎ (x.attempt.state ≡ AttemptState.accepted)
          ⊎ (x.attempt.state ≡ AttemptState.running)
        → may_execute node (x.attempt, x.run) ≡ true
    may (inl a) (inl b) = rw (owner, given, a, b) refl
    may (inl a) (inr (inl b)) = rw (owner, given, a, b) refl
    may (inl a) (inr (inr b)) = rw (owner, given, a, b) refl
    may (inr a) (inl b) = rw (owner, given, a, b) refl
    may (inr a) (inr (inl b)) = rw (owner, given, a, b) refl
    may (inr a) (inr (inr b)) = rw (owner, given, a, b) refl

-- Without the risk acknowledged, the binding of a node that exists is refused to be replaced exactly
-- if an attempt of an active run of the node was handed out and is queued, accepted or running.
pub replace_agent_binding-unsafe :
    (node agent_id : Text) (db : Db) {n : NodeRow}
    → find_node node db ≡ some n
    → (replace_agent_binding node agent_id false db ≡ err binding_replacement_unsafe)
      ↔ Executing node db
unfolding replace_agent_binding
replace_agent_binding-unsafe node agent_id db found = (
  λ h. elim (Bool-cases (exists_where (may_execute node) (attempts_with_runs db))) [
    | inl t ↦ may_execute-Executing node db t
    | inr f ↦ absurd (ground (arith, found, f, h))
  ],
  λ x. ground (arith, found, Executing-may_execute node db x),
)
