-- ===== src/Agent/Publication/Recovering.antt =====
-- `recover` and `recover_before_control_plane` of apps/lmt-agent/src/publication.rs.
use lzu_mirror_tools.Prelude.{
  ◌≡◌, ◌≢◌, refl, sym, ap, subst, ◌∙◌, Bool, true, false, ◌&&◌, Option, none, some, inl, inr,
  Bool-cases, arith, if◌then◌else◌,
}
use lzu_mirror_tools.Prelude.Text.{Text, codes}
use lzu_mirror_tools.Core.State.{AttemptState, attempt_state_eq}
use lzu_mirror_tools.Agent.Spool.{
  PublicationPhase, FileIdentity, PublicationState, SpoolRecord, executing, preparing_exchange,
  ready_to_commit, pre_visibility_recovery, visible_pending_durability, committed_pending_report,
  abandoned_fenced, terminal,
}
use lzu_mirror_tools.Agent.Publication.World.{pure, ◌>>=◌, same_identity, identity_eq}
use lzu_mirror_tools.Agent.Publication.Restoration.{Facts, invalid_result, restore_then_terminal}
use lzu_mirror_tools.Agent.Publication.Commit.{
  prepare_or_restore, commit_ready, finish_visible, recover_ready, succeed,
  ensure_committed_terminal, resume_restoration, recover_preparing, recover_phase, recover,
  recover_phase_before, recover_before_control_plane,
}
use lzu_mirror_tools.Agent.Publication.Hoare.{
  Namespace, Pred, Triple, bind, persist-Triple, weaken, look_then, expect_then, record_then,
  state_then,
}
use lzu_mirror_tools.Agent.Publication.Invariant.{
  Fits, ByPhase, Holds, Safe, Level, Hidden, Restorable,
}
use lzu_mirror_tools.Agent.Publication.Restoring.{restore_then_terminal-Triple, some-same}
use lzu_mirror_tools.Agent.Publication.Preparing.{prepare_or_restore-Triple}
use lzu_mirror_tools.Agent.Publication.Visibility.{finish_visible-Triple}
use lzu_mirror_tools.Agent.Publication.Committing.{commit_ready-Triple}

failed_ends : AttemptState.failed ≢ AttemptState.succeeded
failed_ends e = cc

not_seen :
    (a : FileIdentity) (visible : Option FileIdentity)
    → same_identity visible (some a) ≡ false
    → visible ≡ some a
    → ⊥
unfolding same_identity identity_eq
not_seen a visible f e = not_self a (subst (λ x. same_identity x (some a) ≡ false) e f)
  where
    not_self : (b : FileIdentity) → same_identity (some b) (some b) ≡ false → ⊥
    not_self b g = ground (arith, g)

module _ (facts : Facts) (path : Text) (old : Option FileIdentity) (candidate : FileIdentity) where
  abbrev E : Pred
  E = Safe path old candidate

  abbrev Q : {A : Type 0} → A → Pred
  Q _ = Safe path old candidate

  -- An attempt whose synchronisation has succeeded, with its candidate in place.
  abbrev Read : PublicationPhase → PublicationState → Pred
  Read k p n c d =
      Holds path old candidate d n
      × (c ≡ d)
      × (c.publication ≡ some p)
      × Fits path old candidate p
      × (p.phase ≡ k)
      × ByPhase path old candidate k c p (n path)

  read_phase :
      (p : PublicationState) (n : Namespace) (c d : SpoolRecord)
      → Level path old candidate n c d × (c.publication ≡ some p)
      → Read p.phase p n c d
  read_phase p n c d ((h, level), e) =
      let eq : h.state ≡ p =
        some-same h.there (subst (λ (x : SpoolRecord). x.publication ≡ some p) level e) in
      (
        h,
        level,
        e,
        subst (Fits path old candidate) eq h.fits,
        refl,
        subst (λ (x : SpoolRecord). ByPhase path old candidate p.phase x p (n path)) (sym level)
            (subst (λ (x : PublicationState). ByPhase path old candidate x.phase d x (n path)) eq
              h.by_phase),
      )

  preparing-Triple :
      (p : PublicationState)
      → Triple
          (Read preparing_exchange p)
          (prepare_or_restore facts)
          (λ _. Hidden path old candidate)
          E
  preparing-Triple p w (h, level, e, fits, k, (pending, same, hidden)) =
      prepare_or_restore-Triple path old candidate facts w (h, (p, e, fits, pending, same), hidden)

  recover_preparing-Triple :
      (p : PublicationState) → Triple (Read preparing_exchange p) (recover_preparing facts) Q E
  unfolding recover_preparing
  recover_preparing-Triple p =
      bind (Read preparing_exchange p) (prepare_or_restore facts) (λ _. Hidden path old candidate) _
        Q E (preparing-Triple p) decide
    where
      decide :
          (b : Bool)
          → Triple
              (Hidden path old candidate)
              (if b then (commit_ready facts >>= λ _. pure tt) else pure tt)
              Q
              E
      decide true =
          bind (Hidden path old candidate) (commit_ready facts) Q _ Q E
            (commit_ready-Triple path old candidate facts) (λ _ w h. h)
      decide false = λ w h. h.0

  resume_restoration-Triple :
      (p : PublicationState)
      → Triple (Read pre_visibility_recovery p) (resume_restoration facts p) Q E
  unfolding resume_restoration
  resume_restoration-Triple p w (h, level, e, fits, k, (pending, ends, hidden)) =
      weaken (Restorable path old candidate) _ (λ _. Hidden path old candidate) E Q E
        (restore_then_terminal-Triple path old candidate facts _ _ _
          (ending p.pre_visibility_terminal_state ends))
        (λ _ n c d x. x.0) (λ n c d x. x) w (h, (p, e, fits, pending), hidden)
    where
      ending :
          (o : Option AttemptState)
          → ((s : AttemptState) → o ≡ some s → s ≢ AttemptState.succeeded)
          → (elim o [ none ↦ AttemptState.failed | some s ↦ s ]) ≢ AttemptState.succeeded
      ending none f = λ x. cc
      ending (some s) f = f s refl

  finish-Triple :
      (k : PublicationPhase) (p : PublicationState)
      → ((n : Namespace) (c d : SpoolRecord)
          → Read k p n c d
          → p.candidate_identity ≡ some candidate)
      → Triple (Read k p) (finish_visible facts) Q E
  finish-Triple k p known w h =
      finish_visible-Triple path old candidate facts w
        (h.0, h.1, (p, h.2, h.3, known w.namespace w.current w.durable h))

  ensure_committed_terminal-Triple :
      (p : PublicationState)
      → Triple (Read committed_pending_report p) (ensure_committed_terminal facts) Q E
  unfolding ensure_committed_terminal succeed terminal
  ensure_committed_terminal-Triple p =
      record_then (Read committed_pending_report p) Q E (λ n c d h. h.0) _
        (λ r. elim (Bool-cases (attempt_state_eq r.state AttemptState.succeeded)) [
          | inl t ↦ rw t (λ w h. h.0.0)
          | inr f ↦ rw f (
              persist-Triple (λ n c d. Read committed_pending_report p n c d × (r ≡ c))
                (succeed facts r) E E (holds r) (λ n c d h. h.0.0) (holds r))
        ])
    where
      holds :
          (r : SpoolRecord) (n : Namespace) (c d : SpoolRecord)
          → Read committed_pending_report p n c d × (r ≡ c)
          → Holds path old candidate (succeed facts r) n
      holds r n c d ((h, level, e, fits, k, by), same) = record {
        state = p;
        there = ap (λ (x : SpoolRecord). x.publication) same ∙ e;
        fits = fits;
        by_phase =
            subst (λ x. ByPhase path old candidate x (succeed facts r) p (n path)) (sym k) by;
      }

  recover_ready-Triple :
      (p : PublicationState) → Triple (Read ready_to_commit p) (recover_ready facts) Q E
  unfolding recover_ready
  recover_ready-Triple p0 =
      state_then (Read ready_to_commit p0) Q E (λ n c d h. h.0) _
        (λ p.
          expect_then (λ n c d. Read ready_to_commit p0 n c d × (c.publication ≡ some p)) Q E
            (λ n c d h. h.0.0) p.candidate_identity _ _
            (λ a known.
              look_then (λ n c d. Read ready_to_commit p0 n c d × (c.publication ≡ some p)) Q E
                (λ n c d h. h.0.0) p.published_dir _
                (λ visible.
                  look_then
                    (λ n c d.
                      (Read ready_to_commit p0 n c d × (c.publication ≡ some p))
                      × (visible ≡ n p.published_dir))
                    Q E (λ n c d h. h.0.0.0) p.exchange_dir _
                    (λ staged w h.
                      decide p a visible staged known w
                        (again p visible w.namespace w.current w.durable h.0)))))
    where
      Seen : PublicationState → Option FileIdentity → Pred
      Seen p visible n c d = Read ready_to_commit p n c d × (visible ≡ n path)

      again :
          (p : PublicationState) (visible : Option FileIdentity) (n : Namespace) (c d : SpoolRecord)
          → (Read ready_to_commit p0 n c d × (c.publication ≡ some p))
            × (visible ≡ n p.published_dir)
          → Seen p visible n c d
      again p visible n c d ((h, e), seen) =
          let k =
            subst (λ (x : PublicationState). Read ready_to_commit x n c d) (some-same h.2 e) h in
          (k, seen ∙ ap n k.3.published)

      known_here :
          (p : PublicationState) (n : Namespace) (c d : SpoolRecord)
          → Read ready_to_commit p n c d
          → p.candidate_identity ≡ some candidate
      known_here p n c d (h, level, e, fits, k, (pending, same, at)) = pending.known

      hidden_here :
          (p : PublicationState) (a : FileIdentity) (visible : Option FileIdentity)
          → p.candidate_identity ≡ some a
          → same_identity visible (some a) ≡ false
          → (n : Namespace) (c d : SpoolRecord) → Seen p visible n c d
          → n path ≡ old
      hidden_here p a visible known f n c d
            ((h, level, e, fits, k, (pending, same, inl at)), seen) =
          at
      hidden_here p a visible known f n c d
            ((h, level, e, fits, k, (pending, same, inr at)), seen) =
          absurd (not_seen a visible f (seen ∙ at ∙ sym pending.known ∙ known))

      decide :
          (p : PublicationState) (a : FileIdentity) (visible staged : Option FileIdentity)
          → p.candidate_identity ≡ some a
          → Triple
              (Seen p visible)
              (if same_identity visible (some a)
                then finish_visible facts
                else if same_identity staged (some a) && same_identity visible p.published_identity
                then (commit_ready facts >>= λ _. pure tt)
                else restore_then_terminal facts AttemptState.failed invalid_result
                    (codes "ready_to_commit identities are inconsistent"))
              Q
              E
      decide p a visible staged known = elim (Bool-cases (same_identity visible (some a))) [
        | inl t ↦ rw t (λ w h. finish-Triple ready_to_commit p (known_here p) w h.0)
        | inr f ↦
            rw f
              (elim (Bool-cases
                (same_identity staged (some a) && same_identity visible p.published_identity)) [
                  | inl t ↦ rw t (λ w h.
                      bind (Hidden path old candidate) (commit_ready facts) Q _ Q E
                        (commit_ready-Triple path old candidate facts) (λ _ v k. k) w
                        (
                          h.0.0,
                          h.0.1,
                          hidden_here p a visible known f w.namespace w.current w.durable h,
                        ))
                  | inr g ↦ rw g (λ w h.
                      weaken (Restorable path old candidate) _ (λ _. Hidden path old candidate) E Q
                        E
                        (restore_then_terminal-Triple path old candidate facts AttemptState.failed
                          invalid_result _ failed_ends)
                        (λ _ n c d x. x.0) (λ n c d x. x) w
                        (
                          h.0.0,
                          (p, h.0.2, h.0.3, h.0.5.0),
                          hidden_here p a visible known f w.namespace w.current w.durable h,
                        ))
                ])
      ]

  recover_phase-Triple :
      (k : PublicationPhase) (p : PublicationState)
      → Triple (Read k p) (recover_phase facts k p) Q E
  unfolding recover_phase
  recover_phase-Triple executing p = λ w h. h.0
  recover_phase-Triple preparing_exchange p = recover_preparing-Triple p
  recover_phase-Triple ready_to_commit p = recover_ready-Triple p
  recover_phase-Triple pre_visibility_recovery p = resume_restoration-Triple p
  recover_phase-Triple visible_pending_durability p =
      finish-Triple visible_pending_durability p (λ n c d h. h.5.0)
  recover_phase-Triple committed_pending_report p = ensure_committed_terminal-Triple p
  recover_phase-Triple abandoned_fenced p = λ w h. h.0

  pub recover-Triple : Triple (Level path old candidate) (recover facts) Q E
  unfolding recover
  recover-Triple =
      state_then (Level path old candidate) Q E (λ n c d h. h.0) _
        (λ p w h. recover_phase-Triple p.phase p w (read_phase p w.namespace w.current w.durable h))

  recover_phase_before-Triple :
      (k : PublicationPhase) (p : PublicationState)
      → Triple (Read k p) (recover_phase_before facts k p) Q E
  unfolding recover_phase_before
  recover_phase_before-Triple executing p = λ w h. h.0
  recover_phase_before-Triple preparing_exchange p =
      bind (Read preparing_exchange p) (prepare_or_restore facts) (λ _. Hidden path old candidate) _
        Q E (preparing-Triple p) (λ _ w h. h.0)
  recover_phase_before-Triple ready_to_commit p = λ w h. h.0
  recover_phase_before-Triple pre_visibility_recovery p = resume_restoration-Triple p
  recover_phase_before-Triple visible_pending_durability p =
      finish-Triple visible_pending_durability p (λ n c d h. h.5.0)
  recover_phase_before-Triple committed_pending_report p = ensure_committed_terminal-Triple p
  recover_phase_before-Triple abandoned_fenced p = λ w h. h.0

  pub recover_before_control_plane-Triple :
      Triple (Level path old candidate) (recover_before_control_plane facts) Q E
  unfolding recover_before_control_plane
  recover_before_control_plane-Triple =
      state_then (Level path old candidate) Q E (λ n c d h. h.0) _
        (λ p w h.
          recover_phase_before-Triple p.phase p w (read_phase p w.namespace w.current w.durable h))
  -- What follows on a synchronisation: a commit that ends or stops anywhere, and then restarts with
