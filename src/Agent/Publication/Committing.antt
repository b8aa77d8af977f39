-- ===== src/Agent/Publication/Committing.antt =====
-- `commit_ready` of apps/lmt-agent/src/publication.rs: the published path changes in one rename, and only
-- where the candidate is in the exchange slot.
use lzu_mirror_tools.Prelude.{
  ◌≡◌, ◌≢◌, sym, ap, subst, ◌∙◌, true, false, Option, none, some, inl, inr, Result, ok, err,
  Bool-cases, if◌then◌else◌, is_some,
}
use lzu_mirror_tools.Prelude.Text.{Text, codes}
use lzu_mirror_tools.Core.State.{AttemptState, FailureKind}
use lzu_mirror_tools.Agent.Spool.{
  PublicationPhase, FileIdentity, PublicationState, SpoolRecord, is_ready, executing,
  preparing_exchange, ready_to_commit, pre_visibility_recovery, visible_pending_durability,
  committed_pending_report, abandoned_fenced,
}
use lzu_mirror_tools.Agent.Publication.World.{
  pure, caught, ◌>>=◌, ensure, same_identity, identity_if_exists, put,
}
use lzu_mirror_tools.Agent.Publication.Restoration.{
  Facts, published, invalid_result, restore_then_terminal,
}
use lzu_mirror_tools.Agent.Publication.Commit.{
  verify_stable, verify_rotation, verify_ready, finish_visible, make_visible, abort,
  commit_verified, commit_ready,
}
use lzu_mirror_tools.Agent.Publication.Hoare.{
  Namespace, Pred, Triple, bind, ensure-Triple, rename_noreplace-Triple, exchange_paths-Triple,
  weaken, look_then, ensure_then, expect_then, record_then, state_then, caught-Triple,
}
use lzu_mirror_tools.Agent.Publication.Invariant.{
  Fits, Pending, ByPhase, Holds, Safe, Hidden, Restorable,
}
use lzu_mirror_tools.Agent.Publication.Restoring.{
  Restoring, restore_then_terminal-Triple, some-same,
}
use lzu_mirror_tools.Agent.Publication.Visibility.{
  Known, finish_visible-Triple, same_identity_sound, put_at,
}

module _ (path : Text) (old : Option FileIdentity) (candidate : FileIdentity) where
  abbrev E : Pred
  E = Safe path old candidate

  -- What a record that is ready to commit has.
  abbrev IsReady : SpoolRecord → PublicationState → Type 0
  IsReady r p = Pending path old candidate r p × (p.published_identity ≡ old)

  at-IsReady :
      (k : PublicationPhase) (r : SpoolRecord) (p : PublicationState) (now : Option FileIdentity)
      → is_ready k ≡ true
      → ByPhase path old candidate k r p now
      → IsReady r p
  unfolding is_ready
  at-IsReady ready_to_commit r p now t (pending, same, at) = (pending, same)
  at-IsReady executing r p now t b = cc
  at-IsReady preparing_exchange r p now t b = cc
  at-IsReady pre_visibility_recovery r p now t b = cc
  at-IsReady visible_pending_durability r p now t b = cc
  at-IsReady committed_pending_report r p now t b = cc
  at-IsReady abandoned_fenced r p now t b = cc

  -- A ready record, in memory as on disk, while the published path is as before.
  abbrev Ready : PublicationState → Pred
  Ready p n c d =
      Restoring path old candidate p n c d
      × (c ≡ d)
      × (is_ready p.phase ≡ true)
      × (p.published_identity ≡ old)

  -- And the candidate is in the exchange slot.
  abbrev Staged : PublicationState → Pred
  Staged p n c d = Ready p n c d × (n p.exchange_dir ≡ some candidate)

  hidden-Ready :
      (p : PublicationState) (n : Namespace) (c d : SpoolRecord)
      → Hidden path old candidate n c d
      → c.publication ≡ some p
      → is_ready p.phase ≡ true
      → Ready p n c d
  hidden-Ready p n c d (h, level, hidden) e t =
      let eq : h.state ≡ p =
        some-same h.there (subst (λ (x : SpoolRecord). x.publication ≡ some p) level e) in
      let (pending, same) = at-IsReady p.phase d p (n path) t (
        subst (λ (x : PublicationState). ByPhase path old candidate x.phase d x (n path)) eq
          h.by_phase) in
      (
        (
          h,
          e,
          subst (Fits path old candidate) eq h.fits,
          subst (λ (x : SpoolRecord). Pending path old candidate x p) (sym level) pending,
          hidden,
        ),
        level,
        t,
        same,
      )

  staged-Triple :
      (p : PublicationState) (stable : Option FileIdentity)
      → Triple (Staged p) (verify_stable p stable) (λ _. Staged p) (Ready p)
  unfolding verify_stable
  staged-Triple p none = λ w h. h
  staged-Triple p (some previous) =
      expect_then (Staged p) (λ _. Staged p) (Ready p) (λ n c d h. h.0) p.rotated_previous_path _ _
        (λ rotated r.
          look_then (Staged p) (λ _. Staged p) (Ready p) (λ n c d h. h.0) rotated _
            (λ there w h.
              weaken (Staged p)
                (ensure (same_identity there (some previous))
                  (codes "stable previous identity is not at its protected rotation path"))
                (λ _ n c d. Staged p n c d × (same_identity there (some previous) ≡ true))
                (Staged p) (λ _. Staged p) (Ready p) (ensure-Triple (Staged p) _ _)
                (λ _ n c d k. k.0) (λ n c d k. k.0) w h.0))

  verify_ready-Triple :
      (p : PublicationState) → Triple (Ready p) (verify_ready p) (λ _. Staged p) (Ready p)
  unfolding verify_ready verify_rotation
  verify_ready-Triple p =
      expect_then (Ready p) (λ _. Staged p) (Ready p) (λ n c d h. h) p.candidate_identity _ _
        (λ a known.
          look_then (Ready p) (λ _. Staged p) (Ready p) (λ n c d h. h) p.exchange_dir _
            (λ staged.
              ensure_then (λ n c d. Ready p n c d × (staged ≡ n p.exchange_dir)) (λ _. Staged p)
                (Ready p) (λ n c d h. h.0) (same_identity staged (some a)) _ _
                (λ t w h. rest w (in_slot a staged known t w.namespace w.current w.durable h))))
    where
      in_slot :
          (a : FileIdentity) (staged : Option FileIdentity)
          → p.candidate_identity ≡ some a
          → same_identity staged (some a) ≡ true
          → (n : Namespace) (c d : SpoolRecord) → Ready p n c d × (staged ≡ n p.exchange_dir)
          → Staged p n c d
      in_slot a staged known t n c d (h, found) =
          (h, sym found ∙ same_identity_sound staged (some a) t ∙ sym known ∙ h.0.3.known)

      rest :
          Triple
            (Staged p)
            (identity_if_exists p.published_dir >>= λ visible.
              ensure
                (same_identity visible p.published_identity)
                (codes "published identity changed outside LMT")
              >>= λ _. verify_stable p p.stable_previous_identity)
            (λ _. Staged p)
            (Ready p)
      rest =
          look_then (Staged p) (λ _. Staged p) (Ready p) (λ n c d h. h.0) p.published_dir _
            (λ visible w h.
              ensure_then (Staged p) (λ _. Staged p) (Ready p) (λ n c d h. h.0)
                (same_identity visible p.published_identity) _ _
                (λ t. staged-Triple p p.stable_previous_identity) w h.0)

  -- A ready record holds once the candidate is visible.
  visible-Holds :
      (p : PublicationState) (n n' : Namespace) (c d : SpoolRecord)
      → Ready p n c d
      → n' path ≡ some candidate
      → Holds path old candidate d n'
  unfolding is_ready
  visible-Holds p n n' c d ((h, there, fits, pending, hidden), level, t, same) e = record {
    state = p;
    there = subst (λ (x : SpoolRecord). x.publication ≡ some p) level there;
    fits = fits;
    by_phase = phased p.phase t;
  }
    where
      pending' : Pending path old candidate d p
      pending' = subst (λ (x : SpoolRecord). Pending path old candidate x p) level pending

      never : false ≡ true → ⊥
      never u = cc

      phased :
          (k : PublicationPhase) → is_ready k ≡ true → ByPhase path old candidate k d p (n' path)
      phased ready_to_commit u = (pending', same, inr e)
      phased executing u = absurd (never u)
      phased preparing_exchange u = absurd (never u)
      phased pre_visibility_recovery u = absurd (never u)
      phased visible_pending_durability u = absurd (never u)
      phased committed_pending_report u = absurd (never u)
      phased abandoned_fenced u = absurd (never u)

  moved-Known :
      (p : PublicationState) (n n' : Namespace) (c d : SpoolRecord)
      → Ready p n c d
      → n' path ≡ some candidate
      → Known path old candidate n' c d × Holds path old candidate d n'
  moved-Known p n n' c d h e =
      let seen = visible-Holds p n n' c d h e in ((seen, h.1, (p, h.0.1, h.0.2, h.0.3.known)), seen)

  at_published :
      (p : PublicationState) (a : FileIdentity) (rest n : Namespace) (c d : SpoolRecord)
      → Staged p n c d
      → n p.exchange_dir ≡ some a
      → put p.published_dir (some a) rest path ≡ some candidate
  at_published p a rest n c d (h, slot) e =
      ap (put p.published_dir (some a) rest) (sym h.0.2.published)
      ∙ put_at p.published_dir (some a) rest
      ∙ sym e
      ∙ slot

  make_visible-Triple :
      (p : PublicationState) → Triple (Staged p) (make_visible p) (λ _. Known path old candidate) E
  unfolding make_visible
  make_visible-Triple p = elim (Bool-cases (is_some p.published_identity)) [
    | inl t ↦ rw t (
        exchange_paths-Triple (Staged p) p.exchange_dir p.published_dir (Known path old candidate) E
          (λ n c d h. h.0.0.0)
          (λ n c d a b h e.
            moved-Known p n (put p.published_dir (some a) (put p.exchange_dir (some b) n)) c d h.0
              (at_published p a (put p.exchange_dir (some b) n) n c d h e)))
    | inr f ↦ rw f (
        rename_noreplace-Triple (Staged p) p.exchange_dir p.published_dir (Known path old candidate)
          E (λ n c d h. h.0.0.0)
          (λ n c d a h e.
            moved-Known p n (put p.published_dir (some a) (put p.exchange_dir none n)) c d h.0
              (at_published p a (put p.exchange_dir none n) n c d h e)))
  ]

  abort-Triple :
      (facts : Facts) (p : PublicationState) (state : AttemptState) (kind : Option FailureKind)
      (message : Text)
      → state ≢ AttemptState.succeeded
      → Triple (Ready p) (abort facts state kind message) (λ _. E) E
  unfolding abort
  abort-Triple facts p state kind message ends w h =
      bind (Restorable path old candidate) (restore_then_terminal facts state kind message)
        (λ _. Hidden path old candidate) _ (λ _. E) E
        (restore_then_terminal-Triple path old candidate facts state kind message ends)
        (λ _ v k. k.0) w (h.0.0, (p, h.0.1, h.0.2, h.0.3), h.0.4)

  failed_ends : AttemptState.failed ≢ AttemptState.succeeded
  failed_ends e = cc

  cancelled_ends : AttemptState.cancelled ≢ AttemptState.succeeded
  cancelled_ends e = cc

  commit_verified-Triple :
      (facts : Facts) (p : PublicationState) → Triple (Ready p) (commit_verified facts p) (λ _. E) E
  unfolding commit_verified
  commit_verified-Triple facts p =
      bind (Ready p) (caught (verify_ready p)) (λ r. elim r [ ok a ↦ Staged p | err e ↦ Ready p ]) _
        (λ _. E) E
        (caught-Triple (Ready p) (verify_ready p) (λ _. Staged p) (Ready p) (verify_ready-Triple p)
          E)
        decide
    where
      decide :
          (r : Result Text (Unit {0}))
          → Triple
              (elim r [ ok a ↦ Staged p | err e ↦ Ready p ])
              (elim r [
                | err message ↦ abort facts AttemptState.failed invalid_result message
                | ok valid ↦ (make_visible p >>= λ _. finish_visible facts >>= λ _. pure published)
              ])
              (λ _. E)
              E
      decide (err message) =
          abort-Triple facts p AttemptState.failed invalid_result message failed_ends
      decide (ok valid) =
          bind (Staged p) (make_visible p) (λ _. Known path old candidate) _ (λ _. E) E
            (make_visible-Triple p)
            (λ _.
              bind (Known path old candidate) (finish_visible facts) (λ _. E) _ (λ _. E) E
                (finish_visible-Triple path old candidate facts) (λ _ w h. h))

  pub commit_ready-Triple :
      (facts : Facts) → Triple (Hidden path old candidate) (commit_ready facts) (λ _. E) E
  unfolding commit_ready
  commit_ready-Triple facts =
      state_then (Hidden path old candidate) (λ _. E) E (λ n c d h. h.0) _
        (λ p.
          ensure_then (λ n c d. Hidden path old candidate n c d × (c.publication ≡ some p)) (λ _. E)
            E (λ n c d h. h.0.0) (is_ready p.phase) _ _
            (λ t w h.
              record_then (Ready p) (λ _. E) E (λ n c d k. k.0.0) _ (λ r v k. chosen p r v k.0) w
                (hidden-Ready p w.namespace w.current w.durable h.0 h.1 t)))
    where
      chosen :
          (p : PublicationState) (r : SpoolRecord)
          → Triple
              (Ready p)
              (if r.cancel_requested
                then abort facts AttemptState.cancelled none (codes "cancelled before visibility")
                else commit_verified facts p)
              (λ _. E)
              E
      chosen p r = elim (Bool-cases r.cancel_requested) [
        | inl t ↦ rw t (
            abort-Triple facts p AttemptState.cancelled none (codes "cancelled before visibility")
              cancelled_ends)
        | inr f ↦ rw f (commit_verified-Triple facts p)
      ]
