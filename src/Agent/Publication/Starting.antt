-- ===== src/Agent/Publication/Starting.antt =====
-- `persist_preparing` of apps/lmt-agent/src/publication.rs on an attempt that is to be published.
use lzu_mirror_tools.Prelude.{
  ◌≡◌, ◌≢◌, refl, sym, ap, subst, ◌∙◌, ℕ, not, ◌&&◌, Option, none, some, is_none, is_some,
}
use lzu_mirror_tools.Prelude.Text.{Text, codes}
use lzu_mirror_tools.Core.State.{AttemptState}
use lzu_mirror_tools.Agent.Spool.{
  FileIdentity, PublicationState, SpoolRecord, executing, is_executing,
}
use lzu_mirror_tools.Agent.Publication.World.{◌>>=◌, ensure, identity_if_exists, persist}
use lzu_mirror_tools.Agent.Publication.Restoration.{Facts, get_record, with_publication}
use lzu_mirror_tools.Agent.Publication.Commit.{preparing, on_device, persist_preparing}
use lzu_mirror_tools.Agent.Publication.Hoare.{
  Namespace, Pred, Triple, persist-Triple, look_then, ensure_then, expect_then, record_then,
  state_then,
}
use lzu_mirror_tools.Agent.Publication.Invariant.{Fits, Pending, ByPhase, Holds, Safe}
use lzu_mirror_tools.Agent.Publication.Restoring.{some-same}
use lzu_mirror_tools.Agent.Publication.Preparing.{Readied}

module _ (facts : Facts) (path : Text) (old : Option FileIdentity) (candidate : FileIdentity)
    (outside : (gc run : Text) (attempt : ℕ) → facts.rotation_path gc run attempt ≢ path) where
  abbrev E : Pred
  E = Safe path old candidate

  -- An attempt whose synchronisation has succeeded, with its candidate in place.
  pub record Fresh (n : Namespace) (c d : SpoolRecord) : Type 0 where
    pub level : c ≡ d
    pub state : PublicationState
    pub there : d.publication ≡ some state
    pub fits : Fits path old candidate state
    pub phase : state.phase ≡ executing
    pub unfinished : d.state ≢ AttemptState.succeeded
    pub before : n path ≡ old
    pub candidate_there : n state.candidate_dir ≡ some candidate

  Fresh-Holds : (n : Namespace) (c d : SpoolRecord) → Fresh n c d → Holds path old candidate d n
  Fresh-Holds n c d f = record {
    state = f.state;
    there = f.there;
    fits = f.fits;
    by_phase =
        subst (λ k. ByPhase path old candidate k d f.state (n path)) (sym f.phase)
          (f.unfinished, f.before);
  }

  pub persist_preparing-Triple :
      Triple Fresh (persist_preparing facts) (λ _. Readied path old candidate) E
  unfolding persist_preparing with_publication preparing
  persist_preparing-Triple = state_then Fresh R E Fresh-Holds _ (λ p.
      ensure_then (P0 p) R E (λ n c d h. Fresh-Holds n c d h.0) (is_executing p.phase) _ _
        (λ _.
          ensure_then (P0 p) R E (λ n c d h. Fresh-Holds n c d h.0)
            (facts.validate_private_directory p.candidate_dir) _ _
            (λ _.
              ensure_then (P0 p) R E (λ n c d h. Fresh-Holds n c d h.0)
                (facts.validate_published_target p.published_dir) _ _
                (λ _.
                  look_then (P0 p) R E (λ n c d h. Fresh-Holds n c d h.0) p.candidate_dir _
                    (λ found.
                      expect_then (λ n c d. P0 p n c d × (found ≡ n p.candidate_dir)) R E
                        (λ n c d h. Fresh-Holds n c d h.0.0) found _ _
                        (λ a is w h.
                          with_candidate p a
                            (identified p a found is w.namespace w.current w.durable h) w h.0))))))
    where
      R : Unit {0} → Pred
      R _ = Readied path old candidate

      P0 : PublicationState → Pred
      P0 p n c d = Fresh n c d × (c.publication ≡ some p)

      of_state :
          (p : PublicationState) (n : Namespace) (c d : SpoolRecord) (h : P0 p n c d)
          → h.0.state ≡ p
      of_state p n c d (f, e) =
          some-same f.there (subst (λ (x : SpoolRecord). x.publication ≡ some p) f.level e)

      identified :
          (p : PublicationState) (a : FileIdentity) (found : Option FileIdentity)
          → found ≡ some a
          → (n : Namespace) (c d : SpoolRecord) → P0 p n c d × (found ≡ n p.candidate_dir)
          → a ≡ candidate
      identified p a found is n c d (h, seen) = some-same is (
          seen
          ∙ ap (λ (x : PublicationState). n x.candidate_dir) (sym (of_state p n c d h))
          ∙ h.0.candidate_there)

      rotation : PublicationState → SpoolRecord → Option FileIdentity → Option Text
      rotation p r stable = elim stable [
        | none ↦ none
        | some s ↦ some (facts.rotation_path p.gc_dir r.run_id r.attempt)
      ]

      rotation_outside :
          (p : PublicationState) (r : SpoolRecord) (stable : Option FileIdentity) (x : Text)
          → rotation p r stable ≡ some x
          → x ≢ path
      rotation_outside p r none x e = absurd (missing e)
        where
          missing : ◌≡◌ {A = Option Text} none (some x) → ⊥
          missing y = cc
      rotation_outside p r (some s) x e =
          subst (λ y. y ≢ path) (some-same refl e) (outside p.gc_dir r.run_id r.attempt)

      Found : PublicationState → Option FileIdentity → Pred
      Found p visible n c d = P0 p n c d × (visible ≡ n p.published_dir)

      next :
          PublicationState
          → FileIdentity
          → Option FileIdentity
          → Option FileIdentity
          → SpoolRecord
          → SpoolRecord
      next p a visible stable r =
          with_publication (preparing (rotation p r stable) a visible stable p) r

      readied :
          (p : PublicationState) (a : FileIdentity) (visible stable : Option FileIdentity)
          (r : SpoolRecord)
          → a ≡ candidate
          → (n : Namespace) (c d : SpoolRecord) → Found p visible n c d × (r ≡ c)
          → Readied path old candidate n (next p a visible stable r) (next p a visible stable r)
      readied p a visible stable r is n c d ((h, seen), e) =
          let eq = of_state p n c d h in
          let fits = subst (Fits path old candidate) eq h.0.fits in
          let fits' : Fits path old candidate (preparing (rotation p r stable) a visible stable p) =
            record {
              published = fits.published;
              private = fits.private;
              exchange = fits.exchange;
              rotated = rotation_outside p r stable;
            } in
          let pending : Pending path old candidate (next p a visible stable r)
              (preparing (rotation p r stable) a visible stable p) =
            record {
              known = ap some is;
              unfinished =
                  subst (λ (x : SpoolRecord). x.state ≢ AttemptState.succeeded)
                    (sym (e ∙ h.0.level)) h.0.unfinished;
            } in
          let same = seen ∙ ap n fits.published ∙ h.0.before in
          (
            record {
              state = preparing (rotation p r stable) a visible stable p;
              there = refl;
              fits = fits';
              by_phase = (pending, same, h.0.before);
            },
            (preparing (rotation p r stable) a visible stable p, refl, fits', pending, same),
            h.0.before,
          )

      with_candidate :
          (p : PublicationState) (a : FileIdentity)
          → a ≡ candidate
          → Triple
              (P0 p)
              (ensure
                  (on_device a.device (facts.parent_device p.published_dir)
                    && on_device a.device (facts.parent_device p.exchange_dir))
                  (codes "candidate, exchange, and published parent are not on one filesystem")
                >>= λ _. identity_if_exists p.published_dir >>= λ visible.
                    identity_if_exists p.exchange_dir >>= λ stable.
                    ensure
                      (not (is_none visible && is_some stable))
                      (codes "published target is absent while a stable previous generation exists")
                    >>= λ _. get_record >>= λ r. persist (next p a visible stable r))
              R
              E
      with_candidate p a is =
          ensure_then (P0 p) R E (λ n c d h. Fresh-Holds n c d h.0) _ _ _
            (λ _.
              look_then (P0 p) R E (λ n c d h. Fresh-Holds n c d h.0) p.published_dir _
                (λ visible.
                  look_then (Found p visible) R E (λ n c d h. Fresh-Holds n c d h.0.0)
                    p.exchange_dir _
                    (λ stable w h.
                      ensure_then (Found p visible) R E (λ n c d k. Fresh-Holds n c d k.0.0) _ _ _
                        (λ _.
                          record_then (Found p visible) R E (λ n c d k. Fresh-Holds n c d k.0.0) _
                            (λ r.
                              persist-Triple (λ n c d. Found p visible n c d × (r ≡ c))
                                (next p a visible stable r) (Readied path old candidate) E
                                (readied p a visible stable r is)
                                (λ n c d k. Fresh-Holds n c d k.0.0.0)
                                (λ n c d k. (readied p a visible stable r is n c d k).0)))
                        w h.0)))
