-- ===== src/Agent/Publication/Preparing.antt =====
-- `prepare_namespace` of apps/lmt-agent/src/publication.rs, and the restoration where it fails, leave the
-- published path alone.
use lzu_mirror_tools.Prelude.{
  ◌≡◌, ◌≢◌, refl, sym, subst, Bool, true, false, Option, none, some, inl, inr, Result, ok, err,
  Bool-cases,
}
use lzu_mirror_tools.Prelude.Text.{Text, codes}
use lzu_mirror_tools.Core.State.{AttemptState}
use lzu_mirror_tools.Agent.Spool.{FileIdentity, PublicationState, SpoolRecord, is_preparing}
use lzu_mirror_tools.Agent.Publication.World.{
  pure, caught, ◌>>=◌, expect, ensure, identity_eq, sync_namespace, identity_if_exists, persist,
}
use lzu_mirror_tools.Agent.Publication.Restoration.{
  Facts, get_record, with_publication, invalid_result, restore_then_terminal,
}
use lzu_mirror_tools.Agent.Publication.Commit.{
  rotate, is_absent_or, rotate_stable, rotate_previous, stage, ready, look_at, prepare_namespace,
  prepare_or_restore,
}
use lzu_mirror_tools.Agent.Publication.Hoare.{
  Namespace, Pred, Triple, bind, ensure-Triple, identity_if_exists-Triple, persist-Triple, weaken,
  look_then, sync_then, ensure_then, expect_then, record_then, state_then, caught-Triple,
}
use lzu_mirror_tools.Agent.Publication.Invariant.{Fits, Pending, Holds, Safe, Hidden, Restorable}
use lzu_mirror_tools.Agent.Publication.Restoring.{
  Restoring, rename-Restoring, restore_then_terminal-Triple, some-same,
}

module _ (path : Text) (old : Option FileIdentity) (candidate : FileIdentity) where
  -- A record whose candidate may be staged.
  abbrev pub Readied : Pred
  Readied n c d =
      Holds path old candidate d n
      × ((p : PublicationState) × (c.publication ≡ some p)
          × Fits path old candidate p
          × Pending path old candidate c p
          × (p.published_identity ≡ old))
      × (n path ≡ old)

  abbrev At : PublicationState → Pred
  At p = Restoring path old candidate p

  abbrev E : Pred
  E = Restorable path old candidate

  kept : (p : PublicationState) (n : Namespace) (c d : SpoolRecord) → At p n c d → E n c d
  kept p n c d (h, there, fits, pending, hidden) = (h, (p, there, fits, pending), hidden)

  ensured :
      (p : PublicationState) (b : Bool) (message : Text)
      → Triple (At p) (ensure b message) (λ _. At p) E
  ensured p b message =
      weaken (At p) (ensure b message) (λ _ n c d. At p n c d × (b ≡ true)) (At p) (λ _. At p) E
        (ensure-Triple (At p) b message) (λ _ n c d h. h.0) (kept p)

  rotate-Triple :
      (p : PublicationState) (a previous : FileIdentity) (rotated : Text)
      (here there : Option FileIdentity)
      → Fits path old candidate p
      → rotated ≢ path
      → Triple (At p) (rotate p a previous rotated here there) (λ _. At p) E
  unfolding rotate
  rotate-Triple p a previous rotated none none fits other =
      λ w h. kept p w.namespace w.current w.durable h
  rotate-Triple p a previous rotated none (some there) fits other =
      ensured p (identity_eq there previous) _
  rotate-Triple p a previous rotated (some here) (some there) fits other =
      ensured p (identity_eq here a) _
  rotate-Triple p a previous rotated (some here) none fits other =
      elim (Bool-cases (identity_eq here previous)) [
        | inl t ↦ rw t (
            rename-Restoring path old candidate p E p.exchange_dir rotated (kept p) fits.exchange
              other)
        | inr f ↦ rw f (ensured p (identity_eq here a) _)
      ]

  rotate_stable-Triple :
      (p : PublicationState) (a : FileIdentity) (stable : Option FileIdentity)
      → Fits path old candidate p
      → Triple (At p) (rotate_stable p a stable) (λ _. At p) E
  unfolding rotate_stable
  rotate_stable-Triple p a none fits =
      look_then (At p) (λ _. At p) E (kept p) p.exchange_dir _
        (λ here w h. ensured p (is_absent_or a here) _ w h.0)
  rotate_stable-Triple p a (some previous) fits =
      expect_then (At p) (λ _. At p) E (kept p) p.rotated_previous_path _ _
        (λ rotated r.
          look_then (At p) (λ _. At p) E (kept p) p.exchange_dir _
            (λ here w h.
              look_then (At p) (λ _. At p) E (kept p) rotated _
                (λ there v k.
                  rotate-Triple p a previous rotated here there fits (fits.rotated rotated r) v k.0)
                w h.0))

  stage-Triple :
      (p : PublicationState) (a : FileIdentity) (private staged : Option FileIdentity)
      → Fits path old candidate p
      → Triple (At p) (stage p a private staged) (λ _. At p) E
  unfolding stage
  stage-Triple p a (some private) none fits = elim (Bool-cases (identity_eq private a)) [
    | inl t ↦ rw t (
        rename-Restoring path old candidate p E p.candidate_dir p.exchange_dir (kept p) fits.private
          fits.exchange)
    | inr f ↦ rw f (λ w h. kept p w.namespace w.current w.durable h)
  ]
  stage-Triple p a none (some staged) fits = ensured p (identity_eq staged a) _
  stage-Triple p a none none fits = λ w h. kept p w.namespace w.current w.durable h
  stage-Triple p a (some private) (some staged) fits =
      λ w h. kept p w.namespace w.current w.durable h

  look_at-Triple :
      (p : PublicationState) (x : Option Text) → Triple (At p) (look_at x) (λ _. At p) E
  unfolding look_at
  look_at-Triple p none = λ w h. h
  look_at-Triple p (some x) =
      weaken (At p) (identity_if_exists x) (λ found n c d. At p n c d × (found ≡ n x)) (At p)
        (λ _. At p) E (identity_if_exists-Triple (At p) x) (λ _ n c d h. h.0) (kept p)

  readied-Holds :
      (p : PublicationState) (a : FileIdentity) (x : Option FileIdentity) (r : SpoolRecord)
      (n : Namespace) (c d : SpoolRecord)
      → p.published_identity ≡ old
      → At p n c d × (r ≡ c)
      → Holds path old candidate (with_publication (ready a x p) r) n
  unfolding with_publication ready
  readied-Holds p a x r n c d same ((h, there, fits, pending, hidden), e) = record {
    state = ready a x p;
    there = refl;
    fits = record {
      published = fits.published;
      private = fits.private;
      exchange = fits.exchange;
      rotated = fits.rotated;
    };
    by_phase = (
      record {
        known = pending.known;
        unfinished =
            subst (λ (y : SpoolRecord). y.state ≢ AttemptState.succeeded) (sym e)
              pending.unfinished;
      },
      same,
      inl hidden,
    );
  }

  prepare_namespace-Triple : Triple Readied prepare_namespace (λ _. Hidden path old candidate) E
  unfolding prepare_namespace rotate_previous
  prepare_namespace-Triple =
      state_then Readied Q E loose _
        (λ p w h. let k = shaped p w.namespace w.current w.durable h in staged p k.0.2 k.1 w k.0)
    where
      Q : Unit {0} → Pred
      Q _ = Hidden path old candidate

      loose : (n : Namespace) (c d : SpoolRecord) → Readied n c d → E n c d
      loose n c d (h, (p, there, fits, pending, same), hidden) =
          (h, (p, there, fits, pending), hidden)

      shaped :
          (p : PublicationState) (n : Namespace) (c d : SpoolRecord)
          → Readied n c d × (c.publication ≡ some p)
          → At p n c d × (p.published_identity ≡ old)
      shaped p n c d ((h, (q, there, fits, pending, same), hidden), e) =
          let eq = some-same there e in
          (
            (
              h,
              e,
              subst (Fits path old candidate) eq fits,
              subst (Pending path old candidate c) eq pending,
              hidden,
            ),
            subst (λ (x : PublicationState). x.published_identity ≡ old) eq same,
          )

      staged :
          (p : PublicationState)
          → Fits path old candidate p
          → p.published_identity ≡ old
          → Triple
              (At p)
              (ensure
                  (is_preparing p.phase)
                  (codes "private namespace preparation requires preparing_exchange phase")
                >>= λ _.
                    expect p.candidate_identity
                      (codes "preparing_exchange lacks candidate identity")
                    >>= λ a. sync_namespace >>= λ _. rotate_previous p a >>= λ _.
                        identity_if_exists p.candidate_dir >>= λ private.
                        identity_if_exists p.exchange_dir >>= λ there.
                        stage p a private there >>= λ _. sync_namespace >>= λ _.
                        look_at p.rotated_previous_path >>= λ x.
                        get_record >>= λ r. persist (with_publication (ready a x p) r))
              Q
              E
      staged p fits same = ensure_then (At p) Q E (kept p) (is_preparing p.phase) _ _ (λ _.
          expect_then (At p) Q E (kept p) p.candidate_identity _ _ (λ a _.
            sync_then (At p) Q E (kept p) _ (
              bind (At p) (rotate_previous p a) (λ _. At p) _ Q E
                (rotate_stable-Triple p a p.stable_previous_identity fits)
                (λ _. look_then (At p) Q E (kept p) p.candidate_dir _ (λ private v k.
                  look_then (At p) Q E (kept p) p.exchange_dir _
                    (λ there u l.
                      bind (At p) (stage p a private there) (λ _. At p) _ Q E
                        (stage-Triple p a private there fits)
                        (λ _. sync_then (At p) Q E (kept p) _ (
                          bind (At p) (look_at p.rotated_previous_path) (λ _. At p) _ Q E
                            (look_at-Triple p p.rotated_previous_path)
                            (λ x. record_then (At p) Q E (kept p) _ (λ r.
                              persist-Triple (λ n c d. At p n c d × (r ≡ c))
                                (with_publication (ready a x p) r) (Hidden path old candidate) E
                                (λ n c d y. (readied-Holds p a x r n c d same y, refl, y.0.4))
                                (λ n c d y. kept p n c d y.0)
                                (λ n c d y. (
                                  readied-Holds p a x r n c d same y,
                                  (p, y.0.1, y.0.2, y.0.3),
                                  y.0.4,
                                ))))))
                        u l.0)
                    v k.0)))))

  -- The preparation ends with the published path as before, whichever way it goes.
  pub prepare_or_restore-Triple :
      (facts : Facts)
      → Triple Readied
          (prepare_or_restore facts)
          (λ _. Hidden path old candidate)
          (Safe path old candidate)
  unfolding prepare_or_restore
  prepare_or_restore-Triple facts =
      bind Readied (caught prepare_namespace)
        (λ r. elim r [ ok a ↦ Hidden path old candidate | err e ↦ E ]) _
        (λ _. Hidden path old candidate) (Safe path old candidate)
        (caught-Triple Readied prepare_namespace (λ _. Hidden path old candidate) E
          prepare_namespace-Triple (Safe path old candidate))
        ending
    where
      failed_ends : AttemptState.failed ≢ AttemptState.succeeded
      failed_ends e = cc

      ending :
          (r : Result Text (Unit {0}))
          → Triple
              (elim r [ ok a ↦ Hidden path old candidate | err e ↦ E ])
              (elim r [
                | ok done ↦ pure true
                | err message ↦
                    (restore_then_terminal facts AttemptState.failed invalid_result message >>= λ _.
                    pure false)
              ])
              (λ _. Hidden path old candidate)
              (Safe path old candidate)
      ending (ok a) = λ w h. h
      ending (err message) =
          bind E (restore_then_terminal facts AttemptState.failed invalid_result message)
            (λ _. Hidden path old candidate) _ (λ _. Hidden path old candidate)
            (Safe path old candidate)
            (restore_then_terminal-Triple path old candidate facts AttemptState.failed
              invalid_result message failed_ends)
            (λ _ w h. h)
