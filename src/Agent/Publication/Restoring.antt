-- ===== src/Agent/Publication/Restoring.antt =====
-- `restore_then_terminal` of apps/lmt-agent/src/publication.rs leaves the published path alone.
use lzu_mirror_tools.Prelude.{
  ◌≡◌, ◌≢◌, refl, sym, subst, ◌∙◌, Option, none, some, inl, inr, Bool-cases, is_none,
}
use lzu_mirror_tools.Prelude.Text.{Text, codes, text_eq, text_eq→eq}
use lzu_mirror_tools.Core.State.{AttemptState, FailureKind}
use lzu_mirror_tools.Agent.Spool.{
  FileIdentity, PublicationState, SpoolRecord, is_recovering, terminal,
}
use lzu_mirror_tools.Agent.Publication.World.{
  ◌>>=◌, expect, ensure, identity_eq, same_identity, sync_namespace, identity_if_exists, put,
  rename_noreplace, persist,
}
use lzu_mirror_tools.Agent.Publication.Restoration.{
  Facts, get_record, publication_state, with_publication, recovery_intent, persist_intent,
  restore_candidate, unrotate, restore_stable, restore_previous, restored, restore_then_terminal,
}
use lzu_mirror_tools.Agent.Publication.Hoare.{
  Namespace, Pred, Triple, bind, ensure-Triple, persist-Triple, rename_noreplace-Triple, weaken,
  look_then, sync_then, ensure_then, expect_then, record_then, state_then,
}
use lzu_mirror_tools.Agent.Publication.Invariant.{
  Fits, Pending, ByPhase, Holds, Safe, Hidden, Restorable,
}

pub some-same : {A : Type 0} {x y : A} {o : Option A} → o ≡ some x → o ≡ some y → x ≡ y
some-same e f = cc

-- An entry elsewhere leaves a path.
pub put_other :
    (at path : Text) (e : Option FileIdentity) (n : Namespace)
    → at ≢ path
    → put at e n path ≡ n path
unfolding put
put_other at path e n other = elim (Bool-cases (text_eq path at)) [
  | inl t ↦ absurd (other (sym (text_eq→eq path at t)))
  | inr f ↦ rw f refl
]

module _ (path : Text) (old : Option FileIdentity) (candidate : FileIdentity) where
  pub Holds-same :
      (r : SpoolRecord) (n n' : Namespace)
      → n' path ≡ n path
      → Holds path old candidate r n
      → Holds path old candidate r n'
  Holds-same r n n' e h = record {
    state = h.state;
    there = h.there;
    fits = h.fits;
    by_phase = subst (ByPhase path old candidate h.state.phase r h.state) (sym e) h.by_phase;
  }

  -- The state of a record whose candidate may be restored.
  abbrev pub Restoring : PublicationState → Pred
  Restoring p n c d =
      Holds path old candidate d n
      × (c.publication ≡ some p)
      × Fits path old candidate p
      × Pending path old candidate c p
      × (n path ≡ old)

  Restoring-moved :
      (p : PublicationState) (n : Namespace) (c d : SpoolRecord) (a b : Text)
      (e f : Option FileIdentity)
      → a ≢ path
      → b ≢ path
      → Restoring p n c d
      → Restoring p (put a e (put b f n)) c d
  Restoring-moved p n c d a b e f x y (h, there, fits, pending, hidden) =
      let same = put_other a path e (put b f n) x ∙ put_other b path f n y in
      (Holds-same d n (put a e (put b f n)) same h, there, fits, pending, same ∙ hidden)

  -- A rename between the private paths.
  pub rename-Restoring :
      (p : PublicationState) (E : Pred) (source destination : Text)
      → ((n : Namespace) (c d : SpoolRecord) → Restoring p n c d → E n c d)
      → source ≢ path
      → destination ≢ path
      → Triple (Restoring p) (rename_noreplace source destination) (λ _. Restoring p) E
  rename-Restoring p E source destination kept x y =
      rename_noreplace-Triple (Restoring p) source destination (Restoring p) E kept
        (λ n c d moved h e.
          let after = Restoring-moved p n c d destination source (some moved) none y x h in
          (after, kept _ c d after))

  intent-Holds :
      (state : AttemptState) (kind : Option FailureKind) (message : Text) (p : PublicationState)
      (n : Namespace) (c d : SpoolRecord)
      → state ≢ AttemptState.succeeded
      → Restoring p n c d
      → Holds path old candidate (with_publication (recovery_intent state kind message p) c) n
  unfolding with_publication recovery_intent
  intent-Holds state kind message p n c d ends (h, there, fits, pending, hidden) = record {
    state = recovery_intent state kind message p;
    there = refl;
    fits = record {
      published = fits.published;
      private = fits.private;
      exchange = fits.exchange;
      rotated = fits.rotated;
    };
    by_phase = (
      record { known = pending.known; unfinished = pending.unfinished },
      λ s e. subst (λ x. x ≢ AttemptState.succeeded) (some-same refl e) ends,
      hidden,
    );
  }

  persist_intent-Triple :
      (state : AttemptState) (kind : Option FailureKind) (message : Text) (p : PublicationState)
      → state ≢ AttemptState.succeeded
      → Triple
          (Restoring p)
          (persist_intent state kind message p)
          (λ _. Restorable path old candidate)
          (Safe path old candidate)
  unfolding persist_intent with_publication recovery_intent
  persist_intent-Triple state kind message p ends = elim (Bool-cases (is_recovering p.phase)) [
    | inl t ↦ rw t (λ w (h, there, fits, pending, hidden). (h, (p, there, fits, pending), hidden))
    | inr f ↦ rw f written
  ]
    where
      intent : SpoolRecord → SpoolRecord
      intent r = with_publication (recovery_intent state kind message p) r

      holds :
          (r : SpoolRecord) (n : Namespace) (c d : SpoolRecord)
          → Restoring p n c d × (r ≡ c)
          → Holds path old candidate (intent r) n
      holds r n c d (h, e) =
          subst (λ x. Holds path old candidate (intent x) n) (sym e)
            (intent-Holds state kind message p n c d ends h)

      shaped :
          (r : SpoolRecord) (n : Namespace) (c d : SpoolRecord)
          → Restoring p n c d × (r ≡ c)
          → Restorable path old candidate n (intent r) (intent r)
      shaped r n c d ((h, there, fits, pending, hidden), e) = (
        holds r n c d ((h, there, fits, pending, hidden), e),
        (
          recovery_intent state kind message p,
          refl,
          record {
            published = fits.published;
            private = fits.private;
            exchange = fits.exchange;
            rotated = fits.rotated;
          },
          record {
            known = pending.known;
            unfinished =
                subst (λ (x : SpoolRecord). x.state ≢ AttemptState.succeeded) (sym e)
                  pending.unfinished;
          },
        ),
        hidden,
      )

      written :
          Triple
            (Restoring p)
            (get_record >>= λ r. persist (intent r))
            (λ _. Restorable path old candidate)
            (Safe path old candidate)
      written =
          record_then (Restoring p) (λ _. Restorable path old candidate) (Safe path old candidate)
            (λ n c d h. h.0) (λ r. persist (intent r))
            (λ r.
              persist-Triple (λ n c d. Restoring p n c d × (r ≡ c)) (intent r)
                (Restorable path old candidate) (Safe path old candidate) (shaped r)
                (λ n c d h. h.0.0) (holds r))

  restore_candidate-Triple :
      (p : PublicationState) (c : FileIdentity)
      → Fits path old candidate p
      → Triple (Restoring p) (restore_candidate p c) (λ _. Restoring p) (Safe path old candidate)
  unfolding restore_candidate
  restore_candidate-Triple p c fits =
      look_then (Restoring p) (λ _. Restoring p) (Safe path old candidate) (λ n c d h. h.0)
        p.exchange_dir _
        (λ staged. elim (Bool-cases (same_identity staged (some c))) [
          | inr f ↦ rw f (λ w h. h.0)
          | inl t ↦ rw t (λ w h. moving w h.0)
        ])
    where
      moving :
          Triple
            (Restoring p)
            (identity_if_exists p.candidate_dir >>= λ private.
              ensure
                (is_none private)
                (codes "cannot restore candidate because its private path exists")
              >>= λ _. rename_noreplace p.exchange_dir p.candidate_dir)
            (λ _. Restoring p)
            (Safe path old candidate)
      moving =
          look_then (Restoring p) (λ _. Restoring p) (Safe path old candidate) (λ n c d h. h.0)
            p.candidate_dir _
            (λ private w h.
              ensure_then (Restoring p) (λ _. Restoring p) (Safe path old candidate)
                (λ n c d h. h.0) (is_none private)
                (codes "cannot restore candidate because its private path exists") _
                (λ t.
                  rename-Restoring p (Safe path old candidate) p.exchange_dir p.candidate_dir
                    (λ n c d h. h.0) fits.exchange fits.private)
                w h.0)

  unrotate-Triple :
      (p : PublicationState) (previous : FileIdentity) (rotated : Text)
      (here there : Option FileIdentity)
      → Fits path old candidate p
      → rotated ≢ path
      → Triple
          (Restoring p)
          (unrotate p previous rotated here there)
          (λ _. Restoring p)
          (Safe path old candidate)
  unfolding unrotate
  unrotate-Triple p previous rotated none none fits other = λ w h. h.0
  unrotate-Triple p previous rotated (some here) there fits other =
      weaken (Restoring p)
        (ensure (identity_eq here previous) (codes "cannot restore stable previous identity")) _ _
        (λ _. Restoring p) (Safe path old candidate)
        (ensure-Triple (Restoring p) (identity_eq here previous)
          (codes "cannot restore stable previous identity"))
        (λ _ n c d h. h.0) (λ n c d h. h.0)
  unrotate-Triple p previous rotated none (some there) fits other =
      elim (Bool-cases (identity_eq there previous)) [
        | inl t ↦ rw t (
            rename-Restoring p (Safe path old candidate) rotated p.exchange_dir (λ n c d h. h.0)
              other fits.exchange)
        | inr f ↦ rw f (λ w h. h.0)
      ]

  restore_stable-Triple :
      (p : PublicationState) (stable : Option FileIdentity)
      → Fits path old candidate p
      → Triple (Restoring p) (restore_stable p stable) (λ _. Restoring p) (Safe path old candidate)
  unfolding restore_stable
  restore_stable-Triple p none fits = λ w h. h
  restore_stable-Triple p (some previous) fits =
      expect_then (Restoring p) (λ _. Restoring p) (Safe path old candidate) (λ n c d h. h.0)
        p.rotated_previous_path (codes "publication lacks previous rotation path") _
        (λ rotated r.
          look_then (Restoring p) (λ _. Restoring p) (Safe path old candidate) (λ n c d h. h.0)
            p.exchange_dir _
            (λ here w h.
              look_then (Restoring p) (λ _. Restoring p) (Safe path old candidate) (λ n c d h. h.0)
                rotated _
                (λ there v k.
                  unrotate-Triple p previous rotated here there fits (fits.rotated rotated r) v k.0)
                w h.0))

  -- The restoration, from a record whose candidate may be restored to one that has ended.
  pub restore_then_terminal-Triple :
      (facts : Facts) (state : AttemptState) (kind : Option FailureKind) (message : Text)
      → state ≢ AttemptState.succeeded
      → Triple
          (Restorable path old candidate)
          (restore_then_terminal facts state kind message)
          (λ _. Hidden path old candidate)
          (Safe path old candidate)
  unfolding restore_then_terminal restore_previous restored with_publication terminal
  restore_then_terminal-Triple facts state kind message ends =
      state_then (Restorable path old candidate) (λ _. Hidden path old candidate)
        (Safe path old candidate) (λ n c d h. h.0) _
        (λ before w h.
          bind (Restoring before) (persist_intent state kind message before)
            (λ _. Restorable path old candidate) _ (λ _. Hidden path old candidate)
            (Safe path old candidate) (persist_intent-Triple state kind message before ends)
            (λ _. ended_with) w (shaped before w.namespace w.current w.durable h))
    where
      shaped :
          (p : PublicationState) (n : Namespace) (c d : SpoolRecord)
          → Restorable path old candidate n c d × (c.publication ≡ some p)
          → Restoring p n c d
      shaped p n c d ((h, (q, there, fits, pending), hidden), e) =
          let same = some-same there e in
          (
            h,
            e,
            subst (Fits path old candidate) same fits,
            subst (Pending path old candidate c) same pending,
            hidden,
          )

      finished : PublicationState → SpoolRecord → SpoolRecord
      finished p r =
          terminal state none kind (some message) facts.now (with_publication (restored p) r)

      holds :
          (p : PublicationState) (r : SpoolRecord) (n : Namespace) (c d : SpoolRecord)
          → Restoring p n c d × (r ≡ c)
          → Holds path old candidate (finished p r) n
      holds p r n c d ((h, there, fits, pending, hidden), e) = record {
        state = restored p;
        there = refl;
        fits = record {
          published = fits.published;
          private = fits.private;
          exchange = fits.exchange;
          rotated = fits.rotated;
        };
        by_phase = (ends, hidden);
      }

      Q : Unit {0} → Pred
      Q _ = Hidden path old candidate

      E : Pred
      E = Safe path old candidate

      with_fits :
          (p : PublicationState)
          → Fits path old candidate p
          → Triple
              (Restoring p)
              (expect p.candidate_identity (codes "publication lacks candidate identity") >>= λ c.
                restore_candidate p c >>= λ _. restore_previous p >>= λ _.
                sync_namespace >>= λ _. get_record >>= λ r. persist (finished p r))
              Q
              E
      with_fits p fits =
          expect_then (Restoring p) Q E (λ n c d h. h.0) p.candidate_identity
            (codes "publication lacks candidate identity") _
            (λ c e.
              bind (Restoring p) (restore_candidate p c) (λ _. Restoring p) _ Q E
                (restore_candidate-Triple p c fits)
                (λ _.
                  bind (Restoring p) (restore_previous p) (λ _. Restoring p) _ Q E
                    (restore_stable-Triple p p.stable_previous_identity fits)
                    (λ _.
                      sync_then (Restoring p) Q E (λ n c d h. h.0) _
                        (record_then (Restoring p) Q E (λ n c d h. h.0) _
                          (λ r.
                            persist-Triple (λ n c d. Restoring p n c d × (r ≡ c)) (finished p r)
                              (Hidden path old candidate) E
                              (λ n c d h. (holds p r n c d h, refl, h.0.4)) (λ n c d h. h.0.0)
                              (λ n c d h. holds p r n c d h))))))

      ended_with :
          Triple
            (Restorable path old candidate)
            (publication_state >>= λ p.
              expect p.candidate_identity (codes "publication lacks candidate identity") >>= λ c.
              restore_candidate p c >>= λ _. restore_previous p >>= λ _.
              sync_namespace >>= λ _. get_record >>= λ r. persist (finished p r))
            (λ _. Hidden path old candidate)
            (Safe path old candidate)
      ended_with =
          state_then (Restorable path old candidate) Q E (λ n c d h. h.0) _
            (λ p w h. let k = shaped p w.namespace w.current w.durable h in with_fits p k.2 w k)
