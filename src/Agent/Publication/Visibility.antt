-- ===== src/Agent/Publication/Visibility.antt =====
-- `commit_ready` and `finish_visible` of apps/lmt-agent/src/publication.rs: the published path changes
-- in one rename, from what it named before to the candidate.
use lzu_mirror_tools.Prelude.{
  ◌≡◌, refl, sym, ap, ap₂, subst, ◌∙◌, ℕ, true, Option, none, some, Result, ok, err, arith,
}
use lzu_mirror_tools.Prelude.Text.{Text, codes, text_eq_refl}
use lzu_mirror_tools.Agent.Spool.{
  FileIdentity, PublicationState, SpoolRecord, terminal, visible_pending_durability,
  committed_pending_report,
}
use lzu_mirror_tools.Agent.Publication.World.{
  caught, ◌>>=◌, bail, identity_eq, same_identity, sync_namespace, put, persist,
}
use lzu_mirror_tools.Agent.Publication.Restoration.{Facts, get_record, with_publication}
use lzu_mirror_tools.Agent.Publication.Commit.{with_phase, succeed, finish_visible}
use lzu_mirror_tools.Agent.Publication.Hoare.{
  Namespace, Pred, Triple, bind, sync_namespace-Triple, persist-Triple, look_then, ensure_then,
  expect_then, record_then, state_then, caught-Triple,
}
use lzu_mirror_tools.Agent.Publication.Invariant.{Fits, Holds, Safe}
use lzu_mirror_tools.Agent.Publication.Restoring.{some-same}

identity_eq_sound : (a b : FileIdentity) → identity_eq a b ≡ true → a ≡ b
unfolding identity_eq
identity_eq_sound a b h =
    ap₂ (λ (x : ℕ) (y : ℕ). record { device = x; inode = y }) (ground (arith, h))
      (ground (arith, h))

pub same_identity_sound : (x y : Option FileIdentity) → same_identity x y ≡ true → x ≡ y
unfolding same_identity
same_identity_sound none none h = refl
same_identity_sound (some a) (some b) h = ap some (identity_eq_sound a b h)
same_identity_sound none (some b) h = cc
same_identity_sound (some a) none h = cc

pub put_at : (path : Text) (e : Option FileIdentity) (n : Namespace) → put path e n path ≡ e
unfolding put
put_at path e n = rw (text_eq_refl path) refl

module _ (path : Text) (old : Option FileIdentity) (candidate : FileIdentity) where
  abbrev E : Pred
  E = Safe path old candidate

  -- The record has a publication with the candidate, in memory as on disk.
  abbrev pub Known : Pred
  Known n c d =
      Holds path old candidate d n
      × (c ≡ d)
      × ((p : PublicationState) × (c.publication ≡ some p)
          × Fits path old candidate p
          × (p.candidate_identity ≡ some candidate))

  -- The candidate is at the published path.
  abbrev Shown : PublicationState → Pred
  Shown p n c d =
      Holds path old candidate d n
      × (c ≡ d)
      × Fits path old candidate p
      × (p.candidate_identity ≡ some candidate)
      × (n path ≡ some candidate)

  shown-Holds :
      (p : PublicationState) (r : SpoolRecord) (n : Namespace) (c d : SpoolRecord)
      → Shown p n c d
      → Holds path old candidate (with_publication (with_phase visible_pending_durability p) r) n
  unfolding with_publication with_phase
  shown-Holds p r n c d (h, level, fits, known, shown) = record {
    state = with_phase visible_pending_durability p;
    there = refl;
    fits = record {
      published = fits.published;
      private = fits.private;
      exchange = fits.exchange;
      rotated = fits.rotated;
    };
    by_phase = (known, shown);
  }

  committed-Holds :
      (facts : Facts) (p : PublicationState) (r : SpoolRecord) (n : Namespace) (c d : SpoolRecord)
      → Shown p n c d
      → Holds path old candidate
          (succeed facts (with_publication (with_phase committed_pending_report p) r))
          n
  unfolding with_publication with_phase succeed terminal
  committed-Holds facts p r n c d (h, level, fits, known, shown) = record {
    state = with_phase committed_pending_report p;
    there = refl;
    fits = record {
      published = fits.published;
      private = fits.private;
      exchange = fits.exchange;
      rotated = fits.rotated;
    };
    by_phase = (known, shown);
  }

  pub finish_visible-Triple : (facts : Facts) → Triple Known (finish_visible facts) (λ _. E) E
  unfolding finish_visible
  finish_visible-Triple facts =
      state_then Known Q E (λ n c d h. h.0) _
        (λ p.
          expect_then (λ n c d. Known n c d × (c.publication ≡ some p)) Q E (λ n c d h. h.0.0)
            p.candidate_identity _ _
            (λ a known.
              look_then (λ n c d. Known n c d × (c.publication ≡ some p)) Q E (λ n c d h. h.0.0)
                p.published_dir _
                (λ visible.
                  ensure_then
                    (λ n c d.
                      (Known n c d × (c.publication ≡ some p)) × (visible ≡ n p.published_dir))
                    Q E (λ n c d h. h.0.0.0) (same_identity visible (some a)) _ _
                    (λ t w h.
                      ending p w (shown p a visible known t w.namespace w.current w.durable h)))))
    where
      Q : Unit {0} → Pred
      Q _ = E

      shown :
          (p : PublicationState) (a : FileIdentity) (visible : Option FileIdentity)
          → p.candidate_identity ≡ some a
          → same_identity visible (some a) ≡ true
          → (n : Namespace) (c d : SpoolRecord)
          → (Known n c d × (c.publication ≡ some p)) × (visible ≡ n p.published_dir)
          → Shown p n c d
      shown p a visible known t n c d (((h, level, (q, there, fits, cand)), e), found) =
          let eq = some-same there e in
          let fits' = subst (Fits path old candidate) eq fits in
          let cand' =
            subst (λ (x : PublicationState). x.candidate_identity ≡ some candidate) eq cand in
          (
            h,
            level,
            fits',
            cand',
            ap n (sym fits'.published)
                ∙ sym found
                ∙ same_identity_sound visible (some a) t
                ∙ sym known
                ∙ cand',
          )

      decide :
          (p : PublicationState) (r : SpoolRecord) (synced : Result Text (Unit {0}))
          → Triple
              (Shown p)
              (elim synced [
                | err e ↦
                    (caught (persist (with_publication (with_phase visible_pending_durability p) r))
                      >>= λ _.
                          bail (codes "publication visible but directory durability is pending"))
                | ok durable ↦
                    persist
                      (succeed facts (with_publication (with_phase committed_pending_report p) r))
              ])
              Q
              E
      decide p r (ok durable) =
          persist-Triple (Shown p)
            (succeed facts (with_publication (with_phase committed_pending_report p) r)) E E
            (λ n c d h. committed-Holds facts p r n c d h) (λ n c d h. h.0)
            (λ n c d h. committed-Holds facts p r n c d h)
      decide p r (err e) =
          bind (Shown p)
            (caught (persist (with_publication (with_phase visible_pending_durability p) r)))
            (λ x. elim x [ ok a ↦ E | err y ↦ E ]) _ Q E
            (caught-Triple (Shown p)
              (persist (with_publication (with_phase visible_pending_durability p) r)) (λ _. E) E
              (persist-Triple (Shown p)
                (with_publication (with_phase visible_pending_durability p) r) E E
                (λ n c d h. shown-Holds p r n c d h) (λ n c d h. h.0)
                (λ n c d h. shown-Holds p r n c d h))
              E)
            bailed
        where
          bailed :
              (x : Result Text (Unit {0}))
              → Triple
                  (elim x [ ok a ↦ E | err y ↦ E ])
                  (bail (codes "publication visible but directory durability is pending"))
                  Q
                  E
          bailed (ok a) = λ w h. h
          bailed (err y) = λ w h. h

      ending :
          (p : PublicationState)
          → Triple
              (Shown p)
              (caught sync_namespace >>= λ synced. get_record >>= λ r. elim synced [
                | err e ↦
                    (caught (persist (with_publication (with_phase visible_pending_durability p) r))
                      >>= λ _.
                          bail (codes "publication visible but directory durability is pending"))
                | ok durable ↦
                    persist
                      (succeed facts (with_publication (with_phase committed_pending_report p) r))
              ])
              Q
              E
      ending p =
          bind (Shown p) (caught sync_namespace) (λ x. elim x [ ok a ↦ Shown p | err y ↦ Shown p ])
            _ Q E
            (caught-Triple (Shown p) sync_namespace (λ _. Shown p) (Shown p)
              (sync_namespace-Triple (Shown p)) E)
            with_record
        where
          with_record :
              (x : Result Text (Unit {0}))
              → Triple
                  (elim x [ ok a ↦ Shown p | err y ↦ Shown p ])
                  (get_record >>= λ r. elim x [
                    | err e ↦
                        (caught
                            (persist (with_publication (with_phase visible_pending_durability p) r))
                          >>= λ _.
                              bail
                                (codes "publication visible but directory durability is pending"))
                    | ok durable ↦
                        persist (
                          succeed facts
                            (with_publication (with_phase committed_pending_report p) r))
                  ])
                  Q
                  E
          with_record (ok a) =
              record_then (Shown p) Q E (λ n c d h. h.0) _ (λ r w h. decide p r (ok a) w h.0)
          with_record (err y) =
              record_then (Shown p) Q E (λ n c d h. h.0) _ (λ r w h. decide p r (err y) w h.0)
