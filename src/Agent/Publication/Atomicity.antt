-- ===== src/Agent/Publication/Atomicity.antt =====
-- Atomic publication (apps/lmt-agent/src/publication.rs) over stops and restarts of the Agent.
use lzu_mirror_tools.Prelude.{◌≡◌, ◌≢◌, ◌⊎◌, refl, ℕ, Option, some, List, inl, inr, Result, ok, err}
use lzu_mirror_tools.Prelude.Text.{Text}
use lzu_mirror_tools.Core.State.{AttemptState}
use lzu_mirror_tools.Agent.Spool.{
  PublicationPhase, FileIdentity, PublicationState, SpoolRecord, executing, preparing_exchange,
  ready_to_commit, pre_visibility_recovery, visible_pending_durability, committed_pending_report,
  abandoned_fenced,
}
use lzu_mirror_tools.Agent.Publication.World.{Outcome, World, restart}
use lzu_mirror_tools.Agent.Publication.Restoration.{Facts}
use lzu_mirror_tools.Agent.Publication.Commit.{
  persist_preparing, prepare_or_restore, commit, recover, recover_before_control_plane,
}
use lzu_mirror_tools.Agent.Publication.Hoare.{Pred, After, Triple, bind}
use lzu_mirror_tools.Agent.Publication.Invariant.{ByPhase, Holds, Safe, Hidden}
use lzu_mirror_tools.Agent.Publication.Preparing.{Readied, prepare_or_restore-Triple}
use lzu_mirror_tools.Agent.Publication.Committing.{commit_ready-Triple}
use lzu_mirror_tools.Agent.Publication.Starting.{Fresh, persist_preparing-Triple}
use lzu_mirror_tools.Agent.Publication.Recovering.{
  recover-Triple, recover_before_control_plane-Triple,
}

module _ (facts : Facts) (path : Text) (old : Option FileIdentity) (candidate : FileIdentity)
    (outside : (gc run : Text) (attempt : ℕ) → facts.rotation_path gc run attempt ≢ path) where
  abbrev E : Pred
  E = Safe path old candidate

  abbrev Q : {A : Type 0} → A → Pred
  Q _ = Safe path old candidate

  -- An attempt whose synchronisation has succeeded, with its candidate in place.

  abbrev Start : Pred
  Start = Fresh facts path old candidate outside

  commit-Triple : Triple Start (commit facts) Q E
  unfolding commit
  commit-Triple =
      bind Start (persist_preparing facts) (λ _. Readied path old candidate) _ Q E
        (persist_preparing-Triple facts path old candidate outside)
        (λ _.
          bind (Readied path old candidate) (prepare_or_restore facts)
            (λ _. Hidden path old candidate) _ Q E
            (prepare_or_restore-Triple path old candidate facts)
            (λ _. commit_ready-Triple path old candidate facts))

  -- A record that was read from the disk, with its phase.
  -- a recovery each, which end or stop anywhere too.
  pub data Reached (start : World) : World → Type 0 where
    committed : Reached start (commit facts start).1
    recovered :
        {w : World} (outcomes : List Outcome)
        → Reached start w
        → Reached start (recover facts (restart outcomes w)).1
    recovered_before :
        {w : World} (outcomes : List Outcome)
        → Reached start w
        → Reached start (recover_before_control_plane facts (restart outcomes w)).1

  After-Safe :
      {A : Type 0} (r : Result Text A × World)
      → After {A = A} Q E r
      → Holds path old candidate r.1.durable r.1.namespace
  After-Safe (ok a, w) h = h
  After-Safe (err e, w) h = h

  Reached-Holds :
      (start : World) {w : World}
      → Fresh facts path old candidate outside start.namespace start.current start.durable
      → Reached start w
      → Holds path old candidate w.durable w.namespace
  unfolding restart
  Reached-Holds start fresh committed = After-Safe (commit facts start) (commit-Triple start fresh)
  Reached-Holds start fresh (recovered {w} outcomes reached) =
      After-Safe (recover facts (restart outcomes w)) (
        recover-Triple facts path old candidate (restart outcomes w)
          (Reached-Holds start fresh reached, refl))
  Reached-Holds start fresh (recovered_before {w} outcomes reached) =
      After-Safe (recover_before_control_plane facts (restart outcomes w)) (
        recover_before_control_plane-Triple facts path old candidate (restart outcomes w)
          (Reached-Holds start fresh reached, refl))

  visible_cases :
      (k : PublicationPhase) (r : SpoolRecord) (p : PublicationState) (now : Option FileIdentity)
      → ByPhase path old candidate k r p now
      → ((now ≡ old) ⊎ (now ≡ some candidate))
        × (r.state ≡ AttemptState.succeeded → now ≡ some candidate)
  visible_cases executing r p now (u, h) = (inl h, λ e. absurd (u e))
  visible_cases preparing_exchange r p now (pending, _, h) =
      (inl h, λ e. absurd (pending.unfinished e))
  visible_cases ready_to_commit r p now (pending, _, h) = (h, λ e. absurd (pending.unfinished e))
  visible_cases pre_visibility_recovery r p now (pending, _, h) =
      (inl h, λ e. absurd (pending.unfinished e))
  visible_cases visible_pending_durability r p now (_, h) = (inr h, λ e. h)
  visible_cases committed_pending_report r p now (_, h) = (inr h, λ e. h)
  visible_cases abandoned_fenced r p now h = absurd h

  -- However often the Agent stops while it publishes or recovers, and whichever operations of the
  -- system fail: if the attempt was fresh, the published path names what it named before or the
  -- candidate, and it names the candidate once the record on disk says that the attempt succeeded. The
  -- paths of the publication other than the published one, and those that generations are set
  -- aside to, are different from it.
  pub publication_is_atomic :
      (start : World) {w : World}
      → Fresh facts path old candidate outside start.namespace start.current start.durable
      → Reached start w
      → ((w.namespace path ≡ old) ⊎ (w.namespace path ≡ some candidate))
        × (w.durable.state ≡ AttemptState.succeeded → w.namespace path ≡ some candidate)
  publication_is_atomic start {w} fresh reached =
      let h = Reached-Holds start fresh reached in
      visible_cases h.state.phase w.durable h.state (w.namespace path) h.by_phase
