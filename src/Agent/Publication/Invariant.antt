-- ===== src/Agent/Publication/Invariant.antt =====
-- What the phase of a record says of the published path (apps/lmt-agent/src/publication.rs).
use lzu_mirror_tools.Prelude.{◌≡◌, ◌≢◌, ◌⊎◌, Option, some}
use lzu_mirror_tools.Prelude.Text.{Text}
use lzu_mirror_tools.Core.State.{AttemptState}
use lzu_mirror_tools.Agent.Spool.{
  PublicationPhase, FileIdentity, PublicationState, SpoolRecord, executing, preparing_exchange,
  ready_to_commit, pre_visibility_recovery, visible_pending_durability, committed_pending_report,
  abandoned_fenced,
}
use lzu_mirror_tools.Agent.Publication.Hoare.{Namespace, Pred}

-- The published path, what it names before, and the candidate.
module _ (path : Text) (old : Option FileIdentity) (candidate : FileIdentity) where
  -- The other paths of the publication are not the published one.
  pub record Fits (p : PublicationState) : Type 0 where
    pub published : p.published_dir ≡ path
    pub private : p.candidate_dir ≢ path
    pub exchange : p.exchange_dir ≢ path
    pub rotated : (x : Text) → p.rotated_previous_path ≡ some x → x ≢ path

  -- Before visibility: the candidate is known, and the attempt has not succeeded.
  pub record Pending (r : SpoolRecord) (p : PublicationState) : Type 0 where
    pub known : p.candidate_identity ≡ some candidate
    pub unfinished : r.state ≢ AttemptState.succeeded

  abbrev pub ByPhase :
      PublicationPhase → SpoolRecord → PublicationState → Option FileIdentity → Type 0
  ByPhase executing r p now = (r.state ≢ AttemptState.succeeded) × (now ≡ old)
  ByPhase preparing_exchange r p now = Pending r p × (p.published_identity ≡ old) × (now ≡ old)
  ByPhase ready_to_commit r p now =
      Pending r p × (p.published_identity ≡ old) × ((now ≡ old) ⊎ (now ≡ some candidate))
  ByPhase pre_visibility_recovery r p now =
      Pending r p
      × ((s : AttemptState) → p.pre_visibility_terminal_state ≡ some s → s ≢ AttemptState.succeeded)
      × (now ≡ old)
  ByPhase visible_pending_durability r p now =
      (p.candidate_identity ≡ some candidate) × (now ≡ some candidate)
  ByPhase committed_pending_report r p now =
      (p.candidate_identity ≡ some candidate) × (now ≡ some candidate)
  ByPhase abandoned_fenced r p now = ⊥

  -- A record that the published path agrees with.
  pub record Holds (r : SpoolRecord) (n : Namespace) : Type 0 where
    pub state : PublicationState
    pub there : r.publication ≡ some state
    pub fits : Fits state
    pub by_phase : ByPhase state.phase r state (n path)

  -- What holds at every moment, of the record on disk.
  abbrev pub Safe : Pred
  Safe n c d = Holds d n

  -- The record in memory is the one on disk.
  abbrev pub Level : Pred
  Level n c d = Holds d n × (c ≡ d)

  -- So, and the published path is as before.
  abbrev pub Hidden : Pred
  Hidden n c d = Holds d n × (c ≡ d) × (n path ≡ old)

  -- A record of which the candidate may be restored.
  abbrev pub Restorable : Pred
  Restorable n c d =
      Holds d n
      × ((p : PublicationState) × (c.publication ≡ some p) × Fits p × Pending c p)
      × (n path ≡ old)
