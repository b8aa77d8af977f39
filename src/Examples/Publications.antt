-- ===== src/Examples/Publications.antt =====
-- A publication that stops right after its exchange took effect, and is recovered.
use lzu_mirror_tools.Agent.Publication.World.{
  continue, expect, ensure, identity_eq, same_identity, first_outcome, next_outcome, ended,
  sync_namespace, looked, identity_if_exists, put, renamed, rename_noreplace, exchange_paths,
  persisted, persist, restart,
}
use lzu_mirror_tools.Agent.Publication.Restoration.{
  publication_state, with_publication, recovery_intent, persist_intent, restore_candidate, unrotate,
  restore_stable, restore_previous, restored, restore_then_terminal,
}
use lzu_mirror_tools.Agent.Publication.Commit.{
  preparing, on_device, persist_preparing, rotate, is_absent_or, rotate_stable, rotate_previous,
  stage, ready, look_at, prepare_namespace, prepare_or_restore, verify_stable, verify_rotation,
  verify_ready, with_phase, succeed, finish_visible, make_visible, abort, commit_verified,
  commit_ready, commit, recover_ready, ensure_committed_terminal, resume_restoration,
  recover_preparing, recover_phase, recover, recover_phase_before, recover_before_control_plane,
}
use lzu_mirror_tools.Prelude.{
  ◌≡◌, ◌≢◌, ◌⊎◌, refl, ℕ, true, none, some, List, [], ◌∷◌, arith, if◌then◌else◌, false, subst,
}
use lzu_mirror_tools.Prelude.Text.{text_eq_refl, Text, codes, text_eq, text_lt}
use lzu_mirror_tools.Core.State.{
  AttemptState, ProcessRunSpec, run_is_terminal, is_terminal, attempt_state_eq, allows,
  project_attempt_event, validate_attempt_transition,
}
use lzu_mirror_tools.Agent.Spool.{
  FileIdentity, SpoolRecord, is_protected, requires_namespace_recovery, is_executing, is_preparing,
  is_ready, is_recovering, is_committed, initial_publication, accepted_with_identity,
  cancellation_tombstone, terminal, is_acknowledged, has_protected_publication_evidence,
  ready_for_cleanup, requires_publication_recovery,
}
use lzu_mirror_tools.Agent.Publication.Restoration.{Facts}
use lzu_mirror_tools.Agent.Publication.World.{World, Outcome, done, lost}
use lzu_mirror_tools.Agent.Publication.Atomicity.{Reached, publication_is_atomic}
use lzu_mirror_tools.Agent.Publication.Starting.{Fresh}

abbrev facts : Facts
facts = record {
  validate_private_directory = λ path. true;
  validate_published_target = λ path. true;
  parent_device = λ path. some 1;
  rotation_path = λ gc run attempt. codes "/p/gc/previous";
  now = codes "2026-01-01T00:00:00Z";
}

abbrev spec : ProcessRunSpec
spec = record {
  runner = codes "rsync";
  program = codes "rsync";
  args = [];
  cwd = none;
  timeout_seconds = 60;
  mirror_root = codes "/m";
  target_dir = codes "/p/c";
  publication = some (record {
    mirror = codes "debian";
    publication_root = codes "/p";
    published_dir = codes "/m/d";
    candidate_dir = codes "/p/c";
    basis_dir = codes "/p/x";
    exchange_dir = codes "/p/x";
    gc_dir = codes "/p/gc";
  });
}

abbrev candidate : FileIdentity
candidate = record { device = 1; inode = 7 }

abbrev before : FileIdentity
before = record { device = 1; inode = 5 }

abbrev accepted : SpoolRecord
accepted =
    accepted_with_identity (codes "run-1") 1 (codes "h") none spec (codes "2026-01-01T00:00:00Z")

different : (a b : Text) → text_eq a b ≡ false → a ≢ b
different a b f e =
    let g : text_eq b b ≡ false = subst (λ x. text_eq x b ≡ false) e f in
    let t = text_eq_refl b in ground (arith, g, t)

outside : (gc run : Text) (attempt : ℕ) → facts.rotation_path gc run attempt ≢ codes "/m/d"
unfolding text_eq
outside gc run attempt = different (codes "/p/gc/previous") (codes "/m/d") refl

-- The candidate and the tree that is published, and all goes well up to the exchange.
abbrev start : World
start = record {
  namespace = λ path.
      if text_eq path (codes "/m/d")
      then some before
      else (if text_eq path (codes "/p/c") then some candidate else none);
  current = accepted;
  durable = accepted;
  outcomes =
      done ∷ done ∷ done ∷ done ∷ done ∷ done ∷ done ∷ done ∷ done ∷ done ∷ done ∷ done ∷ done
      ∷ lost ∷ [];
}

abbrev well : List Outcome
well = done ∷ done ∷ done ∷ done ∷ done ∷ []

abbrev stopped : World
stopped = (commit facts start).1

abbrev after : World
after = (recover facts (restart well stopped)).1

after_succeeds : after.durable.state ≡ AttemptState.succeeded
unfolding is_protected requires_namespace_recovery is_executing is_preparing is_ready is_recovering
    is_committed initial_publication accepted_with_identity cancellation_tombstone terminal
    is_acknowledged has_protected_publication_evidence ready_for_cleanup
    requires_publication_recovery continue expect ensure identity_eq same_identity first_outcome
    next_outcome ended sync_namespace looked identity_if_exists put renamed rename_noreplace
    exchange_paths persisted persist restart publication_state with_publication recovery_intent
    persist_intent restore_candidate unrotate restore_stable restore_previous restored
    restore_then_terminal preparing on_device persist_preparing rotate is_absent_or rotate_stable
    rotate_previous stage ready look_at prepare_namespace prepare_or_restore verify_stable
    verify_rotation verify_ready with_phase succeed finish_visible make_visible abort
    commit_verified commit_ready commit recover_ready ensure_committed_terminal resume_restoration
    recover_preparing recover_phase recover recover_phase_before recover_before_control_plane
    text_eq text_lt run_is_terminal is_terminal attempt_state_eq allows project_attempt_event
    validate_attempt_transition
after_succeeds = refl

fresh :
    Fresh facts
      (codes "/m/d")
      (some before)
      candidate
      outside
      start.namespace
      start.current
      start.durable
unfolding is_protected requires_namespace_recovery is_executing is_preparing is_ready is_recovering
    is_committed initial_publication accepted_with_identity cancellation_tombstone terminal
    is_acknowledged has_protected_publication_evidence ready_for_cleanup
    requires_publication_recovery text_eq text_lt
fresh = record {
  level = refl;
  state = initial_publication (record {
    mirror = codes "debian";
    publication_root = codes "/p";
    published_dir = codes "/m/d";
    candidate_dir = codes "/p/c";
    basis_dir = codes "/p/x";
    exchange_dir = codes "/p/x";
    gc_dir = codes "/p/gc";
  });
  there = refl;
  fits = record {
    published = refl;
    private = different (codes "/p/c") (codes "/m/d") refl;
    exchange = different (codes "/p/x") (codes "/m/d") refl;
    rotated = λ x e. cc;
  };
  phase = refl;
  unfinished = λ e. cc;
  before = refl;
  candidate_there = refl;
}

publication_is_atomic_example :
    ((after.namespace (codes "/m/d") ≡ some before)
      ⊎ (after.namespace (codes "/m/d") ≡ some candidate))
    × (after.durable.state ≡ AttemptState.succeeded
        → after.namespace (codes "/m/d") ≡ some candidate)
publication_is_atomic_example =
    publication_is_atomic facts (codes "/m/d") (some before) candidate outside start fresh
      (Reached.recovered well Reached.committed)
