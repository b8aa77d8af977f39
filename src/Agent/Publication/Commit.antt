-- ===== src/Agent/Publication/Commit.antt =====
-- `commit` and `recover` of apps/lmt-agent/src/publication.rs, behind the lock of their mirror. The
-- identities that messages quote, and the measured duration, are left out.
use lzu_mirror_tools.Prelude.{
  ℕ, Bool, true, false, ◌&&◌, not, Option, none, some, ok, err, if◌then◌else◌, coalesce, is_none,
  is_some, ◌==◌,
}
use lzu_mirror_tools.Prelude.Int.{pos}
use lzu_mirror_tools.Prelude.Text.{Text, codes}
use lzu_mirror_tools.Core.State.{AttemptState, FailureKind, attempt_state_eq}
use lzu_mirror_tools.Agent.Spool.{
  PublicationPhase, FileIdentity, PublicationState, SpoolRecord, executing, preparing_exchange,
  ready_to_commit, pre_visibility_recovery, visible_pending_durability, committed_pending_report,
  abandoned_fenced, is_executing, is_preparing, is_ready, terminal,
}
use lzu_mirror_tools.Agent.Publication.World.{
  Step, ◌>>=◌, ◌>>◌, pure, bail, caught, expect, ensure, identity_eq, same_identity, sync_namespace,
  identity_if_exists, rename_noreplace, exchange_paths, persist,
}
use lzu_mirror_tools.Agent.Publication.Restoration.{
  Facts, CommitOutcome, published, aborted, get_record, publication_state, with_publication,
  invalid_result, restore_then_terminal,
}

unfoldable pub preparing :
    Option Text
    → FileIdentity
    → Option FileIdentity
    → Option FileIdentity
    → PublicationState
    → PublicationState
preparing rotated candidate visible stable p = record p {
  phase = preparing_exchange;
  candidate_identity = some candidate;
  published_identity = visible;
  stable_previous_identity = stable;
  exchange_identity = stable;
  rotated_previous_path = rotated;
  rotated_previous_identity = none;
  pre_visibility_terminal_state = none;
  pre_visibility_failure_kind = none;
  pre_visibility_message = none;
}

unfoldable pub on_device : ℕ → Option ℕ → Bool
on_device device none = false
on_device device (some d) = device == d

unfoldable pub persist_preparing : Facts → Step (Unit {0})
unfolding publication_state ensure expect identity_if_exists on_device preparing with_publication
    persist
persist_preparing facts = do
  p ← publication_state
  ensure (is_executing p.phase) (codes "publication preparation requires executing phase")
  ensure (facts.validate_private_directory p.candidate_dir) (codes "private publication path")
  ensure (facts.validate_published_target p.published_dir) (codes "published target")
  found ← identity_if_exists p.candidate_dir
  candidate ← expect found (codes "candidate does not exist after sync success")
  ensure
      (on_device candidate.device (facts.parent_device p.published_dir)
        && on_device candidate.device (facts.parent_device p.exchange_dir))
      (codes "candidate, exchange, and published parent are not on one filesystem")
  visible ← identity_if_exists p.published_dir
  stable ← identity_if_exists p.exchange_dir
  ensure (not (is_none visible && is_some stable))
      (codes "published target is absent while a stable previous generation exists")
  r ← get_record
  persist (
      with_publication
        (preparing
          (elim stable [
            | none ↦ none
            | some s ↦ some (facts.rotation_path p.gc_dir r.run_id r.attempt)
          ])
          candidate visible stable p)
        r)

unfoldable pub rotate :
    PublicationState
    → FileIdentity
    → FileIdentity
    → Text
    → Option FileIdentity
    → Option FileIdentity
    → Step (Unit {0})
unfolding identity_eq ensure rename_noreplace
rotate p candidate previous rotated (some here) none =
    if identity_eq here previous
    then rename_noreplace p.exchange_dir rotated
    else ensure (identity_eq here candidate) (codes "cannot reconstruct stable previous rotation")
rotate p candidate previous rotated none (some there) =
    ensure (identity_eq there previous) (codes "cannot reconstruct stable previous rotation")
rotate p candidate previous rotated (some here) (some there) =
    ensure (identity_eq here candidate) (codes "cannot reconstruct stable previous rotation")
rotate p candidate previous rotated none none =
    bail (codes "cannot reconstruct stable previous rotation")

unfoldable pub is_absent_or : FileIdentity → Option FileIdentity → Bool
unfolding identity_eq
is_absent_or candidate none = true
is_absent_or candidate (some here) = identity_eq here candidate

unfoldable pub rotate_stable :
    PublicationState → FileIdentity → Option FileIdentity → Step (Unit {0})
unfolding expect identity_if_exists rotate is_absent_or ensure
rotate_stable p candidate (some previous) = do
  rotated ←
      expect p.rotated_previous_path
        (codes "preparing_exchange lacks planned previous rotation path")
  here ← identity_if_exists p.exchange_dir
  there ← identity_if_exists rotated
  rotate p candidate previous rotated here there
rotate_stable p candidate none = do
  here ← identity_if_exists p.exchange_dir
  ensure (is_absent_or candidate here)
      (codes "unexpected exchange entry appeared during first publication")

unfoldable pub rotate_previous : PublicationState → FileIdentity → Step (Unit {0})
unfolding rotate_stable
rotate_previous p candidate = rotate_stable p candidate p.stable_previous_identity

unfoldable pub stage :
    PublicationState → FileIdentity → Option FileIdentity → Option FileIdentity → Step (Unit {0})
unfolding identity_eq ensure rename_noreplace
stage p candidate (some private) none =
    if identity_eq private candidate
    then rename_noreplace p.candidate_dir p.exchange_dir
    else bail (codes "cannot stage candidate into fixed exchange slot")
stage p candidate none (some staged) =
    ensure (identity_eq staged candidate) (codes "cannot stage candidate into fixed exchange slot")
stage p candidate _ _ = bail (codes "cannot stage candidate into fixed exchange slot")

unfoldable pub ready : FileIdentity → Option FileIdentity → PublicationState → PublicationState
ready candidate rotated p = record p {
  phase = ready_to_commit;
  exchange_identity = some candidate;
  rotated_previous_identity = rotated;
}

unfoldable pub look_at : Option Text → Step (Option FileIdentity)
unfolding identity_if_exists
look_at none = pure none
look_at (some path) = identity_if_exists path

unfoldable pub prepare_namespace : Step (Unit {0})
unfolding publication_state ensure expect sync_namespace rotate_previous identity_if_exists stage
    look_at ready with_publication persist
prepare_namespace = do
  p ← publication_state
  ensure (is_preparing p.phase)
      (codes "private namespace preparation requires preparing_exchange phase")
  candidate ← expect p.candidate_identity (codes "preparing_exchange lacks candidate identity")
  sync_namespace
  rotate_previous p candidate
  private ← identity_if_exists p.candidate_dir
  staged ← identity_if_exists p.exchange_dir
  stage p candidate private staged
  sync_namespace
  rotated ← look_at p.rotated_previous_path
  r ← get_record
  persist (with_publication (ready candidate rotated p) r)

-- `prepare_namespace`, and the restoration where it fails.
unfoldable pub prepare_or_restore : Facts → Step Bool
unfolding prepare_namespace restore_then_terminal
prepare_or_restore facts = do
  prepared ← caught prepare_namespace
  elim prepared [
    | ok done ↦ pure true
    | err message ↦
        (restore_then_terminal facts AttemptState.failed invalid_result message >>= λ _. pure false)
  ]

unfoldable pub verify_stable : PublicationState → Option FileIdentity → Step (Unit {0})
unfolding expect identity_if_exists same_identity ensure
verify_stable p none = pure tt
verify_stable p (some previous) = do
  rotated ← expect p.rotated_previous_path (codes "ready_to_commit lacks previous rotation path")
  there ← identity_if_exists rotated
  ensure (same_identity there (some previous))
      (codes "stable previous identity is not at its protected rotation path")

unfoldable pub verify_rotation : PublicationState → Step (Unit {0})
unfolding verify_stable
verify_rotation p = verify_stable p p.stable_previous_identity

unfoldable pub verify_ready : PublicationState → Step (Unit {0})
unfolding expect identity_if_exists same_identity ensure verify_rotation
verify_ready p = do
  candidate ← expect p.candidate_identity (codes "ready_to_commit lacks candidate identity")
  staged ← identity_if_exists p.exchange_dir
  ensure (same_identity staged (some candidate))
      (codes "candidate identity is not in fixed exchange slot")
  visible ← identity_if_exists p.published_dir
  ensure (same_identity visible p.published_identity)
      (codes "published identity changed outside LMT")
  verify_rotation p

unfoldable pub with_phase : PublicationPhase → PublicationState → PublicationState
with_phase phase p = record p { phase = phase }

-- The event that the attempt has succeeded.
unfoldable pub succeed : Facts → SpoolRecord → SpoolRecord
unfolding terminal
succeed facts r = terminal AttemptState.succeeded (some (pos 0)) none none facts.now r

unfoldable pub finish_visible : Facts → Step (Unit {0})
unfolding publication_state expect identity_if_exists same_identity ensure sync_namespace with_phase
    with_publication succeed persist
finish_visible facts = do
  p ← publication_state
  candidate ← expect p.candidate_identity (codes "publication lacks candidate identity")
  visible ← identity_if_exists p.published_dir
  ensure (same_identity visible (some candidate)) (
      codes "candidate identity is not visible at published path; visibility outcome is unresolved")
  synced ← caught sync_namespace
  r ← get_record
  elim synced [
    | err e ↦
        (caught (persist (with_publication (with_phase visible_pending_durability p) r)) >>= λ _.
        bail (codes "publication visible but directory durability is pending"))
    | ok durable ↦
        persist (succeed facts (with_publication (with_phase committed_pending_report p) r))
  ]

unfoldable pub make_visible : PublicationState → Step (Unit {0})
unfolding exchange_paths rename_noreplace
make_visible p =
    if is_some p.published_identity
    then exchange_paths p.exchange_dir p.published_dir
    else rename_noreplace p.exchange_dir p.published_dir

unfoldable pub abort : Facts → AttemptState → Option FailureKind → Text → Step CommitOutcome
unfolding restore_then_terminal
abort facts state kind message =
    restore_then_terminal facts state kind message >>= λ _. pure aborted

unfoldable pub commit_verified : Facts → PublicationState → Step CommitOutcome
unfolding verify_ready abort make_visible finish_visible
commit_verified facts p = do
  verified ← caught (verify_ready p)
  elim verified [
    | err message ↦ abort facts AttemptState.failed invalid_result message
    | ok valid ↦ (make_visible p >>= λ _. finish_visible facts >>= λ _. pure published)
  ]

unfoldable pub commit_ready : Facts → Step CommitOutcome
unfolding publication_state ensure abort commit_verified
commit_ready facts = do
  p ← publication_state
  ensure (is_ready p.phase) (codes "visibility commit requires ready_to_commit phase")
  r ← get_record
  if r.cancel_requested
      then abort facts AttemptState.cancelled none (codes "cancelled before visibility")
      else commit_verified facts p

unfoldable pub commit : Facts → Step CommitOutcome
unfolding persist_preparing prepare_or_restore commit_ready
commit facts = do persist_preparing facts; prepared ← prepare_or_restore facts; commit_ready facts

unfoldable pub recover_ready : Facts → Step (Unit {0})
unfolding publication_state expect identity_if_exists same_identity finish_visible commit_ready
    restore_then_terminal
recover_ready facts = do
  p ← publication_state
  candidate ← expect p.candidate_identity (codes "ready_to_commit lacks candidate identity")
  visible ← identity_if_exists p.published_dir
  staged ← identity_if_exists p.exchange_dir
  if same_identity visible (some candidate)
      then finish_visible facts
      else if same_identity staged (some candidate) && same_identity visible p.published_identity
      then (commit_ready facts >>= λ _. pure tt)
      else restore_then_terminal facts AttemptState.failed invalid_result
          (codes "ready_to_commit identities are inconsistent")

unfoldable pub ensure_committed_terminal : Facts → Step (Unit {0})
unfolding attempt_state_eq succeed persist
ensure_committed_terminal facts = do
  r ← get_record
  if attempt_state_eq r.state AttemptState.succeeded then pure tt else persist (succeed facts r)

-- The restoration that the record has as its intent, with the defaults of what it lacks.
unfoldable pub resume_restoration : Facts → PublicationState → Step (Unit {0})
unfolding restore_then_terminal
resume_restoration facts p =
    restore_then_terminal facts
      (elim p.pre_visibility_terminal_state [ none ↦ AttemptState.failed | some s ↦ s ])
      (coalesce p.pre_visibility_failure_kind invalid_result)
      (elim p.pre_visibility_message [
        | none ↦ codes "publication private namespace recovered after an earlier failure"
        | some message ↦ message
      ])

unfoldable pub recover_preparing : Facts → Step (Unit {0})
unfolding prepare_or_restore commit_ready
recover_preparing facts = do
  prepared ← prepare_or_restore facts
  if prepared then (commit_ready facts >>= λ _. pure tt) else pure tt

unfoldable pub recover_phase : Facts → PublicationPhase → PublicationState → Step (Unit {0})
unfolding recover_preparing recover_ready resume_restoration finish_visible
    ensure_committed_terminal
recover_phase facts executing p = pure tt
recover_phase facts preparing_exchange p = recover_preparing facts
recover_phase facts ready_to_commit p = recover_ready facts
recover_phase facts pre_visibility_recovery p = resume_restoration facts p
recover_phase facts visible_pending_durability p = finish_visible facts
recover_phase facts committed_pending_report p = ensure_committed_terminal facts
recover_phase facts abandoned_fenced p = pure tt

unfoldable pub recover : Facts → Step (Unit {0})
unfolding publication_state recover_phase
recover facts = do p ← publication_state; recover_phase facts p.phase p

unfoldable pub recover_phase_before : Facts → PublicationPhase → PublicationState → Step (Unit {0})
unfolding prepare_or_restore resume_restoration finish_visible ensure_committed_terminal
recover_phase_before facts preparing_exchange p = prepare_or_restore facts >>= λ _. pure tt
recover_phase_before facts pre_visibility_recovery p = resume_restoration facts p
recover_phase_before facts visible_pending_durability p = finish_visible facts
recover_phase_before facts committed_pending_report p = ensure_committed_terminal facts
recover_phase_before facts _ p = pure tt

unfoldable pub recover_before_control_plane : Facts → Step (Unit {0})
unfolding publication_state recover_phase_before
recover_before_control_plane facts = do p ← publication_state; recover_phase_before facts p.phase p
