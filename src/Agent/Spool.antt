-- ===== src/Agent/Spool.antt =====
-- apps/lmt-agent/src/spool.rs: the durable record of an attempt. The execution identity is the name
-- of its mirror.
use lzu_mirror_tools.Prelude.{ℕ, suc, Bool, true, false, ◌&&◌, not, Option, none, some, leb}
use lzu_mirror_tools.Prelude.Int.{ℤ}
use lzu_mirror_tools.Prelude.Text.{Text}
use lzu_mirror_tools.Core.State.{
  AttemptState, FailureKind, ProcessRunSpec, AtomicPublicationSpec, is_terminal, attempt_state_eq,
}

pub data PublicationPhase : Type 0 where
  executing preparing_exchange ready_to_commit pre_visibility_recovery : PublicationPhase
  visible_pending_durability committed_pending_report abandoned_fenced : PublicationPhase

unfoldable pub is_protected : PublicationPhase → Bool
is_protected executing = false
is_protected _ = true

unfoldable pub requires_namespace_recovery : PublicationPhase → Bool
requires_namespace_recovery preparing_exchange = true
requires_namespace_recovery ready_to_commit = true
requires_namespace_recovery pre_visibility_recovery = true
requires_namespace_recovery visible_pending_durability = true
requires_namespace_recovery committed_pending_report = true
requires_namespace_recovery _ = false

unfoldable pub is_executing : PublicationPhase → Bool
is_executing executing = true
is_executing _ = false

unfoldable pub is_preparing : PublicationPhase → Bool
is_preparing preparing_exchange = true
is_preparing _ = false

unfoldable pub is_ready : PublicationPhase → Bool
is_ready ready_to_commit = true
is_ready _ = false

unfoldable pub is_recovering : PublicationPhase → Bool
is_recovering pre_visibility_recovery = true
is_recovering _ = false

unfoldable pub is_committed : PublicationPhase → Bool
is_committed committed_pending_report = true
is_committed _ = false

-- `publication_fs::FileIdentity`.
pub record FileIdentity : Type 0 where
  pub device : ℕ
  pub inode : ℕ

pub record PublicationState : Type 0 where
  pub phase : PublicationPhase
  pub mirror : Text
  pub publication_root : Text
  pub published_dir : Text
  pub candidate_dir : Text
  pub basis_dir : Text
  pub exchange_dir : Text
  pub gc_dir : Text
  pub candidate_identity : Option FileIdentity
  pub published_identity : Option FileIdentity
  pub stable_previous_identity : Option FileIdentity
  pub exchange_identity : Option FileIdentity
  pub rotated_previous_path : Option Text
  pub rotated_previous_identity : Option FileIdentity
  pub pre_visibility_terminal_state : Option AttemptState
  pub pre_visibility_failure_kind : Option FailureKind
  pub pre_visibility_message : Option Text

pub record SpoolRecord : Type 0 where
  pub run_id : Text
  pub attempt : ℕ
  pub spec_hash : Text
  pub execution_identity : Option Text
  pub spec : Option ProcessRunSpec
  pub cancel_requested : Bool
  pub state : AttemptState
  pub sequence : ℕ
  pub acknowledged_sequence : ℕ
  pub accepted_at : Option Text
  pub started_at : Option Text
  pub finished_at : Option Text
  pub exit_code : Option ℤ
  pub failure_kind : Option FailureKind
  pub failure_message : Option Text
  pub log_offset : ℕ
  pub log_complete_acknowledged : Bool
  pub publication : Option PublicationState

unfoldable pub initial_publication : AtomicPublicationSpec → PublicationState
initial_publication p = record {
  phase = executing;
  mirror = p.mirror;
  publication_root = p.publication_root;
  published_dir = p.published_dir;
  candidate_dir = p.candidate_dir;
  basis_dir = p.basis_dir;
  exchange_dir = p.exchange_dir;
  gc_dir = p.gc_dir;
  candidate_identity = none;
  published_identity = none;
  stable_previous_identity = none;
  exchange_identity = none;
  rotated_previous_path = none;
  rotated_previous_identity = none;
  pre_visibility_terminal_state = none;
  pre_visibility_failure_kind = none;
  pre_visibility_message = none;
}

unfoldable pub accepted_with_identity :
    Text → ℕ → Text → Option Text → ProcessRunSpec → Text → SpoolRecord
unfolding initial_publication
accepted_with_identity run_id attempt spec_hash execution_identity spec now = record {
  run_id = run_id;
  attempt = attempt;
  spec_hash = spec_hash;
  execution_identity = execution_identity;
  spec = some spec;
  cancel_requested = false;
  state = AttemptState.accepted;
  sequence = 1;
  acknowledged_sequence = 0;
  accepted_at = some now;
  started_at = none;
  finished_at = none;
  exit_code = none;
  failure_kind = none;
  failure_message = none;
  log_offset = 0;
  log_complete_acknowledged = false;
  publication = elim spec.publication [ none ↦ none | some p ↦ some (initial_publication p) ];
}

unfoldable pub cancellation_tombstone : Text → ℕ → Text → Text → SpoolRecord
cancellation_tombstone run_id attempt spec_hash now = record {
  run_id = run_id;
  attempt = attempt;
  spec_hash = spec_hash;
  execution_identity = none;
  spec = none;
  cancel_requested = true;
  state = AttemptState.cancelled;
  sequence = 1;
  acknowledged_sequence = 0;
  accepted_at = none;
  started_at = none;
  finished_at = some now;
  exit_code = none;
  failure_kind = none;
  failure_message = none;
  log_offset = 0;
  log_complete_acknowledged = false;
  publication = none;
}

unfoldable pub terminal :
    AttemptState → Option ℤ → Option FailureKind → Option Text → Text → SpoolRecord → SpoolRecord
terminal state exit_code kind message now r = record r {
  state = state;
  sequence = suc r.sequence;
  finished_at = some now;
  exit_code = exit_code;
  failure_kind = kind;
  failure_message = message;
}

-- The terminal event and the log of the attempt have been acknowledged.
unfoldable pub is_acknowledged : SpoolRecord → Bool
is_acknowledged r = leb r.sequence r.acknowledged_sequence && r.log_complete_acknowledged

unfoldable pub has_protected_publication_evidence : SpoolRecord → Bool
unfolding is_protected is_committed is_acknowledged attempt_state_eq
has_protected_publication_evidence r = elim r.publication [
  | none ↦ false
  | some p ↦
      is_protected p.phase
      && not (
          is_committed p.phase
          && (attempt_state_eq r.state AttemptState.succeeded && is_acknowledged r))
]

unfoldable pub ready_for_cleanup : SpoolRecord → Bool
unfolding has_protected_publication_evidence is_terminal is_acknowledged
ready_for_cleanup r =
    not (has_protected_publication_evidence r) && (is_terminal r.state && is_acknowledged r)

unfoldable pub requires_publication_recovery : SpoolRecord → Bool
unfolding requires_namespace_recovery
requires_publication_recovery r = elim r.publication [
  | none ↦ false
  | some p ↦ requires_namespace_recovery p.phase
]
