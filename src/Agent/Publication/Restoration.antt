-- ===== src/Agent/Publication/Restoration.antt =====
-- `restore_then_terminal` of apps/lmt-agent/src/publication.rs. The identities that a message quotes are
-- left out.
use lzu_mirror_tools.Prelude.{ℕ, Bool, Option, none, some, ok, if◌then◌else◌, is_none}
use lzu_mirror_tools.Prelude.Text.{Text, codes}
use lzu_mirror_tools.Core.State.{AttemptState, FailureKind}
use lzu_mirror_tools.Agent.Spool.{
  FileIdentity, PublicationState, SpoolRecord, executing, pre_visibility_recovery, is_recovering,
  terminal,
}
use lzu_mirror_tools.Agent.Publication.World.{
  Step, ◌>>=◌, ◌>>◌, pure, bail, expect, ensure, identity_eq, same_identity, sync_namespace,
  identity_if_exists, rename_noreplace, persist,
}

-- What the operating system says of paths: whether one is an ordinary directory, and may be published
-- to, the device of its parent, and the path of a previous generation that is set aside.
pub record Facts : Type 0 where
  pub validate_private_directory : Text → Bool
  pub validate_published_target : Text → Bool
  pub parent_device : Text → Option ℕ
  pub rotation_path : Text → Text → ℕ → Text
  pub now : Text

pub data CommitOutcome : Type 0 where
  published aborted : CommitOutcome

abbrev pub get_record : Step SpoolRecord
get_record w = (ok w.current, w)

unfoldable pub publication_state : Step PublicationState
unfolding expect
publication_state w = expect w.current.publication (codes "publication state missing") w

unfoldable pub with_publication : PublicationState → SpoolRecord → SpoolRecord
with_publication p r = record r { publication = some p }

abbrev pub invalid_result : Option FailureKind
invalid_result = some FailureKind.invalid_result

unfoldable pub recovery_intent :
    AttemptState → Option FailureKind → Text → PublicationState → PublicationState
recovery_intent state kind message p = record p {
  phase = pre_visibility_recovery;
  pre_visibility_terminal_state = some state;
  pre_visibility_failure_kind = kind;
  pre_visibility_message = some message;
}

-- The intent is written once.
unfoldable pub persist_intent :
    AttemptState → Option FailureKind → Text → PublicationState → Step (Unit {0})
unfolding recovery_intent with_publication persist is_recovering
persist_intent state kind message p =
    if is_recovering p.phase
    then pure tt
    else (get_record >>= λ r. persist (with_publication (recovery_intent state kind message p) r))

unfoldable pub restore_candidate : PublicationState → FileIdentity → Step (Unit {0})
unfolding same_identity ensure identity_if_exists rename_noreplace
restore_candidate p candidate = do
  staged ← identity_if_exists p.exchange_dir
  if same_identity staged (some candidate)
      then (identity_if_exists p.candidate_dir >>= λ private.
          ensure (is_none private)
            (codes "cannot restore candidate because its private path exists")
          >>= λ _. rename_noreplace p.exchange_dir p.candidate_dir)
      else pure tt

unfoldable pub unrotate :
    PublicationState
    → FileIdentity
    → Text
    → Option FileIdentity
    → Option FileIdentity
    → Step (Unit {0})
unfolding identity_eq ensure rename_noreplace
unrotate p previous rotated none (some there) =
    if identity_eq there previous
    then rename_noreplace rotated p.exchange_dir
    else bail (codes "cannot restore stable previous identity")
unrotate p previous rotated (some here) there =
    ensure (identity_eq here previous) (codes "cannot restore stable previous identity")
unrotate p previous rotated none none = bail (codes "cannot restore stable previous identity")

unfoldable pub restore_stable : PublicationState → Option FileIdentity → Step (Unit {0})
unfolding expect identity_if_exists unrotate
restore_stable p none = pure tt
restore_stable p (some previous) = do
  rotated ← expect p.rotated_previous_path (codes "publication lacks previous rotation path")
  here ← identity_if_exists p.exchange_dir
  there ← identity_if_exists rotated
  unrotate p previous rotated here there

unfoldable pub restore_previous : PublicationState → Step (Unit {0})
unfolding restore_stable
restore_previous p = restore_stable p p.stable_previous_identity

unfoldable pub restored : PublicationState → PublicationState
restored p = record p {
  phase = executing;
  pre_visibility_terminal_state = none;
  pre_visibility_failure_kind = none;
  pre_visibility_message = none;
}

unfoldable pub restore_then_terminal :
    Facts → AttemptState → Option FailureKind → Text → Step (Unit {0})
unfolding publication_state persist_intent restore_candidate restore_previous sync_namespace
    restored with_publication terminal persist expect
restore_then_terminal facts state kind message = do
  before ← publication_state
  persist_intent state kind message before
  p ← publication_state
  candidate ← expect p.candidate_identity (codes "publication lacks candidate identity")
  restore_candidate p candidate
  restore_previous p
  sync_namespace
  r ← get_record
  persist (terminal state none kind (some message) facts.now (with_publication (restored p) r))
