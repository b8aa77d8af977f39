-- ===== src/Store/Revisions.antt =====
-- The revisions of the configuration (crates/lmt-store/src/lib.rs): the plan of a bundle, and
-- `Store::apply`. The summary of a revision is left out, as no statement reads it.
pub mod Plan
pub mod Effects
pub mod Apply
pub mod Settling
pub mod Soundness
pub mod View
pub mod Tables
pub mod Installed
pub mod Changes
pub mod Sorting
pub mod Coverage
pub mod Quiescence
pub mod Convergence
use lzu_mirror_tools.Prelude.{ℕ, Bool, true, false, Option, none, some, List, Result}
use lzu_mirror_tools.Prelude.Int.{ℤ}
use lzu_mirror_tools.Prelude.Text.{Text}
use lzu_mirror_tools.Prelude.Tables.{find_where}
use lzu_mirror_tools.Core.Schedule.{ScheduleConfig, ScheduleRuntime}
use lzu_mirror_tools.Core.Ids.{InvalidIdentifier}
use lzu_mirror_tools.Core.Config.{PublicationMode, CanonicalMirror, CanonicalBundle}
use lzu_mirror_tools.Prelude.Text.{text_eq}
use lzu_mirror_tools.Store.Rows.{StoreError}

pub data ChangeKind : Type 0 where
  create update remove move : ChangeKind

pub data PublicationChange : Type 0 where
  direct_to_atomic atomic_to_direct : PublicationChange

pub record ConfigChange : Type 0 where
  pub kind : ChangeKind
  pub mirror : Text
  pub from_generation : Option ℕ
  pub to_generation : Option ℕ
  pub from_node : Option Text
  pub to_node : Option Text
  pub publication_change : Option PublicationChange

pub record ConfigPlan : Type 0 where
  pub base_revision : ℕ
  pub bundle_hash : Text
  pub changes : List ConfigChange

-- What the transactions call: `activate_schedule` with its error as one of the store,
-- `ScheduleConfig::semantic_hash`, `publication_mode_from_toml` with the message of its error, and
-- the message of a name that is refused.
pub record ConfigLibrary : Type 0 where
  pub activate : ScheduleConfig → ℤ → Result StoreError ScheduleRuntime
  pub semantic_hash : ScheduleConfig → Text
  pub stored_mode : Text → Result Text PublicationMode
  pub identifier_message : InvalidIdentifier → Text

-- `bundle.mirrors.get`.
unfoldable pub get_mirror : Text → CanonicalBundle → Option (Text × CanonicalMirror)
unfolding find_where
get_mirror name bundle =
    find_where (λ (p : Text × CanonicalMirror). text_eq p.0 name) bundle.mirrors

unfoldable pub is_move : ChangeKind → Bool
is_move ChangeKind.move = true
is_move _ = false

unfoldable pub is_create : ChangeKind → Bool
is_create ChangeKind.create = true
is_create _ = false
