-- ===== src/Core/Config.antt =====
-- crates/lmt-core/src/config.rs: the documents of mirrors, and the bundle that a revision applies.
-- The TOML parser and printer, the digest and the schedule checks are parameters of what uses them.
pub mod RsyncArgs
pub mod Audit
pub mod Targets
pub mod Separation
pub mod Validation
pub mod Acceptance
pub mod Placeholders
pub mod Grammar
use lzu_mirror_tools.Prelude.{ℕ, Bool, Option, none, some, List}
use lzu_mirror_tools.Prelude.Text.{Text}
use lzu_mirror_tools.Core.Schedule.{ScheduleConfig, ScheduleError}

pub record BundleFile : Type 0 where
  pub path : Text
  pub contents : Text

pub data PublicationMode : Type 0 where
  direct atomic : PublicationMode

pub record PublicationConfig : Type 0 where
  pub mode : PublicationMode

pub record MirrorConfig : Type 0 where
  pub name : Text
  pub enabled : Bool
  pub description : Text
  pub target : Text

pub data SyncConfig : Type 0 where
  command : Text → List Text → Option Text → SyncConfig
  rsync : Text → List Text → SyncConfig

pub record RunPolicy : Type 0 where
  pub timeout_seconds : ℕ
  pub max_attempts : ℕ
  pub retry_delay_seconds : ℕ

-- `runner` has one kind only, `process`, and is left out.
pub record MirrorDocument : Type 0 where
  pub mirror : MirrorConfig
  pub schedule : Option ScheduleConfig
  pub sync : SyncConfig
  pub publication : Option PublicationConfig
  pub run : RunPolicy

unfoldable pub publication_mode : MirrorDocument → PublicationMode
publication_mode document = elim document.publication [
  | none ↦ PublicationMode.direct
  | some publication ↦ publication.mode
]

pub record CanonicalMirror : Type 0 where
  pub owner_node : Text
  pub document : MirrorDocument
  pub canonical_toml : Text
  pub config_hash : Text

-- The map of the mirrors as the list of its entries, in the order of their names.
pub record CanonicalBundle : Type 0 where
  pub mirrors : List (Text × CanonicalMirror)
  pub bundle_hash : Text

pub data ConfigError : Type 0 where
  invalid_path : Text → ConfigError
  invalid_toml : Text → Text → ConfigError
  duplicate_mirror : Text → ConfigError
  name_mismatch : Text → Text → ConfigError
  unsafe_target : Text → ConfigError
  empty_program : ConfigError
  invalid_timeout : ConfigError
  invalid_max_attempts : ConfigError
  invalid_retry_delay : ConfigError
  empty_rsync_source : ConfigError
  invalid_schedule : ScheduleError → ConfigError
  unsupported_placeholder : Text → ConfigError
  missing_publication_root : ConfigError
  target_overlap : Text → Text → Text → ConfigError
  atomic_rsync_option : Text → Text → ConfigError
