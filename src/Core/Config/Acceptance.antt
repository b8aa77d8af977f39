-- ===== src/Core/Config/Acceptance.antt =====
-- What `validate_document` of crates/lmt-core/src/config.rs promises of a document that it accepts.
use lzu_mirror_tools.Prelude.{◌≡◌, ◌≤◌, true, false, Memᴰ}
use lzu_mirror_tools.Prelude.Text.{Text}
use lzu_mirror_tools.Core.Config.{
  PublicationMode, SyncConfig, RunPolicy, MirrorDocument, publication_mode,
}
use lzu_mirror_tools.Core.Config.Targets.{components, is_absolute, all_normal}
use lzu_mirror_tools.Core.Config.Grammar.{Template}
use lzu_mirror_tools.Core.Config.RsyncArgs.{not_empty, starts_with_dash}
use lzu_mirror_tools.Core.Config.Audit.{IsAudited}
use lzu_mirror_tools.Core.Config.Validation.{command_values}

-- A target below the root of the mirrors: it has no root, and no component of it is `.` or `..`.
pub record IsBelow (target : Text) : Type 0 where
  pub present : not_empty target ≡ true
  pub relative : is_absolute target ≡ false
  pub plain : all_normal (components target) ≡ true

pub record IsBounded (run : RunPolicy) : Type 0 where
  pub timeout : (1 ≤ run.timeout_seconds) × (run.timeout_seconds ≤ 604800)
  pub attempts : (1 ≤ run.max_attempts) × (run.max_attempts ≤ 10)
  pub delay : run.retry_delay_seconds ≤ 86400

-- A command of templates, or arguments of rsync that are audited where publication is atomic.
abbrev pub IsSyncable : PublicationMode → SyncConfig → Type 0
IsSyncable mode (SyncConfig.command program args cwd) =
    (not_empty program ≡ true)
    × ((value : Text) → Memᴰ value (command_values program args cwd) → Template value)
IsSyncable mode (SyncConfig.rsync source args) =
    (not_empty source ≡ true)
    × (mode ≡ PublicationMode.atomic
        → (argument : Text) → Memᴰ argument args
        → starts_with_dash argument ≡ true
        → IsAudited argument)

-- A document that is accepted: its parts are.
pub record IsAccepted (document : MirrorDocument) : Type 0 where
  pub target : IsBelow document.mirror.target
  pub run : IsBounded document.run
  pub sync : IsSyncable (publication_mode document) document.sync
