-- ===== src/Core/Config/Validation.antt =====
-- `validate_document` of crates/lmt-core/src/config.rs.
use lzu_mirror_tools.Prelude.{
  Bool, ◌&&◌, not, Option, none, some, List, [], ◌∷◌, ◌++◌, Result, ok, err, if◌then◌else◌, leb,
  ltb, ◌>>=◌, ◌>>◌,
}
use lzu_mirror_tools.Prelude.Text.{Text}
use lzu_mirror_tools.Core.Schedule.{Calendar, ScheduleConfig}
use lzu_mirror_tools.Core.Schedule.Validation.{validate}
use lzu_mirror_tools.Core.Config.{
  PublicationMode, SyncConfig, RunPolicy, MirrorDocument, ConfigError, publication_mode,
  unsafe_target, empty_program, empty_rsync_source, invalid_timeout, invalid_max_attempts,
  invalid_retry_delay, invalid_schedule,
}
use lzu_mirror_tools.Core.Config.Targets.{components, is_absolute, all_normal}
use lzu_mirror_tools.Core.Config.Placeholders.{validate_placeholders}
use lzu_mirror_tools.Core.Config.RsyncArgs.{not_empty, validate_atomic_rsync_args}

unfoldable pub is_safe_target : Text → Bool
unfolding not_empty is_absolute all_normal components
is_safe_target target =
    not_empty target && not (is_absolute target) && all_normal (components target)

unfoldable pub validate_target : Text → Result ConfigError (Unit {0})
unfolding is_safe_target
validate_target target = if is_safe_target target then ok tt else err (unsafe_target target)

unfoldable pub validate_all : List Text → Result ConfigError (Unit {0})
unfolding validate_placeholders
validate_all [] = ok tt
validate_all (value ∷ values) = validate_placeholders value >> validate_all values

-- `once(program).chain(args).chain(cwd.iter())`.
unfoldable pub command_values : Text → List Text → Option Text → List Text
command_values program args none = program ∷ args
command_values program args (some cwd) = program ∷ (args ++ cwd ∷ [])

unfoldable pub validate_rsync : PublicationMode → List Text → Result ConfigError (Unit {0})
unfolding validate_atomic_rsync_args
validate_rsync PublicationMode.direct args = ok tt
validate_rsync PublicationMode.atomic args = validate_atomic_rsync_args args

unfoldable pub validate_sync : PublicationMode → SyncConfig → Result ConfigError (Unit {0})
unfolding not_empty validate_all command_values validate_rsync
validate_sync mode (SyncConfig.command program args cwd) =
    if not_empty program then validate_all (command_values program args cwd) else err empty_program
validate_sync mode (SyncConfig.rsync source args) =
    if not_empty source then validate_rsync mode args else err empty_rsync_source

unfoldable pub validate_run : RunPolicy → Result ConfigError (Unit {0})
validate_run run =
    if not (leb 1 run.timeout_seconds && leb run.timeout_seconds 604800)
    then err invalid_timeout
    else if not (leb 1 run.max_attempts && leb run.max_attempts 10)
    then err invalid_max_attempts
    else if ltb 86400 run.retry_delay_seconds
    then err invalid_retry_delay
    else ok tt

module _ (calendar : Calendar) (split_whitespace : Text → List Text) where
  unfoldable pub validate_schedule : Option ScheduleConfig → Result ConfigError (Unit {0})
  unfolding validate
  validate_schedule none = ok tt
  validate_schedule (some schedule) = elim (validate calendar split_whitespace schedule) [
    | err e ↦ err (invalid_schedule e)
    | ok valid ↦ ok tt
  ]

  unfoldable pub validate_document : MirrorDocument → Result ConfigError (Unit {0})
  unfolding validate_target validate_sync publication_mode validate_run validate_schedule
  validate_document document = do
    target ← validate_target document.mirror.target
    sync ← validate_sync (publication_mode document) document.sync
    run ← validate_run document.run
    validate_schedule document.schedule
