-- ===== src/Core/Config/RsyncArgs.antt =====
-- `atomic_rsync_long_option` and `validate_atomic_rsync_args` of crates/lmt-core/src/config.rs.
use lzu_mirror_tools.Prelude.{
  ℕ, Bool, true, false, ◌||◌, not, Option, none, some, List, [], ◌∷◌, ◌==◌, Result, ok, err,
  if◌then◌else◌, is_none,
}
use lzu_mirror_tools.Prelude.Text.{Text, codes, text_eq}
use lzu_mirror_tools.Prelude.Tables.{exists_where}
use lzu_mirror_tools.Core.Ids.{all_bytes}
use lzu_mirror_tools.Core.Config.{ConfigError, atomic_rsync_option}

pub data AtomicRsyncOptionKind : Type 0 where
  flag value : AtomicRsyncOptionKind
  rejected : Text → AtomicRsyncOptionKind

abbrev pub flag_names : List Text
flag_names =
    codes "archive"
    ∷ codes "recursive"
    ∷ codes "links"
    ∷ codes "perms"
    ∷ codes "times"
    ∷ codes "group"
    ∷ codes "owner"
    ∷ codes "devices"
    ∷ codes "specials"
    ∷ codes "hard-links"
    ∷ codes "acls"
    ∷ codes "xattrs"
    ∷ codes "numeric-ids"
    ∷ codes "prune-empty-dirs"
    ∷ codes "compress"
    ∷ codes "whole-file"
    ∷ codes "checksum"
    ∷ codes "size-only"
    ∷ codes "ignore-times"
    ∷ codes "protect-args"
    ∷ codes "itemize-changes"
    ∷ codes "stats"
    ∷ codes "human-readable"
    ∷ codes "verbose"
    ∷ codes "quiet"
    ∷ codes "progress"
    ∷ codes "copy-links"
    ∷ codes "safe-links"
    ∷ codes "copy-unsafe-links"
    ∷ []

abbrev pub value_names : List Text
value_names =
    codes "include"
    ∷ codes "exclude"
    ∷ codes "filter"
    ∷ codes "include-from"
    ∷ codes "exclude-from"
    ∷ codes "files-from"
    ∷ codes "max-size"
    ∷ codes "min-size"
    ∷ codes "bwlimit"
    ∷ codes "timeout"
    ∷ codes "contimeout"
    ∷ codes "block-size"
    ∷ codes "checksum-choice"
    ∷ codes "compress-choice"
    ∷ []

-- The options that presume a history at the destination.
abbrev pub history_names : List Text
history_names =
    codes "delete"
    ∷ codes "delete-before"
    ∷ codes "delete-during"
    ∷ codes "delete-delay"
    ∷ codes "delete-after"
    ∷ codes "delete-excluded"
    ∷ codes "max-delete"
    ∷ codes "force"
    ∷ codes "ignore-errors"
    ∷ codes "existing"
    ∷ codes "ignore-existing"
    ∷ codes "ignore-non-existing"
    ∷ codes "update"
    ∷ []

-- The options that conflict with the candidate that the tools make themselves.
abbrev pub candidate_names : List Text
candidate_names =
    codes "inplace"
    ∷ codes "append"
    ∷ codes "append-verify"
    ∷ codes "write-devices"
    ∷ codes "link-dest"
    ∷ codes "copy-dest"
    ∷ codes "compare-dest"
    ∷ codes "backup"
    ∷ codes "backup-dir"
    ∷ codes "suffix"
    ∷ codes "partial"
    ∷ codes "partial-dir"
    ∷ codes "remove-source-files"
    ∷ codes "remove-sent-files"
    ∷ codes "dry-run"
    ∷ codes "list-only"
    ∷ []

unfoldable pub is_one_of : List Text → Text → Bool
unfolding exists_where
is_one_of names name = exists_where (text_eq name) names

-- The arms of the match: the first list that has the name decides.
unfoldable pub kind_of : Bool → Bool → Bool → Bool → Option AtomicRsyncOptionKind
kind_of true is_value is_history is_candidate = some AtomicRsyncOptionKind.flag
kind_of false true is_history is_candidate = some AtomicRsyncOptionKind.value
kind_of false false true is_candidate = some (
    AtomicRsyncOptionKind.rejected
      (codes "fresh-generation Atomic publication has no existing destination history"))
kind_of false false false true = some (
    AtomicRsyncOptionKind.rejected
      (codes "option conflicts with LMT-owned Atomic candidate materialization"))
kind_of false false false false = none

unfoldable pub atomic_rsync_long_option : Text → Option AtomicRsyncOptionKind
unfolding is_one_of kind_of
atomic_rsync_long_option name =
    kind_of (is_one_of flag_names name) (is_one_of value_names name) (is_one_of history_names name)
      (is_one_of candidate_names name)

abbrev pub dash : ℕ
dash = 45

abbrev pub equals_sign : ℕ
equals_sign = 61

-- `long.split_once('=')`: the name, and the value behind the first sign.
unfoldable pub split_once : Text → Text × Option Text
split_once [] = ([], none)
split_once (byte ∷ rest) =
    let (name, inline_value) = split_once rest in
    if byte == equals_sign then ([], some rest) else (byte ∷ name, inline_value)

abbrev pub short_letters : Text
short_letters = codes "arlptgoDHAXzsvq"

unfoldable pub is_short : ℕ → Bool
unfolding exists_where
is_short byte = exists_where (λ b. byte == b) short_letters

unfoldable pub starts_with_dash : Text → Bool
starts_with_dash [] = false
starts_with_dash (byte ∷ rest) = byte == dash

unfoldable pub not_empty : Text → Bool
not_empty [] = false
not_empty (byte ∷ rest) = true

-- `index + 1 < args.len() && !args[index + 1].starts_with('-')`.
unfoldable pub is_operand : Option Text → Bool
unfolding starts_with_dash
is_operand none = false
is_operand (some next) = not (starts_with_dash next)

unfoldable pub refuse_option : Text → Text → Result ConfigError Bool
refuse_option argument reason = err (atomic_rsync_option argument reason)

-- An option that takes a value: inline, or as the next argument, which then is passed over.
unfoldable pub check_value : Text → Option Text → Option Text → Result ConfigError Bool
unfolding not_empty is_operand refuse_option
check_value argument (some inline_value) next =
    if not_empty inline_value
    then ok false
    else refuse_option argument (codes "option requires a value")
check_value argument none next =
    if is_operand next then ok true else refuse_option argument (codes "option requires a value")

unfoldable pub check_long :
    Text → Option AtomicRsyncOptionKind → Option Text → Option Text → Result ConfigError Bool
unfolding check_value refuse_option
check_long argument (some AtomicRsyncOptionKind.flag) inline_value next =
    if is_none inline_value
    then ok false
    else refuse_option argument (codes "flag does not accept a value")
check_long argument (some AtomicRsyncOptionKind.value) inline_value next =
    check_value argument inline_value next
check_long argument (some (AtomicRsyncOptionKind.rejected reason)) inline_value next =
    refuse_option argument reason
check_long argument none inline_value next =
    refuse_option argument (codes "option is not in the audited Atomic profile")

unfoldable pub check_short : Text → Text → Result ConfigError Bool
unfolding not_empty all_bytes is_short refuse_option
check_short argument short =
    if not (not_empty short) || not (all_bytes is_short short)
    then refuse_option argument (codes "short option is not in the audited Atomic profile")
    else ok false

-- What stands behind the first dash, if there is one.
unfoldable pub check_dashed : Text → Text → Option Text → Result ConfigError Bool
unfolding check_long check_short split_once atomic_rsync_long_option
check_dashed argument [] next = check_short argument []
check_dashed argument (byte ∷ long) next =
    if byte == dash
    then check_long argument (atomic_rsync_long_option (split_once long).0) (split_once long).1 next
    else check_short argument (byte ∷ long)

-- One turn of the loop: whether it passes over the next argument too.
unfoldable pub check_argument : Text → Option Text → Result ConfigError Bool
unfolding check_dashed refuse_option
check_argument [] next = refuse_option [] (codes "positional arguments are owned by LMT")
check_argument (byte ∷ rest) next =
    if byte == dash
    then check_dashed (byte ∷ rest) rest next
    else refuse_option (byte ∷ rest) (codes "positional arguments are owned by LMT")

unfoldable pub validate_atomic_rsync_args : List Text → Result ConfigError (Unit {0})
unfolding check_argument
validate_atomic_rsync_args [] = ok tt
validate_atomic_rsync_args (argument ∷ []) = elim (check_argument argument none) [
  | err e ↦ err e
  | ok skip ↦ ok tt
]
validate_atomic_rsync_args (argument ∷ next ∷ args) =
    let from_next = validate_atomic_rsync_args (next ∷ args) in
    let behind = validate_atomic_rsync_args args in
    elim (check_argument argument (some next)) [
      | err e ↦ err e
      | ok skip ↦ if skip then behind else from_next
    ]
