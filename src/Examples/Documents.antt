-- ===== src/Examples/Documents.antt =====
-- Mirror documents that are accepted.
use lzu_mirror_tools.Prelude.Tables.{
  update_where, exists_where, where_rows, find_where, min_by, select_first, join,
}
use lzu_mirror_tools.Core.Ids.{
  is_between, is_ascii_alphanumeric, is_name_byte, all_bytes, valid_name, new_name,
}
use lzu_mirror_tools.Core.Config.RsyncArgs.{
  is_one_of, kind_of, atomic_rsync_long_option, split_once, is_short, starts_with_dash, not_empty,
  is_operand, refuse_option, check_value, check_long, check_short, check_dashed, check_argument,
  validate_atomic_rsync_args,
}
use lzu_mirror_tools.Core.Config.Targets.{
  split_slash, component_of, components_of, is_absolute, first_component, components, component_eq,
  is_normal, all_normal, starts_with, targets_overlap, overlap_error, errors_of,
  target_overlap_errors,
}
use lzu_mirror_tools.Core.Config.Placeholders.{validate_placeholders}
use lzu_mirror_tools.Prelude.{◌≡◌, ◌↔◌, refl, true, none, some, List, [], ◌∷◌, Memᴰ, ok}
use lzu_mirror_tools.Prelude.Text.{Text, codes, text_eq, text_lt}
use lzu_mirror_tools.Core.Config.{CanonicalMirror, MirrorDocument, SyncConfig, PublicationMode}
use lzu_mirror_tools.Core.Config.Grammar.{Template, validate_placeholders_iff}
use lzu_mirror_tools.Core.Config.Audit.{IsAudited, validate_atomic_rsync_args-IsAudited}
use lzu_mirror_tools.Core.Config.Separation.{target_overlap_errors-separate}
use lzu_mirror_tools.Examples.{document}

abbrev command_line : Text
command_line = codes "sync --to {target_dir} {run_id}"

validate_placeholders_iff_example :
    (validate_placeholders command_line ≡ ok tt) ↔ Template command_line
validate_placeholders_iff_example = validate_placeholders_iff command_line

abbrev rsync_args : List Text
rsync_args = codes "-av" ∷ codes "--exclude" ∷ codes "tmp" ∷ codes "--timeout=60" ∷ []

validate_atomic_rsync_args-IsAudited_example : IsAudited (codes "--timeout=60")
unfolding update_where exists_where where_rows find_where min_by select_first join text_eq text_lt
    is_between is_ascii_alphanumeric is_name_byte all_bytes valid_name new_name is_one_of kind_of
    atomic_rsync_long_option split_once is_short starts_with_dash not_empty is_operand refuse_option
    check_value check_long check_short check_dashed check_argument validate_atomic_rsync_args
validate_atomic_rsync_args-IsAudited_example =
    validate_atomic_rsync_args-IsAudited rsync_args (codes "--timeout=60") refl
      (Memᴰ.tail (Memᴰ.tail (Memᴰ.tail (Memᴰ.head refl)))) refl

abbrev words : Text → List Text
words text = text ∷ []

abbrev mirrored : MirrorDocument
mirrored = record document {
  sync = SyncConfig.command (codes "ftpsync") (command_line ∷ []) none;
  publication = some (record { mode = PublicationMode.atomic });
}

abbrev entry : Text → Text × CanonicalMirror
entry name = (
  name,
  record {
    owner_node = codes "n1";
    document = record document {
      mirror = record { name = name; enabled = true; description = []; target = name };
    };
    canonical_toml = [];
    config_hash = [];
  },
)

target_overlap_errors-separate_example : entry (codes "debian") ≡ entry (codes "debian")
unfolding update_where exists_where where_rows find_where min_by select_first join text_eq text_lt
    split_slash component_of components_of is_absolute first_component components component_eq
    is_normal all_normal starts_with targets_overlap overlap_error errors_of target_overlap_errors
target_overlap_errors-separate_example =
    target_overlap_errors-separate (entry (codes "debian-cd") ∷ entry (codes "debian") ∷ [])
      (entry (codes "debian")) (entry (codes "debian")) (components (codes "debian/dists/stable"))
      refl (Memᴰ.tail (Memᴰ.head refl)) (Memᴰ.tail (Memᴰ.head refl)) refl refl refl
