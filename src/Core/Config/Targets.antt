-- ===== src/Core/Config/Targets.antt =====
-- The targets of mirrors in crates/lmt-core/src/config.rs: the components of a path, as
-- `std::path` has them on Unix, and `target_overlap_errors`.
use lzu_mirror_tools.Prelude.{
  ℕ, Bool, true, false, ◌&&◌, ◌||◌, not, List, [], ◌∷◌, ◌++◌, ◌==◌, if◌then◌else◌,
}
use lzu_mirror_tools.Prelude.Text.{Text, codes, text_eq}
use lzu_mirror_tools.Core.Config.{CanonicalMirror, ConfigError, target_overlap}

pub data Component : Type 0 where
  root_dir cur_dir parent_dir : Component
  normal : Text → Component

abbrev pub slash : ℕ
slash = 47

-- The pieces between the slashes of a path.
unfoldable pub split_slash : Text → Text × List Text
split_slash [] = ([], [])
split_slash (byte ∷ rest) =
    let (piece, pieces) = split_slash rest in
    if byte == slash then ([], piece ∷ pieces) else (byte ∷ piece, pieces)

-- A piece behind the first: an empty one and `.` stand for nothing.
unfoldable pub component_of : Text → List Component
component_of piece =
    if text_eq piece [] || text_eq piece (codes ".")
    then []
    else if text_eq piece (codes "..")
    then parent_dir ∷ []
    else normal piece ∷ []

unfoldable pub components_of : List Text → List Component
unfolding component_of
components_of [] = []
components_of (piece ∷ pieces) = component_of piece ++ components_of pieces

unfoldable pub is_absolute : Text → Bool
is_absolute [] = false
is_absolute (byte ∷ rest) = byte == slash

-- The first piece, which is `.` only where the path is relative.
unfoldable pub first_component : Text → Text → List Component
unfolding is_absolute component_of
first_component path piece =
    if is_absolute path
    then root_dir ∷ component_of piece
    else if text_eq piece (codes ".")
    then cur_dir ∷ []
    else component_of piece

-- `Path::components`.
unfoldable pub components : Text → List Component
unfolding split_slash first_component components_of
components path =
    let (piece, pieces) = split_slash path in first_component path piece ++ components_of pieces

unfoldable pub component_eq : Component → Component → Bool
component_eq root_dir root_dir = true
component_eq cur_dir cur_dir = true
component_eq parent_dir parent_dir = true
component_eq (normal a) (normal b) = text_eq a b
component_eq _ _ = false

unfoldable pub is_normal : Component → Bool
is_normal (normal piece) = true
is_normal _ = false

unfoldable pub all_normal : List Component → Bool
unfolding is_normal
all_normal [] = true
all_normal (c ∷ cs) = is_normal c && all_normal cs

-- `Path::starts_with`, which compares whole components.
unfoldable pub starts_with : List Component → List Component → Bool
unfolding component_eq
starts_with cs [] = true
starts_with [] (d ∷ ds) = false
starts_with (c ∷ cs) (d ∷ ds) = component_eq c d && starts_with cs ds

unfoldable pub targets_overlap : CanonicalMirror → CanonicalMirror → Bool
unfolding components starts_with
targets_overlap first second =
    let first_target = components first.document.mirror.target in
    let second_target = components second.document.mirror.target in
    starts_with first_target second_target || starts_with second_target first_target

-- One pair of entries.
unfoldable pub overlap_error : Text × CanonicalMirror → Text × CanonicalMirror → List ConfigError
unfolding targets_overlap
overlap_error (first_name, first) (second_name, second) =
    if not (text_eq first.owner_node second.owner_node)
    then []
    else if targets_overlap first second
    then target_overlap first.owner_node first_name second_name ∷ []
    else []

-- The inner loop: the entries behind one.
unfoldable pub errors_of : Text × CanonicalMirror → List (Text × CanonicalMirror) → List ConfigError
unfolding overlap_error
errors_of entry [] = []
errors_of entry (second ∷ rest) = overlap_error entry second ++ errors_of entry rest

unfoldable pub target_overlap_errors : List (Text × CanonicalMirror) → List ConfigError
unfolding errors_of
target_overlap_errors [] = []
target_overlap_errors (entry ∷ rest) = errors_of entry rest ++ target_overlap_errors rest
