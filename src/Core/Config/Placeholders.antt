-- ===== src/Core/Config/Placeholders.antt =====
-- `validate_placeholders` of crates/lmt-core/src/config.rs.
use lzu_mirror_tools.Prelude.{
  ℕ, zero, suc, Bool, ◌||◌, Option, none, some, List, [], ◌∷◌, ◌==◌, Result, ok, err, if◌then◌else◌,
  length,
}
use lzu_mirror_tools.Prelude.Text.{Text, codes, text_eq}
use lzu_mirror_tools.Prelude.Tables.{exists_where}
use lzu_mirror_tools.Core.Config.{ConfigError, unsupported_placeholder}

abbrev pub open_brace : ℕ
open_brace = 123

abbrev pub close_brace : ℕ
close_brace = 125

abbrev pub placeholders : List Text
placeholders =
    codes "mirror_name"
    ∷ codes "run_id"
    ∷ codes "attempt"
    ∷ codes "node_name"
    ∷ codes "mirror_root"
    ∷ codes "target_dir"
    ∷ codes "published_dir"
    ∷ []

unfoldable pub is_placeholder : Text → Bool
unfolding exists_where
is_placeholder name = exists_where (text_eq name) placeholders

unfoldable pub is_brace : ℕ → Bool
is_brace byte = byte == open_brace || byte == close_brace

-- `rest.find(['{', '}'])`: the text before the first brace, the brace, and the text after it.
unfoldable pub find_brace : Text → Option (Text × ℕ × Text)
unfolding is_brace
find_brace [] = none
find_brace (byte ∷ rest) =
    let found = find_brace rest in
    if is_brace byte then some ([], byte, rest) else elim found [
      | none ↦ none
      | some (before, brace, after) ↦ some (byte ∷ before, brace, after)
    ]

-- `after.find('}')`, with the texts before and after it.
unfoldable pub find_close : Text → Option (Text × Text)
find_close [] = none
find_close (byte ∷ rest) =
    let found = find_close rest in
    if byte == close_brace
    then some ([], rest)
    else elim found [ none ↦ none | some (before, after) ↦ some (byte ∷ before, after) ]

-- The name of a placeholder, which the text before the closing brace has to be, and the text to go
-- on with.
unfoldable pub next_placeholder : Text → Result ConfigError Text
unfolding find_close is_placeholder
next_placeholder after = elim (find_close after) [
  | none ↦ err (unsupported_placeholder after)
  | some (name, rest) ↦ if is_placeholder name then ok rest else err (unsupported_placeholder name)
]

-- The loop; each turn takes two bytes at least, so that the length of the text is fuel enough.
unfoldable pub validate_rest : ℕ → Text → Result ConfigError (Unit {0})
unfolding find_brace next_placeholder
validate_rest zero rest = err (unsupported_placeholder rest)
validate_rest (suc fuel) rest = elim (find_brace rest) [
  | none ↦ ok tt
  | some (before, brace, after) ↦
      if brace == close_brace
      then err (unsupported_placeholder (brace ∷ after))
      else elim (next_placeholder after) [ err e ↦ err e | ok next ↦ validate_rest fuel next ]
]

unfoldable pub validate_placeholders : Text → Result ConfigError (Unit {0})
unfolding validate_rest
validate_placeholders value = validate_rest (suc (length value)) value
