-- ===== src/Core/Ids.antt =====
-- crates/lmt-core/src/ids.rs: the names that serve as identifiers, and attempt numbers.
pub mod Names
use lzu_mirror_tools.Prelude.{
  ℕ, Bool, true, false, ◌&&◌, ◌||◌, List, [], ◌∷◌, Result, ok, err, if◌then◌else◌, ◌==◌, leb,
  length,
}
use lzu_mirror_tools.Prelude.Text.{Text}

-- The kind is the name of the constructor that refused the value.
pub data IdentifierKind : Type 0 where
  mirror_name node_name agent_instance_id request_id attempt_number : IdentifierKind

pub record InvalidIdentifier : Type 0 where
  pub kind : IdentifierKind
  pub value : Text

unfoldable pub is_between : ℕ → ℕ → ℕ → Bool
is_between low high byte = leb low byte && leb byte high

-- `u8::is_ascii_alphanumeric`.
unfoldable pub is_ascii_alphanumeric : ℕ → Bool
unfolding is_between
is_ascii_alphanumeric byte =
    is_between 48 57 byte || is_between 65 90 byte || is_between 97 122 byte

-- A letter, a digit, or one of `-`, `_` and `.`.
unfoldable pub is_name_byte : ℕ → Bool
unfolding is_ascii_alphanumeric
is_name_byte byte = is_ascii_alphanumeric byte || byte == 45 || byte == 95 || byte == 46

unfoldable pub all_bytes : (ℕ → Bool) → Text → Bool
all_bytes p [] = true
all_bytes p (byte ∷ bytes) = p byte && all_bytes p bytes

unfoldable pub valid_name : Text → Bool
unfolding is_name_byte all_bytes
valid_name [] = false
valid_name (byte ∷ bytes) =
    leb (length (byte ∷ bytes)) 63
    && is_ascii_alphanumeric byte
    && all_bytes is_name_byte (byte ∷ bytes)

-- `MirrorName::new` and its like, which the macro writes.
unfoldable pub new_name : IdentifierKind → Text → Result InvalidIdentifier Text
unfolding valid_name
new_name kind value =
    if valid_name value then ok value else err (record { kind = kind; value = value })
