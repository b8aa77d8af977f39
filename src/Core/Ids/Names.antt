-- ===== src/Core/Ids/Names.antt =====
-- What a name can be (crates/lmt-core/src/ids.rs).
use lzu_mirror_tools.Prelude.{
  ℕ, ◌≡◌, ◌≢◌, ◌≤◌, Bool, true, [], ◌∷◌, ok, Memᴰ, length, arith, ap, ◌∙◌, and_eq_true, ◌&&◌, leb,
  refl, subst, Bool-cases, inl, inr, ok-injective,
}
use lzu_mirror_tools.Prelude.Text.{Text}
use lzu_mirror_tools.Core.Ids.{
  IdentifierKind, InvalidIdentifier, is_ascii_alphanumeric, is_name_byte, all_bytes, valid_name,
  new_name,
}

all_bytes-Mem :
    (p : ℕ → Bool) (bytes : Text) {byte : ℕ}
    → all_bytes p bytes ≡ true
    → Memᴰ byte bytes
    → p byte ≡ true
unfolding all_bytes
all_bytes-Mem p [] h m = elim m [ ]
all_bytes-Mem p (b ∷ bytes) h (Memᴰ.head e) = ap p e ∙ (and_eq_true (p b) (all_bytes p bytes) h).0
all_bytes-Mem p (b ∷ bytes) h (Memᴰ.tail m) =
    all_bytes-Mem p bytes (and_eq_true (p b) (all_bytes p bytes) h).1 m

not_a_dot : (byte : ℕ) → is_ascii_alphanumeric byte ≡ true → byte ≢ 46
unfolding is_ascii_alphanumeric
not_a_dot byte h e = ground (arith, h, e)

name_byte-range : (b : ℕ) → is_name_byte b ≡ true → (b ≢ 47) × (b ≢ 92) × (33 ≤ b) × (b ≤ 122)
unfolding is_name_byte
name_byte-range b h = (λ e. ground (arith, e), λ e. ground (arith, e), ground arith, ground arith)

-- A name that is accepted, and with it safe as one component of a path: it is the text that was
-- given, has between one and 63 bytes, holds no slash, backslash, space or control byte, and does
-- not begin with a dot, so that it is neither hidden nor `.` or `..`.
pub record IsSafe (value name : Text) : Type 0 where
  pub same : name ≡ value
  pub first : ℕ
  pub rest : Text
  pub shape : name ≡ first ∷ rest
  pub visible : first ≢ 46
  pub short : length name ≤ 63
  pub plain : (b : ℕ) → Memᴰ b name → (b ≢ 47) × (b ≢ 92) × (33 ≤ b) × (b ≤ 122)

all_three : (a b c : Bool) → (a && b && c) ≡ true → (a ≡ true) × (b ≡ true) × (c ≡ true)
all_three a b c h = ground (arith, h)

valid_name-IsSafe : (value : Text) → valid_name value ≡ true → IsSafe value value
unfolding valid_name
valid_name-IsSafe [] h = cc
valid_name-IsSafe (byte ∷ bytes) h =
    let (l, a, n) =
      all_three (leb (length (byte ∷ bytes)) 63) (is_ascii_alphanumeric byte)
        (all_bytes is_name_byte (byte ∷ bytes)) h in
    record {
      same = refl;
      first = byte;
      rest = bytes;
      shape = refl;
      visible = λ e. not_a_dot byte a e;
      short = ground (arith, l);
      plain = λ b m. name_byte-range b (all_bytes-Mem is_name_byte (byte ∷ bytes) n m);
    }

-- A text that is accepted as a name is safe as one component of a path.
pub new_name-IsSafe :
    (kind : IdentifierKind) (value name : Text) → new_name kind value ≡ ok name → IsSafe value name
unfolding new_name
new_name-IsSafe kind value name h = elim (Bool-cases (valid_name value)) [
  | inl t ↦
      subst (IsSafe value) (ok-injective {E = InvalidIdentifier} (ground (arith, h, t)))
        (valid_name-IsSafe value t)
  | inr f ↦ absurd (ground (arith, h, f))
]
