-- ===== src/Core/Config/Grammar.antt =====
-- The texts with placeholders as a grammar, which `validate_placeholders` of
-- crates/lmt-core/src/config.rs decides.
use lzu_mirror_tools.Prelude.{
  ◌≡◌, ◌↔◌, ◌&&◌, refl, sym, ap, ap₂, subst, ok-injective, ◌∙◌, ℕ, zero, suc, ◌<◌, Bool, true,
  false, not, Option, none, some, [], ◌∷◌, ◌++◌, ◌==◌, ok, if◌then◌else◌, length, length-append,
  arith, inl, inr, Bool-cases, Option-cases, Result-cases,
}
use lzu_mirror_tools.Prelude.Text.{Text, text_eq, text_eq→eq}
use lzu_mirror_tools.Prelude.Tables.Select.{exists_where-cases, All-Mem}
use lzu_mirror_tools.Core.Ids.{all_bytes}
use lzu_mirror_tools.Core.Config.{ConfigError}
use lzu_mirror_tools.Core.Config.Placeholders.{
  open_brace, close_brace, placeholders, is_placeholder, is_brace, find_brace, find_close,
  next_placeholder, validate_rest, validate_placeholders,
}

abbrev pub is_plain : ℕ → Bool
is_plain byte = not (byte == open_brace) && not (byte == close_brace)

-- Bytes other than braces, in which known names stand between braces.
pub data Template : Text → Type 0 where
  plain : (s : Text) → all_bytes is_plain s ≡ true → Template s
  placeholder :
      (before name rest : Text)
      → all_bytes is_plain before ≡ true
      → is_placeholder name ≡ true
      → Template rest
      → Template (before ++ open_brace ∷ (name ++ close_brace ∷ rest))

-- A text split at its first brace, or free of braces.
abbrev Found : Text → Option (Text × ℕ × Text) → Type 0
Found s none = all_bytes is_plain s ≡ true
Found s (some (before, brace, after)) =
    (s ≡ before ++ brace ∷ after) × (all_bytes is_plain before ≡ true) × (is_brace brace ≡ true)

find_brace_step :
    (b : ℕ) (s : Text) (t : Bool)
    → is_brace b ≡ t
    → (o : Option (Text × ℕ × Text)) → Found s o
    → Found (b ∷ s) (
        if t
        then some ([], b, s)
        else elim o [ none ↦ none | some (before, brace, after) ↦ some (b ∷ before, brace, after) ])
unfolding all_bytes is_brace
find_brace_step b s true e o f = (refl, refl, e)
find_brace_step b s false e none f = ground (arith, e, f)
find_brace_step b s false e (some (x, y, z)) f =
    (ap (λ (l : Text). b ∷ l) f.0, ground (arith, e, f.1), f.2)

find_brace-Found : (s : Text) → Found s (find_brace s)
unfolding find_brace all_bytes is_brace
find_brace-Found [] = refl
find_brace-Found (b ∷ s) = find_brace_step b s (is_brace b) refl (find_brace s) (find_brace-Found s)

-- A text split at its first closing brace.
abbrev Closed : Text → Option (Text × Text) → Type 0
Closed s none = Unit
Closed s (some (name, rest)) = s ≡ name ++ close_brace ∷ rest

find_close_step :
    (b : ℕ) (s : Text) (t : Bool)
    → (b == close_brace) ≡ t
    → (o : Option (Text × Text)) → Closed s o
    → Closed (b ∷ s) (
        if t
        then some ([], s)
        else elim o [ none ↦ none | some (before, after) ↦ some (b ∷ before, after) ])
find_close_step b s true e o f = ap (λ (c : ℕ). c ∷ s) (ground (arith, e))
find_close_step b s false e none f = tt
find_close_step b s false e (some (x, y)) f = ap (λ (l : Text). b ∷ l) f

find_close-Closed : (s : Text) → Closed s (find_close s)
unfolding find_close
find_close-Closed [] = tt
find_close-Closed (b ∷ s) =
    find_close_step b s (b == close_brace) refl (find_close s) (find_close-Closed s)

-- What the loop goes on with stands behind a known name and its closing brace.
next_placeholder-ok :
    (after : Text) {rest : Text}
    → next_placeholder after ≡ ok rest
    → (name : Text) × (after ≡ name ++ close_brace ∷ rest) × (is_placeholder name ≡ true)
unfolding next_placeholder
next_placeholder-ok after {rest} h = elim (Option-cases (find_close after)) [
  | inl e ↦ absurd (ground (arith, h, e))
  | inr ((name, r), e) ↦ elim (Bool-cases (is_placeholder name)) [
    | inr f ↦ absurd (ground (arith, h, e, f))
    | inl t ↦
        let same : r ≡ rest = ok-injective {E = ConfigError} (ground (arith, h, e, t)) in
        (
          name,
          subst (λ (x : Text). after ≡ name ++ close_brace ∷ x) same
              (subst (Closed after) e (find_close-Closed after)),
          t,
        )
  ]
]

validate_rest-Template : (fuel : ℕ) (s : Text) → validate_rest fuel s ≡ ok tt → Template s
unfolding validate_rest
validate_rest-Template zero s h = cc
validate_rest-Template (suc fuel) s h = elim (Option-cases (find_brace s)) [
  | inl e ↦ plain s (subst (Found s) e (find_brace-Found s))
  | inr ((before, brace, after), e) ↦
      let (whole, free, found) = subst (Found s) e (find_brace-Found s) in
      elim (Bool-cases (brace == close_brace)) [
        | inl t ↦ absurd (ground (arith, h, e, t))
        | inr f ↦ elim (Result-cases (next_placeholder after)) [
          | inr (x, n) ↦ absurd (ground (arith, h, e, f, n))
          | inl (rest, n) ↦
              let (name, split, known) = next_placeholder-ok after n in
              let opens : brace ≡ open_brace = unfold is_brace in ground (arith, found, f) in
              subst Template
                (sym (
                  whole
                  ∙ ap (λ (l : Text). before ++ l) (ap₂ (λ (x : ℕ) (y : Text). x ∷ y) opens split)))
                (placeholder before name rest free known
                  (validate_rest-Template fuel rest (ground (arith, h, e, f, n))))
        ]
      ]
]

find_brace_plain : (s : Text) → all_bytes is_plain s ≡ true → find_brace s ≡ none
unfolding find_brace all_bytes is_brace
find_brace_plain [] h = refl
find_brace_plain (b ∷ s) h =
    let rest = find_brace_plain s (ground (arith, h)) in
    let f : is_brace b ≡ false = ground (arith, h) in rw (f, rest) refl

find_brace_first :
    (before : Text) (after : Text)
    → all_bytes is_plain before ≡ true
    → find_brace (before ++ open_brace ∷ after) ≡ some (before, open_brace, after)
unfolding find_brace all_bytes is_brace
find_brace_first [] after h = refl
find_brace_first (b ∷ before) after h =
    let rest = find_brace_first before after (ground (arith, h)) in
    let f : is_brace b ≡ false = ground (arith, h) in rw (f, rest) refl

abbrev is_name : ℕ → Bool
is_name byte = not (byte == close_brace)

find_close_first :
    (name rest : Text)
    → all_bytes is_name name ≡ true
    → find_close (name ++ close_brace ∷ rest) ≡ some (name, rest)
unfolding find_close all_bytes
find_close_first [] rest h = refl
find_close_first (b ∷ name) rest h =
    let later = find_close_first name rest (ground (arith, h)) in
    let f : (b == close_brace) ≡ false = ground (arith, h) in rw (f, later) refl

placeholder-closed : (name : Text) → is_placeholder name ≡ true → all_bytes is_name name ≡ true
unfolding is_placeholder all_bytes
placeholder-closed name h =
    let (p, m, t) = exists_where-cases (text_eq name) placeholders h in
    subst (λ (x : Text). all_bytes is_name x ≡ true) (sym (text_eq→eq name p t))
      (All-Mem (λ (x : Text). all_bytes is_name x ≡ true) placeholders
        (refl, (refl, (refl, (refl, (refl, (refl, (refl, tt))))))) m)

next_placeholder_known :
    (name rest : Text)
    → is_placeholder name ≡ true
    → next_placeholder (name ++ close_brace ∷ rest) ≡ ok rest
unfolding next_placeholder
next_placeholder_known name rest h =
    rw (next_placeholder, find_close_first name rest (placeholder-closed name h), h) refl

Template-validate_rest :
    {s : Text} (fuel : ℕ) → Template s → length s < fuel → validate_rest fuel s ≡ ok tt
unfolding validate_rest
Template-validate_rest zero t l = absurd (omega (arith, l))
Template-validate_rest (suc fuel) (plain s h) l = rw (validate_rest, find_brace_plain s h) refl
Template-validate_rest (suc fuel) (placeholder before name rest free known t) l =
    rw
      (
        validate_rest,
        find_brace_first before (name ++ close_brace ∷ rest) free,
        next_placeholder_known name rest known,
      )
      (Template-validate_rest fuel t (
        omega (
          arith,
          l,
          length-append before (open_brace ∷ (name ++ close_brace ∷ rest)),
          length-append name (close_brace ∷ rest),
        )))

-- `validate_placeholders` accepts exactly the texts of the grammar: bytes other than braces, in
-- which the names of placeholders stand between braces.
pub validate_placeholders_iff :
    (value : Text) → (validate_placeholders value ≡ ok tt) ↔ Template value
unfolding validate_placeholders
validate_placeholders_iff value = (
  validate_rest-Template (suc (length value)) value,
  λ t. Template-validate_rest (suc (length value)) t (omega arith),
)
