-- ===== src/Core/Config/Audit.antt =====
-- What `validate_atomic_rsync_args` of crates/lmt-core/src/config.rs lets through.
use lzu_mirror_tools.Prelude.{
  ◌≡◌, ◌⊎◌, refl, sym, ap, subst, ◌∙◌, ℕ, Bool, true, false, ◌||◌, not, Option, none, some, List,
  [], ◌∷◌, ◌==◌, ok, arith, inl, inr, Bool-cases, Result-cases, Memᴰ,
}
use lzu_mirror_tools.Prelude.Text.{Text}
use lzu_mirror_tools.Core.Ids.{all_bytes}
use lzu_mirror_tools.Core.Config.RsyncArgs.{
  flag_names, value_names, is_one_of, kind_of, history_names, candidate_names,
  atomic_rsync_long_option, split_once, is_short, starts_with_dash, dash, not_empty, is_operand,
  refuse_option, check_value, check_long, check_short, check_dashed, check_argument,
  validate_atomic_rsync_args,
}

-- An option of the audited profile: a flag without a value, an option with a value that is not
-- empty or stands in the next argument, or a group of short options.
pub data IsAudited : Text → Type 0 where
  long_flag :
      (long : Text)
      → is_one_of flag_names (split_once long).0 ≡ true
      → (split_once long).1 ≡ none
      → IsAudited (dash ∷ dash ∷ long)
  long_value :
      (long : Text)
      → is_one_of value_names (split_once long).0 ≡ true
      → IsAudited (dash ∷ dash ∷ long)
  short_group :
      (short : Text)
      → not_empty short ≡ true
      → all_bytes is_short short ≡ true
      → IsAudited (dash ∷ short)

kind_of-cases :
    (f v h c : Bool) (argument : Text) (inline_value next : Option Text) {skip : Bool}
    → check_long argument (kind_of f v h c) inline_value next ≡ ok skip
    → ((f ≡ true) × (inline_value ≡ none) × (skip ≡ false))
      ⊎ ((v ≡ true) × (skip ≡ true → is_operand next ≡ true))
unfolding kind_of check_long check_value refuse_option
kind_of-cases true v h c argument none next e = inl (refl, refl, ground (arith, e))
kind_of-cases true v h c argument (some x) next e = absurd (ground (arith, e))
kind_of-cases false true h c argument none next e = elim (Bool-cases (is_operand next)) [
  | inl t ↦ inr (refl, λ s. t)
  | inr f ↦ absurd (ground (arith, e, f))
]
kind_of-cases false true h c argument (some x) next e = elim (Bool-cases (not_empty x)) [
  | inl t ↦ inr (refl, λ s. absurd (ground (arith, e, s, t)))
  | inr f ↦ absurd (ground (arith, e, f))
]
kind_of-cases false false true c argument inline_value next e = cc
kind_of-cases false false false true argument inline_value next e = cc
kind_of-cases false false false false argument inline_value next e = cc

check_long-IsAudited :
    (argument long : Text) (next : Option Text) {skip : Bool}
    → check_long argument (atomic_rsync_long_option (split_once long).0) (split_once long).1 next
      ≡ ok skip
    → IsAudited (dash ∷ dash ∷ long) × (skip ≡ true → is_operand next ≡ true)
unfolding atomic_rsync_long_option
check_long-IsAudited argument long next {skip} h =
    let name = (split_once long).0 in
    elim (kind_of-cases (is_one_of flag_names name) (is_one_of value_names name)
      (is_one_of history_names name) (is_one_of candidate_names name) argument (split_once long).1
      next h) [
        | inl (t, e, s) ↦ (long_flag long t e, λ k. absurd (ground (arith, s, k)))
        | inr (t, s) ↦ (long_value long t, s)
      ]

check_short-IsAudited :
    (argument short : Text) {skip : Bool}
    → check_short argument short ≡ ok skip
    → IsAudited (dash ∷ short) × (skip ≡ false)
unfolding check_short refuse_option
check_short-IsAudited argument short h =
    elim (Bool-cases (not (not_empty short) || not (all_bytes is_short short))) [
      | inl t ↦ absurd (ground (arith, h, t))
      | inr f ↦ (short_group short (ground (arith, f)) (ground (arith, f)), ground (arith, h, f))
    ]

short-IsAudited :
    (argument short : Text) (next : Option Text) {skip : Bool}
    → check_short argument short ≡ ok skip
    → IsAudited (dash ∷ short) × (skip ≡ true → is_operand next ≡ true)
short-IsAudited argument short next h =
    let (audited, s) = check_short-IsAudited argument short h in
    (audited, λ k. absurd (ground (arith, s, k)))

check_dashed-IsAudited :
    (argument rest : Text) (next : Option Text) {skip : Bool}
    → check_dashed argument rest next ≡ ok skip
    → IsAudited (dash ∷ rest) × (skip ≡ true → is_operand next ≡ true)
unfolding check_dashed
check_dashed-IsAudited argument [] next h = short-IsAudited argument [] next h
check_dashed-IsAudited argument (b ∷ long) next {skip} h = elim (Bool-cases (b == dash)) [
  | inr f ↦ short-IsAudited argument (b ∷ long) next {skip = skip} (ground (arith, h, f))
  | inl t ↦
      let e : dash ≡ b = ground (arith, t) in
      subst (λ (x : ℕ). IsAudited (dash ∷ x ∷ long) × (skip ≡ true → is_operand next ≡ true)) e
        (check_long-IsAudited argument long next {skip = skip} (ground (arith, h, t)))
]

-- An argument that one turn accepts is audited, and the one that it passes over is no option.
check_argument-IsAudited :
    (argument : Text) (next : Option Text) {skip : Bool}
    → check_argument argument next ≡ ok skip
    → IsAudited argument × (skip ≡ true → is_operand next ≡ true)
unfolding check_argument refuse_option
check_argument-IsAudited [] next h = cc
check_argument-IsAudited (a ∷ rest) next {skip} h = elim (Bool-cases (a == dash)) [
  | inr f ↦ absurd (ground (arith, h, f))
  | inl t ↦
      let e : dash ≡ a = ground (arith, t) in
      subst (λ (x : ℕ). IsAudited (x ∷ rest) × (skip ≡ true → is_operand next ≡ true)) e
        (check_dashed-IsAudited (a ∷ rest) rest next {skip = skip} (ground (arith, h, t)))
]

-- Where the arguments of rsync for an atomic publication are accepted, each of them that begins with
-- a dash is an option of the audited profile: a flag without a value, an option that takes a value,
-- or a group of short options.
pub validate_atomic_rsync_args-IsAudited :
    (args : List Text) (argument : Text)
    → validate_atomic_rsync_args args ≡ ok tt
    → Memᴰ argument args
    → starts_with_dash argument ≡ true
    → IsAudited argument
unfolding validate_atomic_rsync_args is_operand
validate_atomic_rsync_args-IsAudited [] argument h m d = elim m [ ]
validate_atomic_rsync_args-IsAudited (a ∷ []) argument h (Memᴰ.head e) d =
    elim (Result-cases (check_argument a none)) [
      | inr (x, r) ↦ absurd (ground (arith, h, r))
      | inl (skip, r) ↦ subst IsAudited (sym e) (check_argument-IsAudited a none r).0
    ]
validate_atomic_rsync_args-IsAudited (a ∷ []) argument h (Memᴰ.tail m) d = elim m [ ]
validate_atomic_rsync_args-IsAudited (a ∷ b ∷ args) argument h m d =
    elim (Result-cases (check_argument a (some b))) [
      | inr (x, r) ↦ absurd (ground (arith, h, r))
      | inl (true, r) ↦
          let (audited, operand) = check_argument-IsAudited a (some b) r in
          elim m [
            | Memᴰ.head e ↦ subst IsAudited (sym e) audited
            | Memᴰ.tail (Memᴰ.head e) ↦
                absurd (ground (arith, operand refl, ap starts_with_dash (sym e) ∙ d))
            | Memᴰ.tail (Memᴰ.tail n) ↦
                validate_atomic_rsync_args-IsAudited args argument (ground (arith, h, r)) n d
          ]
      | inl (false, r) ↦
          let (audited, operand) = check_argument-IsAudited a (some b) r in
          elim m [
            | Memᴰ.head e ↦ subst IsAudited (sym e) audited
            | Memᴰ.tail n ↦
                validate_atomic_rsync_args-IsAudited (b ∷ args) argument (ground (arith, h, r)) n d
          ]
    ]
