-- ===== src/Prelude/Results.antt =====
-- Rust's `Result<A, E>` with `?` as bind.
use mathlib.Core.Path.{◌≡◌, refl}
use mathlib.Core.Logic.{◌⊎◌, inl, inr}

pub data Result {ℓ κ} (E : Type ℓ) (A : Type κ) : Type (ℓ ⊔ κ) where
  err : E → Result E A
  ok : A → Result E A

module _ {ℓ κ} {E : Type ℓ} {A : Type κ} where
  -- A result is one of its two forms, by an equation.
  pub Result-cases : (r : Result E A) → ((v : A) × (r ≡ ok v)) ⊎ ((x : E) × (r ≡ err x))
  Result-cases (err x) = inr (x, refl)
  Result-cases (ok v) = inl (v, refl)

  pub ok-injective : {v w : A} → ◌≡◌ {A = Result E A} (ok v) (ok w) → v ≡ w
  ok-injective same = cc

module _ {ℓ κ ι} {E : Type ℓ} {A : Type κ} {B : Type ι} where
  infixl 5 ◌>>=◌ ◌>>◌
  -- The operator `?`: the first error is the answer.
  abbrev pub ◌>>=◌ : Result E A → (A → Result E B) → Result E B
  err x >>= next = err x
  ok v >>= next = next v

  abbrev pub ◌>>◌ : Result E A → Result E B → Result E B
  first >> second = first >>= λ _. second

  -- A chain that gives a value went through its first step.
  pub >>=-eq-ok :
      (first : Result E A) (next : A → Result E B) {w : B}
      → (first >>= next) ≡ ok w
      → (v : A) × (first ≡ ok v) × (next v ≡ ok w)
  >>=-eq-ok (err x) next done = cc
  >>=-eq-ok (ok v) next done = (v, refl, done)
