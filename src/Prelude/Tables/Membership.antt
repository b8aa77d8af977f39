-- ===== src/Prelude/Tables/Membership.antt =====
-- Which rows an UPDATE or an INSERT leaves, and which pairs a JOIN has.
use lzu_mirror_tools.Prelude.Tests.{if◌then◌else◌, Bool-cases}
use mathlib.Core.Path.{◌≡◌, refl, sym, ap, subst}
use mathlib.Core.Logic.{◌⊎◌, inl, inr}
use mathlib.Core.Bool.{Bool, true, false}
use mathlib.Core.List.Memᴰ
use mathlib.Core.List.{List, [], ◌∷◌, ◌++◌, Memᴰ}
use lzu_mirror_tools.Prelude.Tables.{update_where, pair_rows, join}

module _ {ℓ} {A : Type ℓ} where
  -- A row of the table with one more is an old row or that one.
  pub Mem-append_one : {a b : A} (xs : List A) → Memᴰ a (xs ++ b ∷ []) → Memᴰ a xs ⊎ (a ≡ b)
  Mem-append_one xs m = elim (Memᴰ.append_cases xs m) [
    | inl n ↦ inl n
    | inr (Memᴰ.head e) ↦ inr e
    | inr (Memᴰ.tail n) ↦ elim n [ ]
  ]

  chosen-cases :
      (p : A → Bool) (f : A → A) (x : A) {a : A} (b : Bool)
      → p x ≡ b
      → a ≡ (if b then f x else x)
      → ((p x ≡ true) × (a ≡ f x)) ⊎ ((p x ≡ false) × (a ≡ x))
  chosen-cases p f x true e h = inl (e, h)
  chosen-cases p f x false e h = inr (e, h)

  -- A row after an UPDATE is an updated row or one that was not selected.
  pub update_where-Mem :
      (p : A → Bool) (f : A → A) {a : A} (xs : List A)
      → Memᴰ a (update_where p f xs)
      → ((x : A) × Memᴰ x xs × (p x ≡ true) × (a ≡ f x)) ⊎ (Memᴰ a xs × (p a ≡ false))
  unfolding update_where
  update_where-Mem p f [] m = elim m [ ]
  update_where-Mem p f (x ∷ xs) (Memᴰ.head e) = elim (chosen-cases p f x (p x) refl e) [
    | inl (t, h) ↦ inl (x, Memᴰ.head refl, t, h)
    | inr (t, h) ↦ inr (Memᴰ.head h, rw h t)
  ]
  update_where-Mem p f (x ∷ xs) (Memᴰ.tail m) = elim (update_where-Mem p f xs m) [
    | inl (y, n, t, h) ↦ inl (y, Memᴰ.tail n, t, h)
    | inr (n, t) ↦ inr (Memᴰ.tail n, t)
  ]

module _ {ℓ κ} {A : Type ℓ} {B : Type κ} where
  Mem-pair_rows :
      (on : A → B → Bool) (x : A) {b : B} (ys : List B)
      → Memᴰ b ys
      → on x b ≡ true
      → Memᴰ (x, b) (pair_rows on x ys)
  unfolding pair_rows
  Mem-pair_rows on x [] m h = elim m [ ]
  Mem-pair_rows on x (y ∷ ys) (Memᴰ.head e) h =
      rw (subst (λ z. on x z ≡ true) e h) (Memᴰ.head (ap (λ z. (x, z)) e))
  Mem-pair_rows on x {b} (y ∷ ys) (Memᴰ.tail m) h = elim (Bool-cases (on x y)) [
    | inl t ↦ rw t (Memᴰ.tail (Mem-pair_rows on x ys m h))
    | inr f ↦ rw f (Mem-pair_rows on x ys m h)
  ]

  -- Rows that satisfy ON are a pair of the join.
  pub Mem-join :
      (on : A → B → Bool) {a : A} {b : B} (xs : List A) (ys : List B)
      → Memᴰ a xs
      → Memᴰ b ys
      → on a b ≡ true
      → Memᴰ (a, b) (join on xs ys)
  unfolding join
  Mem-join on [] ys m n h = elim m [ ]
  Mem-join on {a} {b} (x ∷ xs) ys (Memᴰ.head e) n h =
      subst (λ z. Memᴰ (z, b) (pair_rows on x ys ++ join on xs ys)) (sym e)
        (Memᴰ.append_left (join on xs ys)
          (Mem-pair_rows on x ys n (subst (λ z. on z b ≡ true) e h)))
  Mem-join on (x ∷ xs) ys (Memᴰ.tail m) n h =
      Memᴰ.append_right (pair_rows on x ys) (Mem-join on xs ys m n h)
