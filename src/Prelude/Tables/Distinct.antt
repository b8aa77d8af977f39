-- ===== src/Prelude/Tables/Distinct.antt =====
-- Keys and unique indexes (`Distinct` of Prelude/Tables): what they say of a row that was found,
-- and that statements keep them.
use lzu_mirror_tools.Prelude.Tests.{if◌then◌else◌, Bool-cases}
use lzu_mirror_tools.Prelude.Tables.Select.{exists_where-Mem}
use mathlib.Core.Path.{◌≡◌, ◌∙◌, refl, sym, ap}
use mathlib.Core.Logic.{inl, inr}
use mathlib.Core.Bool.{Bool, true, false}
use mathlib.Core.List.{List, [], ◌∷◌, ◌++◌, Memᴰ}
use native.Mathlib.Omega.{arith}
use lzu_mirror_tools.Prelude.Tables.{where_rows, update_where, exists_where, All, Distinct}

-- What UPDATE makes of one row.
abbrev pub updated {ℓ} : {A : Type ℓ} → (A → Bool) → (A → A) → A → A
updated p f x = if p x then f x else x

module _ {ℓ} {A : Type ℓ} where
  -- The only row that is `d` to a row of the table is that row itself.
  pub Distinct-unique :
      (d : A → A → Bool) (xs : List A)
      → ((x y : A) → d x y ≡ d y x)
      → Distinct d xs
      → {a b : A} → Memᴰ a xs
      → Memᴰ b xs
      → d a b ≡ true
      → a ≡ b
  Distinct-unique d [] flip h m n t = elim m [ ]
  Distinct-unique d (x ∷ xs) flip h (Memᴰ.head e) (Memᴰ.head e') t = e ∙ sym e'
  Distinct-unique d (x ∷ xs) flip h {a} {b} (Memᴰ.head e) (Memᴰ.tail n) t =
      absurd (ground (arith, exists_where-Mem (d x) xs n (ap (λ y. d y b) (sym e) ∙ t)))
  Distinct-unique d (x ∷ xs) flip h {a} {b} (Memᴰ.tail m) (Memᴰ.head e') t =
      absurd (ground (arith, exists_where-Mem (d x) xs m (ap (λ y. d y a) (sym e') ∙ flip b a ∙ t)))
  Distinct-unique d (x ∷ xs) flip h (Memᴰ.tail m) (Memᴰ.tail n) t =
      Distinct-unique d xs flip h.1 m n t

  exists_where-update :
      (d : A → A → Bool) (p : A → Bool) (f : A → A) (x : A) (ys : List A)
      → ((y : A) → d (updated p f x) (updated p f y) ≡ true → d x y ≡ true)
      → exists_where (d x) ys ≡ false
      → exists_where (d (updated p f x)) (update_where p f ys) ≡ false
  unfolding exists_where update_where
  exists_where-update d p f x [] keep h = refl
  exists_where-update d p f x (y ∷ ys) keep h =
      elim (Bool-cases (d (updated p f x) (updated p f y))) [
        | inl t ↦ absurd (ground (arith, keep y t))
        | inr n ↦ rw n (exists_where-update d p f x ys keep (ground arith))
      ]

  -- An UPDATE that makes no two rows equal keeps a key.
  pub Distinct-update_where :
      (d : A → A → Bool) (p : A → Bool) (f : A → A) (xs : List A)
      → ((x y : A) → d (updated p f x) (updated p f y) ≡ true → d x y ≡ true)
      → Distinct d xs
      → Distinct d (update_where p f xs)
  unfolding update_where
  Distinct-update_where d p f [] keep h = tt
  Distinct-update_where d p f (x ∷ xs) keep h =
      (exists_where-update d p f x xs (keep x) h.0, Distinct-update_where d p f xs keep h.1)

  exists_where-append :
      (p : A → Bool) (xs : List A) (a : A)
      → exists_where p xs ≡ false
      → p a ≡ false
      → exists_where p (xs ++ a ∷ []) ≡ false
  unfolding exists_where
  exists_where-append p [] a h k = ground arith
  exists_where-append p (x ∷ xs) a h k = ground (arith, exists_where-append p xs a)

  -- An INSERT of a row that no row is `d` to keeps a key.
  exists_where-where_rows :
      (d p : A → Bool) (xs : List A)
      → exists_where d xs ≡ false
      → exists_where d (where_rows p xs) ≡ false
  unfolding where_rows exists_where
  exists_where-where_rows d p [] h = refl
  exists_where-where_rows d p (x ∷ xs) h = elim (Bool-cases (p x)) [
    | inl t ↦ rw t (ground (arith, h, exists_where-where_rows d p xs (ground (arith, h))))
    | inr f ↦ rw f (exists_where-where_rows d p xs (ground (arith, h)))
  ]

  pub Distinct-where_rows :
      (d : A → A → Bool) (p : A → Bool) (xs : List A) → Distinct d xs → Distinct d (where_rows p xs)
  unfolding where_rows
  Distinct-where_rows d p [] h = tt
  Distinct-where_rows d p (x ∷ xs) h = elim (Bool-cases (p x)) [
    | inl t ↦ rw t (exists_where-where_rows (d x) p xs h.0, Distinct-where_rows d p xs h.1)
    | inr f ↦ rw f (Distinct-where_rows d p xs h.1)
  ]

  pub Distinct-append :
      (d : A → A → Bool) (xs : List A) (a : A)
      → Distinct d xs
      → All (λ x. d x a ≡ false) xs
      → Distinct d (xs ++ a ∷ [])
  unfolding exists_where
  Distinct-append d [] a h k = (refl, tt)
  Distinct-append d (x ∷ xs) a h k =
      (exists_where-append (d x) xs a h.0 k.0, Distinct-append d xs a h.1 k.1)
