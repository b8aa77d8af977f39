-- ===== src/Prelude/Tables/Evolution.antt =====
-- How the rows of a table go over into those of a later one (`Evolves` of Prelude/Tables).
use lzu_mirror_tools.Prelude.Tests.{if◌then◌else◌}
use mathlib.Core.Path.{◌≡◌, refl, sym, ap, subst}
use mathlib.Core.Bool.{Bool, true, false}
use mathlib.Core.List.{List, [], ◌∷◌, ◌++◌, Memᴰ}
use lzu_mirror_tools.Prelude.Tables.{update_where, All, Evolves}

module _ {ℓ} {A : Type ℓ} (R : A → A → Type 0) where
  pub Evolves-refl : ((x : A) → R x x) → (xs : List A) → Evolves R xs xs
  Evolves-refl r [] = tt
  Evolves-refl r (x ∷ xs) = (r x, Evolves-refl r xs)

  -- An INSERT leaves every row.
  pub Evolves-append : ((x : A) → R x x) → (xs ys : List A) → Evolves R xs (xs ++ ys)
  Evolves-append r [] ys = tt
  Evolves-append r (x ∷ xs) ys = (r x, Evolves-append r xs ys)

  pub Evolves-trans :
      ((x y z : A) → R x y → R y z → R x z)
      → (xs ys zs : List A) → Evolves R xs ys
      → Evolves R ys zs
      → Evolves R xs zs
  Evolves-trans t [] ys zs h k = tt
  Evolves-trans t (x ∷ xs) [] zs h k = absurd h
  Evolves-trans t (x ∷ xs) (y ∷ ys) [] h k = absurd k
  Evolves-trans t (x ∷ xs) (y ∷ ys) (z ∷ zs) h k =
      (t x y z h.0 k.0, Evolves-trans t xs ys zs h.1 k.1)

  row_step :
      (p : A → Bool) (f : A → A) (x : A)
      → R x x
      → (p x ≡ true → R x (f x))
      → (b : Bool) → p x ≡ b
      → R x (if b then f x else x)
  row_step p f x r s true e = s e
  row_step p f x r s false e = r

  -- An UPDATE steps the rows that it selects.
  pub Evolves-update_where :
      ((x : A) → R x x)
      → (p : A → Bool) (f : A → A) (xs : List A) → All (λ x. p x ≡ true → R x (f x)) xs
      → Evolves R xs (update_where p f xs)
  unfolding update_where
  Evolves-update_where r p f [] h = tt
  Evolves-update_where r p f (x ∷ xs) h =
      (row_step p f x (r x) h.0 (p x) refl, Evolves-update_where r p f xs h.1)

  -- Every row has its successor in the later table.
  pub Evolves-Mem :
      (xs ys : List A) → Evolves R xs ys → {a : A} → Memᴰ a xs → (b : A) × Memᴰ b ys × R a b
  Evolves-Mem [] ys h m = elim m [ ]
  Evolves-Mem (x ∷ xs) [] h m = absurd h
  Evolves-Mem (x ∷ xs) (y ∷ ys) h (Memᴰ.head e) =
      (y, Memᴰ.head refl, subst (λ z. R z y) (sym e) h.0)
  Evolves-Mem (x ∷ xs) (y ∷ ys) h (Memᴰ.tail m) =
      let (b, n, s) = Evolves-Mem xs ys h.1 m in (b, Memᴰ.tail n, s)

module _ {ℓ κ} {A : Type ℓ} (P : A → Type κ) where
  All-updated :
      (p : A → Bool) (f : A → A) (x : A)
      → P x
      → (P x → P (f x))
      → (b : Bool) → P (if b then f x else x)
  All-updated p f x h s true = s h
  All-updated p f x h s false = h

  -- An UPDATE keeps what it keeps of each row.
  pub All-update_where :
      (p : A → Bool) (f : A → A) (xs : List A)
      → ((x : A) → P x → P (f x))
      → All P xs
      → All P (update_where p f xs)
  unfolding update_where
  All-update_where p f [] keep h = tt
  All-update_where p f (x ∷ xs) keep h =
      (All-updated p f x h.0 (keep x) (p x), All-update_where p f xs keep h.1)

  pub All-append : (xs : List A) (a : A) → All P xs → P a → All P (xs ++ a ∷ [])
  All-append [] a h k = (k, tt)
  All-append (x ∷ xs) a h k = (h.0, All-append xs a h.1 k)

  pub All-map : {Q : A → Type κ} (xs : List A) → ((x : A) → P x → Q x) → All P xs → All Q xs
  All-map [] f h = tt
  All-map (x ∷ xs) f h = (f x h.0, All-map xs f h.1)

  -- What holds of each row after the UPDATE.
  pub All-updated_rows :
      (p : A → Bool) (f : A → A) (xs : List A)
      → All (λ x. P (if p x then f x else x)) xs
      → All P (update_where p f xs)
  unfolding update_where
  All-updated_rows p f [] h = tt
  All-updated_rows p f (x ∷ xs) h = (h.0, All-updated_rows p f xs h.1)

pub Mem-update_where {ℓ} :
    {A : Type ℓ} (p : A → Bool) (f : A → A) {a : A} (xs : List A)
    → Memᴰ a xs
    → p a ≡ true
    → Memᴰ (f a) (update_where p f xs)
unfolding update_where
Mem-update_where p f [] m h = elim m [ ]
Mem-update_where p f (x ∷ xs) (Memᴰ.head e) h =
    Memᴰ.head (rw (← (ap (λ y. if p y then f y else y) e), h))
Mem-update_where p f (x ∷ xs) (Memᴰ.tail m) h = Memᴰ.tail (Mem-update_where p f xs m h)

-- A row that the UPDATE does not select stays.
pub Mem-update_where_kept {ℓ} :
    {A : Type ℓ} (p : A → Bool) (f : A → A) {a : A} (xs : List A)
    → Memᴰ a xs
    → p a ≡ false
    → Memᴰ a (update_where p f xs)
unfolding update_where
Mem-update_where_kept p f [] m h = elim m [ ]
Mem-update_where_kept p f (x ∷ xs) (Memᴰ.head e) h =
    Memᴰ.head (rw (← (ap (λ y. if p y then f y else y) e), h))
Mem-update_where_kept p f (x ∷ xs) (Memᴰ.tail m) h = Memᴰ.tail (Mem-update_where_kept p f xs m h)
