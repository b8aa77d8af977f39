-- ===== src/Prelude/Tables/Select.antt =====
-- What the queries of Prelude/Tables return: a row that satisfies the query, or none.
use lzu_mirror_tools.Prelude.Tests.{if◌then◌else◌, Bool-cases}
use mathlib.Core.Path.{◌≡◌, ◌∙◌, refl, sym, ap, subst}
use mathlib.Core.Logic.{◌⊎◌, inl, inr}
use mathlib.Core.Bool.{Bool, true, false, ◌||◌}
use mathlib.Core.Option.{Option, none, some}
use mathlib.Core.List.Memᴰ
use mathlib.Core.List.{List, [], ◌∷◌, ◌++◌, Memᴰ}
use native.Mathlib.Omega.{arith}
use lzu_mirror_tools.Prelude.Tables.{
  exists_where, update_where, where_rows, find_where, first_of_two, min_by, select_first, All, join,
  pair_rows,
}

module _ {ℓ} {A : Type ℓ} where
  pub All-Mem {κ} : (P : A → Type κ) {a : A} (xs : List A) → All P xs → Memᴰ a xs → P a
  All-Mem P [] h m = elim m [ ]
  All-Mem P (x ∷ xs) h (Memᴰ.head e) = subst P (sym e) h.0
  All-Mem P (x ∷ xs) h (Memᴰ.tail m) = All-Mem P xs h.1 m

  pub All-of_Mem {κ} : (P : A → Type κ) (xs : List A) → ((a : A) → Memᴰ a xs → P a) → All P xs
  All-of_Mem P [] h = tt
  All-of_Mem P (x ∷ xs) h = (h x (Memᴰ.head refl), All-of_Mem P xs (λ a m. h a (Memᴰ.tail m)))

  pub exists_where-Mem :
      (p : A → Bool) {a : A} (xs : List A) → Memᴰ a xs → p a ≡ true → exists_where p xs ≡ true
  unfolding exists_where
  exists_where-Mem p [] m h = elim m [ ]
  exists_where-Mem p (x ∷ xs) (Memᴰ.head e) h = ground (arith, ap p e)
  exists_where-Mem p (x ∷ xs) (Memᴰ.tail m) h = ground (arith, exists_where-Mem p xs m h)

  pub exists_where-append :
      (p : A → Bool) (xs ys : List A)
      → exists_where p (xs ++ ys) ≡ (exists_where p xs || exists_where p ys)
  unfolding exists_where
  exists_where-append p [] ys = refl
  exists_where-append p (x ∷ xs) ys = ground (arith, exists_where-append p xs ys)

  -- A row that is not there.
  pub exists_where-All :
      (p : A → Bool) (xs : List A) → exists_where p xs ≡ false → All (λ x. p x ≡ false) xs
  unfolding exists_where
  exists_where-All p [] h = tt
  exists_where-All p (x ∷ xs) h = (ground arith, exists_where-All p xs (ground arith))

  pub exists_where-cases :
      (p : A → Bool) (xs : List A) → exists_where p xs ≡ true → (a : A) × Memᴰ a xs × (p a ≡ true)
  unfolding exists_where
  exists_where-cases p [] h = cc
  exists_where-cases p (x ∷ xs) h = elim (Bool-cases (p x)) [
    | inl t ↦ (x, Memᴰ.head refl, t)
    | inr f ↦ let (a, m, t) = exists_where-cases p xs (ground arith) in (a, Memᴰ.tail m, t)
  ]

  kept-Mem :
      (b : Bool) {a x : A} (rest : List A)
      → Memᴰ a (if b then x ∷ rest else rest)
      → ((b ≡ true) × (a ≡ x)) ⊎ Memᴰ a rest
  kept-Mem true rest (Memᴰ.head e) = inl (refl, e)
  kept-Mem true rest (Memᴰ.tail m) = inr m
  kept-Mem false rest m = inr m

  pub where_rows-Mem :
      (p : A → Bool) {a : A} (xs : List A) → Memᴰ a (where_rows p xs) → Memᴰ a xs × (p a ≡ true)
  unfolding where_rows
  where_rows-Mem p [] m = elim m [ ]
  where_rows-Mem p {a} (x ∷ xs) m = elim (kept-Mem (p x) (where_rows p xs) m) [
    | inl (t, e) ↦ (Memᴰ.head e, ap p e ∙ t)
    | inr n ↦ let (k, h) = where_rows-Mem p xs n in (Memᴰ.tail k, h)
  ]

  pub Mem-where_rows :
      (p : A → Bool) {a : A} (xs : List A) → Memᴰ a xs → p a ≡ true → Memᴰ a (where_rows p xs)
  unfolding where_rows
  Mem-where_rows p [] m h = elim m [ ]
  Mem-where_rows p (x ∷ xs) (Memᴰ.head e) h = rw (sym (ap p e) ∙ h) (Memᴰ.head e)
  Mem-where_rows p (x ∷ xs) (Memᴰ.tail m) h = elim (Bool-cases (p x)) [
    | inl t ↦ rw t (Memᴰ.tail (Mem-where_rows p xs m h))
    | inr f ↦ rw f (Mem-where_rows p xs m h)
  ]

  pub find_where-Mem :
      (p : A → Bool) {a : A} (xs : List A) → find_where p xs ≡ some a → Memᴰ a xs × (p a ≡ true)
  unfolding find_where
  find_where-Mem p [] h = cc
  find_where-Mem p (x ∷ xs) h = elim (Bool-cases (p x)) [
    | inl t ↦ (Memᴰ.head (ground arith), ground arith)
    | inr f ↦ let (m, k) = find_where-Mem p xs (ground arith) in (Memᴰ.tail m, k)
  ]

  pub find_where-none :
      (p : A → Bool) (xs : List A) → find_where p xs ≡ none → exists_where p xs ≡ false
  unfolding find_where exists_where
  find_where-none p [] h = refl
  find_where-none p (x ∷ xs) h = ground (arith, find_where-none p xs)

  pub find_where-some :
      (p : A → Bool) (xs : List A) → exists_where p xs ≡ true → (a : A) × (find_where p xs ≡ some a)
  unfolding find_where exists_where
  find_where-some p [] h = cc
  find_where-some p (x ∷ xs) h = elim (Bool-cases (p x)) [
    | inl t ↦ (x, ground arith)
    | inr f ↦ let (a, e) = find_where-some p xs (ground arith) in (a, ground arith)
  ]

  first_of_two-cases :
      (lt : A → A → Bool) (x : A) (o : Option A)
      → (first_of_two lt x o ≡ x) ⊎ (o ≡ some (first_of_two lt x o))
  unfolding first_of_two
  first_of_two-cases lt x none = inl refl
  first_of_two-cases lt x (some y) = ground arith

  pub min_by-Mem : (lt : A → A → Bool) {a : A} (xs : List A) → min_by lt xs ≡ some a → Memᴰ a xs
  unfolding min_by
  min_by-Mem lt [] h = cc
  min_by-Mem lt {a} (x ∷ xs) h = elim (first_of_two-cases lt x (min_by lt xs)) [
    | inl e ↦ Memᴰ.head (ground arith)
    | inr e ↦ Memᴰ.tail (min_by-Mem lt xs (ground arith))
  ]

  -- A row that a query with ORDER BY and LIMIT 1 returns is in the table and satisfies the query.
  pub select_first-Mem :
      (p : A → Bool) (lt : A → A → Bool) {a : A} (xs : List A)
      → select_first p lt xs ≡ some a
      → Memᴰ a xs × (p a ≡ true)
  unfolding select_first
  select_first-Mem p lt xs h = where_rows-Mem p xs (min_by-Mem lt (where_rows p xs) h)

  min_by-none : (lt : A → A → Bool) (xs : List A) → min_by lt xs ≡ none → xs ≡ []
  unfolding min_by
  min_by-none lt [] h = refl
  min_by-none lt (x ∷ xs) h = cc

  -- A query that returns no row has none that satisfies it.
  pub select_first-none :
      (p : A → Bool) (lt : A → A → Bool) {a : A} (xs : List A)
      → select_first p lt xs ≡ none
      → Memᴰ a xs
      → p a ≡ false
  unfolding select_first
  select_first-none p lt {a} xs h m = elim (Bool-cases (p a)) [
    | inl t ↦ absurd (
        elim (subst (λ l. Memᴰ a l) (min_by-none lt (where_rows p xs) h)
          (Mem-where_rows p xs m t)) [ ])
    | inr f ↦ f
  ]

module _ {ℓ κ} {A : Type ℓ} {B : Type κ} where
  pair_rows-Mem :
      (on : A → B → Bool) (x : A) {p : A × B} (ys : List B)
      → Memᴰ p (pair_rows on x ys)
      → (p.0 ≡ x) × Memᴰ p.1 ys × (on p.0 p.1 ≡ true)
  unfolding pair_rows
  pair_rows-Mem on x [] m = elim m [ ]
  pair_rows-Mem on x (y ∷ ys) m = elim (kept-Mem (on x y) (pair_rows on x ys) m) [
    | inl (t, e) ↦ (ap (λ q. q.0) e, Memᴰ.head (ap (λ q. q.1) e), ap (λ q. on q.0 q.1) e ∙ t)
    | inr n ↦ let (k, l, h) = pair_rows-Mem on x ys n in (k, Memᴰ.tail l, h)
  ]

  -- A pair of a join is made of a row of each table, and satisfies ON.
  pub join-Mem :
      (on : A → B → Bool) {p : A × B} (xs : List A) (ys : List B)
      → Memᴰ p (join on xs ys)
      → Memᴰ p.0 xs × Memᴰ p.1 ys × (on p.0 p.1 ≡ true)
  unfolding join
  join-Mem on [] ys m = elim m [ ]
  join-Mem on (x ∷ xs) ys m = elim (Memᴰ.append_cases (pair_rows on x ys) m) [
    | inl l ↦ let (e, n, h) = pair_rows-Mem on x ys l in (Memᴰ.head e, n, h)
    | inr r ↦ let (k, n, h) = join-Mem on xs ys r in (Memᴰ.tail k, n, h)
  ]

module _ {ℓ} {A : Type ℓ} where
  pub find_where-append :
      (p : A → Bool) (xs : List A) (a : A)
      → find_where p xs ≡ none
      → p a ≡ true
      → find_where p (xs ++ a ∷ []) ≡ some a
  unfolding find_where
  find_where-append p [] a h k = ground arith
  find_where-append p (x ∷ xs) a h k = ground (arith, find_where-append p xs a)

  pub find_where-update :
      (p : A → Bool) (f : A → A) (xs : List A) {a : A}
      → ((x : A) → p (f x) ≡ p x)
      → find_where p xs ≡ some a
      → find_where p (update_where p f xs) ≡ some (f a)
  unfolding find_where update_where
  find_where-update p f [] keep h = cc
  find_where-update p f (x ∷ xs) keep h = elim (Bool-cases (p x)) [
    | inl t ↦ ground (arith, keep x)
    | inr n ↦ rw (n, n) (find_where-update p f xs keep (ground arith))
  ]
