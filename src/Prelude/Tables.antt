-- ===== src/Prelude/Tables.antt =====
-- Tables as lists of rows: what SELECT, EXISTS, JOIN, ORDER BY ... LIMIT 1 and UPDATE compute.
pub mod Select
pub mod Distinct
pub mod Evolution
pub mod Membership
use lzu_mirror_tools.Prelude.Tests.{if◌then◌else◌}
use mathlib.Core.Path.{◌≡◌}
use mathlib.Core.Bool.{Bool, false, ◌||◌}
use mathlib.Core.Option.{Option, none, some}
use mathlib.Core.List.{List, [], ◌∷◌, ◌++◌}

module _ {ℓ} {A : Type ℓ} where
  -- UPDATE ... SET f WHERE p.
  unfoldable pub update_where : (A → Bool) → (A → A) → List A → List A
  update_where p f [] = []
  update_where p f (x ∷ xs) = (if p x then f x else x) ∷ update_where p f xs

  -- EXISTS(SELECT 1 ... WHERE p).
  unfoldable pub exists_where : (A → Bool) → List A → Bool
  exists_where p [] = false
  exists_where p (x ∷ xs) = p x || exists_where p xs

  -- The rows that satisfy WHERE p.
  unfoldable pub where_rows : (A → Bool) → List A → List A
  where_rows p [] = []
  where_rows p (x ∷ xs) = let rest = where_rows p xs in if p x then x ∷ rest else rest

  -- The row of a query that has at most one.
  unfoldable pub find_where : (A → Bool) → List A → Option A
  find_where p [] = none
  find_where p (x ∷ xs) = let rest = find_where p xs in if p x then some x else rest

  -- ORDER BY lt LIMIT 1; the first of equal rows, an order that SQL leaves open.
  first_of_two : (A → A → Bool) → A → Option A → A
  first_of_two lt x none = x
  first_of_two lt x (some y) = if lt y x then y else x

  unfoldable pub min_by : (A → A → Bool) → List A → Option A
  unfolding first_of_two
  min_by lt [] = none
  min_by lt (x ∷ xs) = some (first_of_two lt x (min_by lt xs))

  -- SELECT ... WHERE p ORDER BY lt LIMIT 1.
  unfoldable pub select_first : (A → Bool) → (A → A → Bool) → List A → Option A
  select_first p lt xs = min_by lt (where_rows p xs)

  -- A predicate on all rows.
  abbrev pub All {κ} : (A → Type κ) → List A → Type κ
  All P [] = Unit
  All P (x ∷ xs) = P x × All P xs

  -- The rows of `xs` went over into the first rows of `ys` by `R`; what follows is new.
  abbrev pub Evolves : (A → A → Type 0) → List A → List A → Type 0
  Evolves R [] ys = Unit
  Evolves R (x ∷ xs) [] = ⊥
  Evolves R (x ∷ xs) (y ∷ ys) = R x y × Evolves R xs ys

  -- No row is `d` to a later one: a key or a unique index, with `d` the equality that it forbids.
  abbrev pub Distinct : (A → A → Bool) → List A → Type 0
  Distinct d [] = Unit
  Distinct d (x ∷ xs) = (exists_where (d x) xs ≡ false) × Distinct d xs

-- JOIN: the pairs of rows that satisfy ON.
module _ {ℓ κ} {A : Type ℓ} {B : Type κ} where
  unfoldable pub pair_rows : (A → B → Bool) → A → List B → List (A × B)
  pair_rows on x [] = []
  pair_rows on x (y ∷ ys) = let rest = pair_rows on x ys in if on x y then (x, y) ∷ rest else rest

  unfoldable pub join : (A → B → Bool) → List A → List B → List (A × B)
  unfolding pair_rows
  join on [] ys = []
  join on (x ∷ xs) ys = pair_rows on x ys ++ join on xs ys
