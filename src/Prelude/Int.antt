-- ===== src/Prelude/Int.antt =====
-- Signed integers over the native numbers: the `i64` milliseconds of the program, whose range
-- and saturation are written out where the code checks them.
use lzu_mirror_tools.Prelude.Tests.{ltb, leb, if◌then◌else◌}
use Prim.Native.Nat.{ℕ, suc, ◌+◌, ◌-◌, ◌≤◌}
use mathlib.Core.Path.{◌≡◌}
use mathlib.Core.Bool.{Bool}
use mathlib.Core.Option.{Option, none, some}
use native.Mathlib.Omega.{arith}

-- `negsuc n` is -(n + 1).
pub data ℤ : Type 0 where
  pos : ℕ → ℤ
  negsuc : ℕ → ℤ

abbrev pub pos_part : ℤ → ℕ
pos_part (pos n) = n
pos_part (negsuc n) = 0

abbrev pub neg_part : ℤ → ℕ
neg_part (pos n) = 0
neg_part (negsuc n) = suc n

-- a - b, as an integer.
abbrev pub sub_ℕ : ℕ → ℕ → ℤ
sub_ℕ a b = if leb b a then pos (a - b) else negsuc (b - a - 1)

infixl 65 ◌+ℤ◌ ◌-ℤ◌
infix 50 ◌≤ℤ◌ ◌<ℤ◌
unfoldable pub ◌+ℤ◌ : ℤ → ℤ → ℤ
a +ℤ b = sub_ℕ (pos_part a + pos_part b) (neg_part a + neg_part b)

unfoldable pub ◌-ℤ◌ : ℤ → ℤ → ℤ
a -ℤ b = sub_ℕ (pos_part a + neg_part b) (neg_part a + pos_part b)

abbrev pub ◌≤ℤ◌ : ℤ → ℤ → Type 0
a ≤ℤ b = pos_part a + neg_part b ≤ pos_part b + neg_part a

abbrev pub ◌<ℤ◌ : ℤ → ℤ → Type 0
a <ℤ b = suc (pos_part a + neg_part b) ≤ pos_part b + neg_part a

abbrev pub ltb_ℤ : ℤ → ℤ → Bool
ltb_ℤ a b = ltb (pos_part a + neg_part b) (pos_part b + neg_part a)

abbrev pub leb_ℤ : ℤ → ℤ → Bool
leb_ℤ a b = leb (pos_part a + neg_part b) (pos_part b + neg_part a)

abbrev pub min_ℤ : ℤ → ℤ → ℤ
min_ℤ a b = if leb_ℤ a b then a else b

pub +ℤ_parts :
    (a b : ℤ)
    → pos_part (a +ℤ b) + neg_part a + neg_part b ≡ neg_part (a +ℤ b) + pos_part a + pos_part b
unfolding ◌+ℤ◌
+ℤ_parts a b = ground arith

pub -ℤ_parts :
    (a b : ℤ)
    → pos_part (a -ℤ b) + neg_part a + pos_part b ≡ neg_part (a -ℤ b) + pos_part a + neg_part b
unfolding ◌-ℤ◌
-ℤ_parts a b = ground arith

pub eq_of_parts : (a b : ℤ) → pos_part a + neg_part b ≡ pos_part b + neg_part a → a ≡ b
eq_of_parts a b h = ground arith

pub ruleset int_laws = (arith, +ℤ_parts, -ℤ_parts, eq_of_parts)

-- The bounds of an `i64`: `i64::MAX` is 2 ^ 63 - 1, and `i64::MIN` is -(2 ^ 63).
abbrev pub i64_max : ℕ
i64_max = 9223372036854775807

abbrev pub IsI64 : ℤ → Type 0
IsI64 (pos n) = n ≤ i64_max
IsI64 (negsuc n) = n ≤ i64_max

-- `i64::checked_add`.
in_range : ℤ → Option ℤ
in_range (pos n) = if leb n i64_max then some (pos n) else none
in_range (negsuc n) = if leb n i64_max then some (negsuc n) else none

unfoldable pub checked_add : ℤ → ℤ → Option ℤ
unfolding in_range
checked_add a b = in_range (a +ℤ b)

in_range-some : (a : ℤ) {n : ℤ} → in_range a ≡ some n → (n ≡ a) × IsI64 a
unfolding in_range
in_range-some (pos n) h = ground arith
in_range-some (negsuc n) h = ground arith

pub checked_add-some : (a b : ℤ) {n : ℤ} → checked_add a b ≡ some n → (n ≡ a +ℤ b) × IsI64 (a +ℤ b)
unfolding checked_add
checked_add-some a b h = in_range-some (a +ℤ b) h

-- `i64::saturating_add`, by the sign of the exact sum.
abbrev pub clamp_i64 : ℤ → ℤ
clamp_i64 (pos n) = if leb n i64_max then pos n else pos i64_max
clamp_i64 (negsuc n) = if leb n i64_max then negsuc n else negsuc i64_max

unfoldable pub saturating_add : ℤ → ℤ → ℤ
saturating_add a b = clamp_i64 (a +ℤ b)

-- `i64::saturating_sub`.
unfoldable pub saturating_sub : ℤ → ℤ → ℤ
saturating_sub a b = clamp_i64 (a -ℤ b)

-- Clamping moves a value that is not below one in range down, but not below that one.
pub clamp_i64-bounds :
    (a s : ℤ) → IsI64 a → a ≤ℤ s → IsI64 (clamp_i64 s) × (a ≤ℤ clamp_i64 s) × (clamp_i64 s ≤ℤ s)
clamp_i64-bounds (pos m) (pos n) i h = (ground arith, ground arith, ground arith)
clamp_i64-bounds (pos m) (negsuc n) i h = absurd (omega arith)
clamp_i64-bounds (negsuc m) (pos n) i h = (ground arith, ground arith, ground arith)
clamp_i64-bounds (negsuc m) (negsuc n) i h = (ground arith, ground arith, ground arith)

pub clamp_i64-id : (s : ℤ) → pos 0 ≤ℤ s → s ≤ℤ pos i64_max → clamp_i64 s ≡ s
clamp_i64-id (pos n) l h = ground arith
clamp_i64-id (negsuc n) l h = absurd (omega arith)
