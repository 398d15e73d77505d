-- ===== src/Base/Int.antt =====
-- Signed integers over the native numbers, for Go's `int`, `int64`, `time.Time` and
-- `time.Duration`. Sums and orders go through the two parts of an integer.
use Prim.Native.Nat.{ℕ, suc, ◌+◌, ◌-◌, ◌*◌, ◌/◌, ◌%◌, ◌^◌, ◌≤◌, ◌<◌}
use mathlib.Core.Path.{◌≡◌}
use mathlib.Core.Bool.{Bool, true, false}
use native.Mathlib.Omega.{arith}
use mesh_checker.Base.Tests.{ltb, leb, if◌then◌else◌}

-- `negsuc n` is -(n + 1).
pub data ℤ : Type 0 where
  pos : ℕ → ℤ
  negsuc : ℕ → ℤ

abbrev pub pos_part : ℤ → ℕ
pos_part (pos n) = n
pos_part (negsuc n) = 0

abbrev pub neg_part : ℤ → ℕ
neg_part (pos n) = 0
neg_part (negsuc n) = suc n

-- a - b, as an integer.
abbrev pub sub_ℕ : ℕ → ℕ → ℤ
sub_ℕ a b = if leb b a then pos (a - b) else negsuc (b - a - 1)

infixl 65 ◌+ℤ◌ ◌-ℤ◌
infix 50 ◌≤ℤ◌ ◌<ℤ◌
unfoldable pub ◌+ℤ◌ : ℤ → ℤ → ℤ
a +ℤ b = sub_ℕ (pos_part a + pos_part b) (neg_part a + neg_part b)

unfoldable pub ◌-ℤ◌ : ℤ → ℤ → ℤ
a -ℤ b = sub_ℕ (pos_part a + neg_part b) (neg_part a + pos_part b)

abbrev pub ◌≤ℤ◌ : ℤ → ℤ → Type 0
a ≤ℤ b = pos_part a + neg_part b ≤ pos_part b + neg_part a

abbrev pub ◌<ℤ◌ : ℤ → ℤ → Type 0
a <ℤ b = pos_part a + neg_part b < pos_part b + neg_part a

abbrev pub ltb_ℤ : ℤ → ℤ → Bool
ltb_ℤ a b = ltb (pos_part a + neg_part b) (pos_part b + neg_part a)

abbrev pub leb_ℤ : ℤ → ℤ → Bool
leb_ℤ a b = leb (pos_part a + neg_part b) (pos_part b + neg_part a)

pub +ℤ_parts :
    (a b : ℤ)
    → pos_part (a +ℤ b) + neg_part a + neg_part b ≡ neg_part (a +ℤ b) + pos_part a + pos_part b
unfolding ◌+ℤ◌
+ℤ_parts a b = ground arith

pub -ℤ_parts :
    (a b : ℤ)
    → pos_part (a -ℤ b) + neg_part a + pos_part b ≡ neg_part (a -ℤ b) + pos_part a + neg_part b
unfolding ◌-ℤ◌
-ℤ_parts a b = ground arith

pub eq_of_parts : (a b : ℤ) → pos_part a + neg_part b ≡ pos_part b + neg_part a → a ≡ b
eq_of_parts a b h = ground arith

pub ruleset int_laws = (arith, +ℤ_parts, -ℤ_parts, eq_of_parts)

pub ltb_ℤ→lt : (a b : ℤ) → ltb_ℤ a b ≡ true → a <ℤ b
ltb_ℤ→lt a b h = ground arith

pub ltb_ℤ→le : (a b : ℤ) → ltb_ℤ a b ≡ false → b ≤ℤ a
ltb_ℤ→le a b h = ground arith

-- Division by a positive number, rounding down: `Unix()` of a time in nanoseconds.
unfoldable pub floor_div : ℤ → ℕ → ℤ
floor_div (pos n) d = pos (n / d)
floor_div (negsuc n) d = negsuc (n / d)

-- The conversions `uint64(i)` and `int64(u)`.
unfoldable pub to_uint64 : ℤ → ℕ
to_uint64 (pos n) = n % 2 ^ 64
to_uint64 (negsuc n) = 2 ^ 64 - 1 - n % 2 ^ 64

unfoldable pub to_int64 : ℕ → ℤ
to_int64 u = if ltb u (2 ^ 63) then pos u else negsuc (2 ^ 64 - 1 - u)

abbrev pub min_int64 : ℤ
min_int64 = negsuc (2 ^ 63 - 1)

abbrev pub max_int64 : ℤ
max_int64 = pos (2 ^ 63 - 1)

pub to_uint64-lt : (t : ℤ) → to_uint64 t < 2 ^ 64
unfolding to_uint64
to_uint64-lt (pos n) = omega arith
to_uint64-lt (negsuc n) = omega arith

-- A signed 64-bit value survives the way through `uint64`.
pub to_int64-to_uint64 : (t : ℤ) → min_int64 ≤ℤ t → t ≤ℤ max_int64 → to_int64 (to_uint64 t) ≡ t
unfolding to_int64 to_uint64
to_int64-to_uint64 (pos n) lo hi = ground arith
to_int64-to_uint64 (negsuc n) lo hi = ground arith

pub to_uint64-to_int64 : (u : ℕ) → u < 2 ^ 64 → to_uint64 (to_int64 u) ≡ u
unfolding to_int64 to_uint64
to_uint64-to_int64 u h = ground arith

pub to_int64_bounds : (u : ℕ) → u < 2 ^ 64 → (min_int64 ≤ℤ to_int64 u) × (to_int64 u ≤ℤ max_int64)
unfolding to_int64
to_int64_bounds u h = ground arith

-- Products, through the two parts.
infixl 70 ◌*ℤ◌
unfoldable pub ◌*ℤ◌ : ℤ → ℤ → ℤ
a *ℤ b =
    sub_ℕ (pos_part a * pos_part b + neg_part a * neg_part b)
      (pos_part a * neg_part b + neg_part a * pos_part b)

-- Go's division by a positive number, rounding to zero.
unfoldable pub trunc_div : ℤ → ℕ → ℤ
trunc_div (pos n) d = pos (n / d)
trunc_div (negsuc n) d = sub_ℕ 0 (suc n / d)

-- What an int64 keeps of an integer.
unfoldable pub wrap_int64 : ℤ → ℤ
wrap_int64 z = to_int64 (to_uint64 z)

pub wrap_int64_id : (z : ℤ) → min_int64 ≤ℤ z → z ≤ℤ max_int64 → wrap_int64 z ≡ z
unfolding wrap_int64
wrap_int64_id z lo hi = to_int64-to_uint64 z lo hi

pub *ℤ_pos : (a b : ℕ) → pos a *ℤ pos b ≡ pos (a * b)
unfolding ◌*ℤ◌
*ℤ_pos a b = ground arith

pub *ℤ_neg : (a b : ℕ) → 0 < b → negsuc a *ℤ pos b ≡ negsuc (suc a * b - 1)
unfolding ◌*ℤ◌
*ℤ_neg a b h = grind arith

pub +ℤ_pos : (a b : ℕ) → pos a +ℤ pos b ≡ pos (a + b)
+ℤ_pos a b = omega int_laws
