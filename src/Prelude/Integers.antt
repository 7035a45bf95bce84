-- ===== src/Prelude/Integers.antt =====
-- Integers over the native numbers, and the arithmetic of `i64` on them.
use Prim.Native.Nat.{ℕ, suc, ◌+◌, ◌-◌, ◌/◌, ◌%◌, ◌^◌, ◌≤◌}
use mathlib.Core.Bool.{Bool, true, false, not}
use native.Mathlib.Omega.{arith}
use mesui.Prelude.Tests.{leb, if◌then◌else◌}
use mesui.Prelude.Words.{i64_max}

-- `negsuc n` is `-(n + 1)`.
pub data ℤ : Type 0 where
  pos negsuc : ℕ → ℤ

-- `m - n`.
abbrev pub difference : ℕ → ℕ → ℤ
difference m n = if leb n m then pos (m - n) else negsuc (n - m - 1)

infixl 6 ◌+ℤ◌ ◌-ℤ◌
unfoldable pub ◌+ℤ◌ : ℤ → ℤ → ℤ
pos a +ℤ pos b = pos (a + b)
pos a +ℤ negsuc b = difference a (suc b)
negsuc a +ℤ pos b = difference b (suc a)
negsuc a +ℤ negsuc b = negsuc (a + b + 1)

unfoldable pub negate : ℤ → ℤ
negate (pos a) = difference 0 a
negate (negsuc a) = pos (suc a)

unfoldable pub ◌-ℤ◌ : ℤ → ℤ → ℤ
unfolding ◌+ℤ◌ negate
x -ℤ y = x +ℤ negate y

unfoldable pub lez : ℤ → ℤ → Bool
lez (pos a) (pos b) = leb a b
lez (pos a) (negsuc b) = false
lez (negsuc a) (pos b) = true
lez (negsuc a) (negsuc b) = leb b a

abbrev pub ltz : ℤ → ℤ → Bool
ltz x y = not (lez y x)

-- `Ord::clamp` and `Ord::max`.
unfoldable pub clamp : ℤ → ℤ → ℤ → ℤ
unfolding lez
clamp lo hi x = if ltz x lo then lo else (if ltz hi x then hi else x)

unfoldable pub max_int : ℤ → ℤ → ℤ
unfolding lez
max_int x y = if lez x y then y else x

abbrev pub int_max : ℤ
int_max = pos i64_max

abbrev pub int_min : ℤ
int_min = negsuc i64_max

unfoldable pub saturating_plus : ℤ → ℤ → ℤ
unfolding clamp ◌+ℤ◌
saturating_plus x y = clamp int_min int_max (x +ℤ y)

unfoldable pub saturating_minus : ℤ → ℤ → ℤ
unfolding clamp ◌-ℤ◌
saturating_minus x y = clamp int_min int_max (x -ℤ y)

-- The value of the low 64 bits, for `+`, `-` and `as i64`.
unfoldable pub wrap : ℤ → ℤ
wrap (pos a) = let r = a % 2 ^ 64 in if leb r i64_max then pos r else negsuc (2 ^ 64 - 1 - r)
wrap (negsuc a) = let r = a % 2 ^ 64 in if leb r i64_max then negsuc r else pos (2 ^ 64 - 1 - r)

-- `i64::abs`, which leaves the least integer as it is.
unfoldable pub abs : ℤ → ℤ
unfolding wrap negate
abs (pos a) = pos a
abs (negsuc a) = wrap (negate (negsuc a))

-- `/ 2` rounds towards zero.
unfoldable pub half : ℤ → ℤ
half (pos a) = pos (a / 2)
half (negsuc a) = difference 0 (suc a / 2)

-- The absolute value is at most `n`.
abbrev pub Within : ℕ → ℤ → Type 0
Within n (pos a) = a ≤ n
Within n (negsuc a) = suc a ≤ n

abbrev pub opposite : ℕ → ℤ
opposite n = difference 0 n

pub clamp-Within : (n : ℕ) (x : ℤ) → Within n (clamp (opposite n) (pos n) x)
unfolding clamp lez
clamp-Within n (pos a) = ground arith
clamp-Within n (negsuc a) = ground arith

-- The mean of two integers is no larger than the larger of them.
pub half-Within : (n : ℕ) (x y : ℤ) → Within n x → Within n y → Within n (half (wrap (x +ℤ y)))
unfolding half wrap ◌+ℤ◌
half-Within n (pos a) (pos b) h k = ground arith
half-Within n (pos a) (negsuc b) h k = ground arith
half-Within n (negsuc a) (pos b) h k = ground arith
half-Within n (negsuc a) (negsuc b) h k = ground arith
