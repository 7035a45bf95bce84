-- ===== src/Prelude/Words.antt =====
-- Fixed-width unsigned integers as native numbers, and their big-endian bytes.
use Prim.Native.Nat.{ℕ, zero, suc, ◌+◌, ◌-◌, ◌*◌, ◌/◌, ◌%◌, ◌^◌, ◌<◌, min}
use mathlib.Core.Path.{◌≡◌, refl, sym, ap, ◌∙◌}
use mathlib.Core.List.{[], ◌∷◌, ◌++◌}
use native.Mathlib.Nat.{pow-suc}
use native.Mathlib.Omega.{arith}
use mesui.Prelude.Tests.{Bytes}
use mesui.Prelude.Lists.{length, length-append, append-injective}

abbrev pub u64_max : ℕ
u64_max = 18_446_744_073_709_551_615

abbrev pub u32_max : ℕ
u32_max = 4_294_967_295

abbrev pub i64_max : ℕ
i64_max = 9_223_372_036_854_775_807

-- `u64::saturating_add` and `u64::saturating_sub`.
abbrev pub saturating_add : ℕ → ℕ → ℕ
saturating_add a b = min (a + b) u64_max

abbrev pub saturating_sub : ℕ → ℕ → ℕ
saturating_sub a b = a - b

-- `+` on u64, in the release profile.
abbrev pub wrapping_add : ℕ → ℕ → ℕ
wrapping_add a b = (a + b) % 2 ^ 64

-- `to_be_bytes` of a `w`-byte integer.
unfoldable pub be_bytes : ℕ → ℕ → Bytes
be_bytes zero x = []
be_bytes (suc w) x = be_bytes w (x / 256) ++ (x % 256) ∷ []

-- `from_be_bytes`, from the digits read so far.
unfoldable pub from_be : ℕ → Bytes → ℕ
from_be acc [] = acc
from_be acc (b ∷ bs) = from_be (acc * 256 + b) bs

pub length-be_bytes : (w x : ℕ) → length (be_bytes w x) ≡ w
unfolding be_bytes
length-be_bytes zero x = refl
length-be_bytes (suc w) x =
    omega
      (arith, length-append (be_bytes w (x / 256)) ((x % 256) ∷ []), length-be_bytes w (x / 256))

from_be-append : (acc : ℕ) (xs ys : Bytes) → from_be acc (xs ++ ys) ≡ from_be (from_be acc xs) ys
unfolding from_be
from_be-append acc [] ys = refl
from_be-append acc (x ∷ xs) ys = from_be-append (acc * 256 + x) xs ys

div_bound : (w x : ℕ) → x < 256 ^ suc w → x / 256 < 256 ^ w
div_bound w x h = let e : 256 ^ suc w ≡ 256 ^ w * 256 = pow-suc 256 w in omega arith

-- Decoding the bytes of an integer that fits the width gives the integer back.
pub from_be-be_bytes : (w x : ℕ) → x < 256 ^ w → from_be 0 (be_bytes w x) ≡ x
unfolding be_bytes from_be
from_be-be_bytes zero x h = omega arith
from_be-be_bytes (suc w) x h =
    from_be-append 0 (be_bytes w (x / 256)) ((x % 256) ∷ [])
    ∙ omega (arith, from_be-be_bytes w (x / 256) (div_bound w x h))

pub be_bytes-injective :
    (w x y : ℕ) → x < 256 ^ w → y < 256 ^ w → be_bytes w x ≡ be_bytes w y → x ≡ y
be_bytes-injective w x y hx hy e =
    sym (from_be-be_bytes w x hx) ∙ ap (from_be 0) e ∙ from_be-be_bytes w y hy

-- Two encodings that begin with an integer of one width agree in it and in the rest.
pub be_bytes-append-injective :
    (w x y : ℕ) {xs ys : Bytes}
    → x < 256 ^ w
    → y < 256 ^ w
    → be_bytes w x ++ xs ≡ be_bytes w y ++ ys
    → (x ≡ y) × (xs ≡ ys)
be_bytes-append-injective w x y hx hy e =
    let (heads, tails) =
      append-injective (be_bytes w x) (be_bytes w y)
        (length-be_bytes w x ∙ sym (length-be_bytes w y)) e in
    (be_bytes-injective w x y hx hy heads, tails)
