-- ===== src/Prelude/Bits.antt =====
-- The constant-time comparison of byte strings, and why it compares: the bit operations over bytes by
-- tables.
use Prim.Native.Nat.{ℕ, zero, suc, ◌<◌, bit_or, bit_xor}
use mathlib.Core.Path.{◌≡◌, refl}
use mathlib.Core.Logic.{◌↔◌}
use mathlib.Core.Bool.{Bool, true, ◌&&◌}
use mathlib.Core.List.{[], ◌∷◌}
use native.Mathlib.Omega.{arith}
use mesui.Prelude.Tests.{Bytes, ltb, ◌==◌, if◌then◌else◌}
use mesui.Prelude.Lists.{length, All}

abbrev pub IsByte : ℕ → Type 0
IsByte b = b < 256

-- `a.iter().zip(b).fold(acc, |acc, (a, b)| acc | (a ^ b))`
unfoldable pub diff : ℕ → Bytes → Bytes → ℕ
diff acc [] ys = acc
diff acc (x ∷ xs) [] = acc
diff acc (x ∷ xs) (y ∷ ys) = diff (bit_or acc (bit_xor x y)) xs ys

-- A test passed by every number under the bound.
unfoldable pub passes : (ℕ → Bool) → ℕ → Bool
passes test zero = true
passes test (suc bound) = passes test bound && test bound

pub passes_at :
    (test : ℕ → Bool) (bound : ℕ) {i : ℕ} → i < bound → passes test bound ≡ true → test i ≡ true
unfolding passes
passes_at test zero small all = absurd (omega arith)
passes_at test (suc bound) {i} small all = ground (arith, passes_at test bound {i = i})

abbrev xor_test : ℕ → ℕ → Bool
xor_test a b = if a == b then bit_xor a b == 0 else ltb 0 (bit_xor a b) && ltb (bit_xor a b) 256

abbrev or_test : ℕ → ℕ → Bool
or_test a b = if bit_or a b == 0 then a == 0 && b == 0 else (ltb (bit_or a b) 256)

xor_table : passes (λ a. passes (xor_test a) 256) 256 ≡ true
unfolding passes
xor_table = refl

or_table : passes (λ a. passes (or_test a) 256) 256 ≡ true
unfolding passes
or_table = refl

record Laws (a b : ℕ) : Type 0 where
  xor_zero : bit_xor a b ≡ 0 → a ≡ b
  xor_same : a ≡ b → bit_xor a b ≡ 0
  xor_byte : bit_xor a b < 256
  or_zero : bit_or a b ≡ 0 → (a ≡ 0) × (b ≡ 0)
  or_both : (a ≡ 0) × (b ≡ 0) → bit_or a b ≡ 0
  or_byte : bit_or a b < 256

or_zeros : (a b : ℕ) → (a ≡ 0) × (b ≡ 0) → bit_or a b ≡ 0
or_zeros a b (p, q) = rw (p, q)

laws : (a b : ℕ) → IsByte a → IsByte b → Laws a b
laws a b ha hb =
    let x =
      passes_at (xor_test a) 256 hb (passes_at (λ c. passes (xor_test c) 256) 256 ha xor_table) in
    let o =
      passes_at (or_test a) 256 hb (passes_at (λ c. passes (or_test c) 256) 256 ha or_table) in
    record {
      xor_zero = λ e. ground arith;
      xor_same = λ e. ground arith;
      xor_byte = ground arith;
      or_zero = λ e. ground arith;
      or_both = or_zeros a b;
      or_byte = ground arith;
    }

diff_zero :
    (acc : ℕ) (xs ys : Bytes)
    → IsByte acc
    → All IsByte xs
    → All IsByte ys
    → length xs ≡ length ys
    → (diff acc xs ys ≡ 0) ↔ ((acc ≡ 0) × (xs ≡ ys))
unfolding diff
diff_zero acc [] [] a hx hy e = (λ z. (z, refl), λ z. z.0)
diff_zero acc [] (y ∷ ys) a hx hy e = absurd (omega arith)
diff_zero acc (x ∷ xs) [] a hx hy e = absurd (omega arith)
diff_zero acc (x ∷ xs) (y ∷ ys) a hx hy e =
    let l = laws x y hx.0 hy.0 in
    let o = laws acc (bit_xor x y) a l.xor_byte in
    let ih = diff_zero (bit_or acc (bit_xor x y)) xs ys o.or_byte hx.1 hy.1 (omega arith) in
    (
      λ z.
          let (zero_acc, tails) = ih.0 z in
          let (za, zx) = o.or_zero zero_acc in let heads = l.xor_zero zx in (za, cc),
      λ z. ih.1 (o.or_both (z.0, l.xor_same (cc)), cc),
    )

-- The folded difference of two byte strings of one length is zero exactly when they are equal.
pub diff_zero_iff :
    (xs ys : Bytes)
    → All IsByte xs
    → All IsByte ys
    → length xs ≡ length ys
    → (diff 0 xs ys ≡ 0) ↔ (xs ≡ ys)
diff_zero_iff xs ys hx hy e =
    let d = diff_zero 0 xs ys (omega arith) hx hy e in (λ z. (d.0 z).1, λ z. d.1 (refl, z))
