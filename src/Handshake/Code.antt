-- ===== src/Handshake/Code.antt =====
-- handshake.rs: what the short safety code is.
use mesui.Prelude.{
  ℕ, zero, suc, ◌+◌, ◌-◌, ◌*◌, ◌/◌, ◌%◌, ◌^◌, ◌<◌, ◌≡◌, refl, ap, ◌∙◌, [], ◌∷◌, ◌++◌, Bytes, length,
  length-append, ok, arith,
}
use native.Mathlib.Nat.{pow-suc}
use mesui.Handshake.Sas.{FingerprintApi, decimals, short_code, sas_code}

-- The number that a text of decimal digits stands for, from what was read so far.
unfoldable pub read_decimal : ℕ → Bytes → ℕ
read_decimal acc [] = acc
read_decimal acc (c ∷ cs) = read_decimal (acc * 10 + (c - 48)) cs

length-decimals : (w n : ℕ) → length (decimals w n) ≡ w
unfolding decimals
length-decimals zero n = refl
length-decimals (suc w) n =
    omega
      (arith, length-append (decimals w (n / 10)) ((48 + n % 10) ∷ []), length-decimals w (n / 10))

read_decimal-append :
    (acc : ℕ) (xs ys : Bytes) → read_decimal acc (xs ++ ys) ≡ read_decimal (read_decimal acc xs) ys
unfolding read_decimal
read_decimal-append acc [] ys = refl
read_decimal-append acc (x ∷ xs) ys = read_decimal-append (acc * 10 + (x - 48)) xs ys

tenth_lt : (w n : ℕ) → n < 10 ^ suc w → n / 10 < 10 ^ w
tenth_lt w n h = let e : 10 ^ suc w ≡ 10 ^ w * 10 = pow-suc 10 w in omega arith

read_decimal-decimals : (w n : ℕ) → n < 10 ^ w → read_decimal 0 (decimals w n) ≡ n
unfolding decimals read_decimal
read_decimal-decimals zero n h = omega arith
read_decimal-decimals (suc w) n h =
    read_decimal-append 0 (decimals w (n / 10)) ((48 + n % 10) ∷ [])
    ∙ omega (arith, read_decimal-decimals w (n / 10) (tenth_lt w n h))

short_code-lt : (hash : Bytes → Bytes) (full : Bytes) → short_code hash full < 1_000_000
unfolding short_code
short_code-lt hash full = omega arith

module _ {F : Type 0} (api : FingerprintApi F) (hash : Bytes → Bytes) where
  -- The short safety code has six digits, and they stand for the number that the hash of the displayed
  -- text gives, which is below a million.
  pub sas_code_six :
      (local_id local_key remote_id remote_key full six : Bytes)
      → sas_code api hash local_id local_key remote_id remote_key ≡ ok (full, six)
      → (length six ≡ 6)
        × (read_decimal 0 six ≡ short_code hash full)
        × (short_code hash full < 1_000_000)
  unfolding sas_code
  sas_code_six local_id local_key remote_id remote_key full six h =
      let e : six ≡ decimals 6 (short_code hash full) = ground arith in
      (
        ap length e ∙ length-decimals 6 (short_code hash full),
        ap (read_decimal 0) e
            ∙ read_decimal-decimals 6 (short_code hash full) (short_code-lt hash full),
        short_code-lt hash full,
      )
