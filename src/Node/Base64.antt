-- ===== src/Node/Base64.antt =====
-- node.rs, `b64` and `unb64`: base64url without padding. The shifts are products and quotients, and `|` of
-- numbers with no bit in common is a sum.
use mesui.Prelude.{
  ℕ, zero, suc, ◌+◌, ◌-◌, ◌*◌, ◌/◌, ◌%◌, ◌^◌, ◌&&◌, Option, none, some, [], ◌∷◌, ◌++◌, Bytes, codes,
  leb, ◌==◌, if◌then◌else◌, length, config, Result, ok, err, ◌>>◌, fail_if,
}

unfoldable pub tbl : Bytes
unfolding codes
tbl = codes "ABCDEFGHIJKLMNOPQRSTUVWXYZabcdefghijklmnopqrstuvwxyz0123456789-_"

-- `TBL[i]`: the index is masked to 63.
unfoldable pub char_at : Bytes → ℕ → ℕ
char_at [] i = 0
char_at (c ∷ cs) zero = c
char_at (c ∷ cs) (suc i) = char_at cs i

unfoldable pub sextet : ℕ → ℕ
unfolding tbl char_at
sextet n = char_at tbl (n % 64)

-- The bytes of a chunk as one number.
abbrev pub triple : ℕ → ℕ → ℕ → ℕ
triple b0 b1 b2 = b0 * 2 ^ 16 + b1 * 2 ^ 8 + b2

unfoldable pub b64 : Bytes → Bytes
unfolding sextet
b64 [] = []
b64 (b0 ∷ []) = sextet (triple b0 0 0 / 2 ^ 18) ∷ sextet (triple b0 0 0 / 2 ^ 12) ∷ []
b64 (b0 ∷ b1 ∷ []) =
    sextet (triple b0 b1 0 / 2 ^ 18)
    ∷ sextet (triple b0 b1 0 / 2 ^ 12)
    ∷ sextet (triple b0 b1 0 / 2 ^ 6)
    ∷ []
b64 (b0 ∷ b1 ∷ b2 ∷ bs) =
    sextet (triple b0 b1 b2 / 2 ^ 18)
    ∷ sextet (triple b0 b1 b2 / 2 ^ 12)
    ∷ sextet (triple b0 b1 b2 / 2 ^ 6)
    ∷ sextet (triple b0 b1 b2)
    ∷ b64 bs

abbrev pub within : ℕ → ℕ → ℕ → Option ℕ → Option ℕ → Option ℕ
within lo hi c r rest = if leb lo c && leb c hi then r else rest

unfoldable pub rev : ℕ → Option ℕ
rev c = within b'A' b'Z' c (some (c - b'A')) (
    within b'a' b'z' c (some (c - b'a' + 26)) (
      within b'0' b'9' c (some (c - b'0' + 52))
        (if c == b'-' then some 62 else if c == b'_' then some 63 else none)))

-- `acc << 6`, in 32 bits, with the next six bits.
abbrev pub shift_in : ℕ → ℕ → ℕ
shift_in acc r = acc * 64 % 2 ^ 32 + r

-- The loop: the accumulator, how many of its bits are still to be written, and what was written.
unfoldable pub unb64_from : ℕ → ℕ → Bytes → Bytes → Result Bytes
unfolding rev
unb64_from acc bits out [] = ok out
unb64_from acc bits out (c ∷ cs) = elim (rev c) [
  | none ↦ err (config "bad base64 char")
  | some r ↦
      let full =
        unb64_from (shift_in acc r) (bits + 6 - 8)
          (out ++ (shift_in acc r / 2 ^ (bits + 6 - 8) % 256) ∷ []) cs in
      let more = unb64_from (shift_in acc r) (bits + 6) out cs in
      if leb 8 (bits + 6) then full else more
]

unfoldable pub unb64 : Bytes → Result Bytes
unfolding unb64_from
unb64 s = do fail_if (length s % 4 == 1) (config "bad base64 length"); unb64_from 0 0 [] s
