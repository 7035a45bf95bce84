-- ===== src/Node/Hex.antt =====
-- node.rs, `hex` and `unhex`.
use mesui.Prelude.{
  ℕ, ◌+◌, ◌-◌, ◌*◌, ◌/◌, ◌%◌, ◌<◌, ◌≡◌, refl, ap, Bool, true, false, not, ◌||◌, ◌&&◌, Option, none,
  some, [], ◌∷◌, Bytes, ltb, leb, ◌==◌, if◌then◌else◌, length, All, IsByte, any, passes, passes_at,
  arith,
}

abbrev pub digit : ℕ → ℕ
digit n = if ltb n 10 then 48 + n else 87 + n

unfoldable pub hex : Bytes → Bytes
hex [] = []
hex (b ∷ bs) = digit (b / 16) ∷ digit (b % 16) ∷ hex bs

-- `is_ascii_hexdigit`, with the digit's value.
abbrev pub hex_value : ℕ → Option ℕ
hex_value c =
    if leb b'0' c && leb c b'9'
    then some (c - 48)
    else if leb b'a' c && leb c b'f'
    then some (c - 87)
    else if leb b'A' c && leb c b'F'
    then some (c - 55)
    else none

abbrev pub is_hexdigit : ℕ → Bool
is_hexdigit c = elim (hex_value c) [ none ↦ false | some v ↦ true ]

-- `u8::from_str_radix` of two digits.
abbrev pub from_radix16 : ℕ → ℕ → Option ℕ
from_radix16 h l = elim (hex_value h) [
  | none ↦ none
  | some x ↦ elim (hex_value l) [ none ↦ none | some y ↦ some (x * 16 + y) ]
]

-- The pairs, collected: one that cannot be read makes the whole nothing.
unfoldable pub pairs : Bytes → Option Bytes
pairs [] = some []
pairs (h ∷ []) = some []
pairs (h ∷ l ∷ cs) =
    let rest = pairs cs in
    elim (from_radix16 h l) [
      | none ↦ none
      | some b ↦ elim rest [ none ↦ none | some bs ↦ some (b ∷ bs) ]
    ]

unfoldable pub unhex : Bytes → Option Bytes
unfolding pairs any
unhex s = if not (length s % 2 == 0) || any (λ c. not (is_hexdigit c)) s then none else pairs s

abbrev digit_test : ℕ → Bool
digit_test i = elim (hex_value (digit i)) [ none ↦ false | some v ↦ v == i ]

digit_table : passes digit_test 16 ≡ true
unfolding passes
digit_table = refl

value_of_test :
    (o : Option ℕ) (i : ℕ) → elim o [ none ↦ false | some v ↦ v == i ] ≡ true → o ≡ some i
value_of_test none i h = cc
value_of_test (some v) i h = ground arith

pub hex_value-digit : (i : ℕ) → i < 16 → hex_value (digit i) ≡ some i
hex_value-digit i h =
    value_of_test (hex_value (digit i)) i (passes_at digit_test 16 {i = i} h digit_table)

radix-digits : (b : ℕ) → b < 256 → from_radix16 (digit (b / 16)) (digit (b % 16)) ≡ some b
radix-digits b h =
    rw (hex_value-digit (b / 16) (omega arith), from_radix16)
      (rw (hex_value-digit (b % 16) (omega arith))
        (let e : b / 16 * 16 + b % 16 ≡ b = omega arith in ap some e))

pairs-hex : (bs : Bytes) → All IsByte bs → pairs (hex bs) ≡ some bs
unfolding pairs hex
pairs-hex [] h = refl
pairs-hex (b ∷ bs) h = rw (radix-digits b h.0, pairs) (rw (pairs-hex bs h.1) refl)

length-hex : (bs : Bytes) → length (hex bs) % 2 ≡ 0
unfolding hex
length-hex [] = omega arith
length-hex (b ∷ bs) = omega (arith, length-hex bs)

is_hexdigit-digit : (i : ℕ) → i < 16 → is_hexdigit (digit i) ≡ true
is_hexdigit-digit i h = rw (hex_value-digit i h, is_hexdigit) refl

any-hex : (bs : Bytes) → All IsByte bs → any (λ c. not (is_hexdigit c)) (hex bs) ≡ false
unfolding any hex
any-hex [] h = refl
any-hex (b ∷ bs) h =
    rw (is_hexdigit-digit (b / 16) (omega arith), any)
      (rw (is_hexdigit-digit (b % 16) (omega arith), any) (any-hex bs h.1))

-- What `hex` writes of any byte string, `unhex` reads as that byte string.
pub unhex-hex : (bs : Bytes) → All IsByte bs → unhex (hex bs) ≡ some bs
unfolding unhex
unhex-hex bs h = rw (length-hex bs) (rw (any-hex bs h) (pairs-hex bs h))
