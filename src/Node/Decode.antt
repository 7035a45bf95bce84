-- ===== src/Node/Decode.antt =====
-- node.rs: what `b64` writes, `unb64` reads.
use mesui.Prelude.{
  ℕ, ◌/◌, ◌%◌, ◌^◌, ◌<◌, ◌≡◌, ◌≢◌, refl, sym, ap, ◌∙◌, Bool, true, false, Option, none, some, [],
  ◌∷◌, ◌++◌, Bytes, ◌==◌, length, All, IsByte, passes, passes_at, ok, arith,
}
use mathlib.Core.List.{append_assoc, append-nil}
use mesui.Node.Base64.{tbl, char_at, sextet, triple, b64, rev, shift_in, unb64_from, unb64}

abbrev rev_test : ℕ → Bool
rev_test i = elim (rev (sextet i)) [ none ↦ false | some r ↦ r == i ]

rev_table : passes rev_test 64 ≡ true
unfolding passes rev sextet
rev_table = refl

some_of_test :
    (o : Option ℕ) (i : ℕ) → elim o [ none ↦ false | some r ↦ r == i ] ≡ true → o ≡ some i
some_of_test none i h = cc
some_of_test (some r) i h = ground arith

sextet_mod : (n : ℕ) → sextet n ≡ sextet (n % 64)
unfolding sextet
sextet_mod n = let e : n % 64 ≡ n % 64 % 64 = omega arith in ap (char_at tbl) e

-- Each character of the table is read as its index.
pub rev-sextet : (n : ℕ) → rev (sextet n) ≡ some (n % 64)
rev-sextet n =
    ap rev (sextet_mod n)
    ∙ some_of_test (rev (sextet (n % 64))) (n % 64)
        (passes_at rev_test 64 {i = n % 64} (omega arith) rev_table)

-- One character, by how many bits are waiting.
module _ (acc n : ℕ) (out cs : Bytes) where
  read_first : unb64_from acc 0 out (sextet n ∷ cs) ≡ unb64_from (shift_in acc (n % 64)) 6 out cs
  unfolding unb64_from
  read_first = rw (rev-sextet n, unb64_from) refl

  read_second :
      unb64_from acc 6 out (sextet n ∷ cs)
      ≡ unb64_from (shift_in acc (n % 64)) 4 (out ++ (shift_in acc (n % 64) / 2 ^ 4 % 256) ∷ []) cs
  unfolding unb64_from
  read_second = rw (rev-sextet n, unb64_from) refl

  read_third :
      unb64_from acc 4 out (sextet n ∷ cs)
      ≡ unb64_from (shift_in acc (n % 64)) 2 (out ++ (shift_in acc (n % 64) / 2 ^ 2 % 256) ∷ []) cs
  unfolding unb64_from
  read_third = rw (rev-sextet n, unb64_from) refl

  read_fourth :
      unb64_from acc 2 out (sextet n ∷ cs)
      ≡ unb64_from (shift_in acc (n % 64)) 0 (out ++ (shift_in acc (n % 64) / 2 ^ 0 % 256) ∷ []) cs
  unfolding unb64_from
  read_fourth = rw (rev-sextet n, unb64_from) refl

-- The accumulator after some characters of a group of three bytes.
module _ (acc b0 b1 b2 : ℕ) where
  abbrev acc1 : ℕ
  acc1 = shift_in acc (triple b0 b1 b2 / 2 ^ 18 % 64)

  abbrev acc2 : ℕ
  acc2 = shift_in acc1 (triple b0 b1 b2 / 2 ^ 12 % 64)

  abbrev acc3 : ℕ
  acc3 = shift_in acc2 (triple b0 b1 b2 / 2 ^ 6 % 64)

  abbrev acc4 : ℕ
  acc4 = shift_in acc3 (triple b0 b1 b2 % 64)

  module _ (h0 : b0 < 256) (h1 : b1 < 256) (h2 : b2 < 256) where
    byte0 : acc2 / 2 ^ 4 % 256 ≡ b0
    byte0 = omega arith

    byte1 : acc3 / 2 ^ 2 % 256 ≡ b1
    byte1 = omega arith

    byte2 : acc4 / 2 ^ 0 % 256 ≡ b2
    byte2 = omega arith

-- A full group gives its three bytes, whatever the accumulator held before.
read_group :
    (acc b0 b1 b2 : ℕ) (out cs : Bytes)
    → b0 < 256
    → b1 < 256
    → b2 < 256
    → unb64_from acc 0 out (
        sextet (triple b0 b1 b2 / 2 ^ 18)
        ∷ sextet (triple b0 b1 b2 / 2 ^ 12)
        ∷ sextet (triple b0 b1 b2 / 2 ^ 6)
        ∷ sextet (triple b0 b1 b2)
        ∷ cs)
      ≡ unb64_from (acc4 acc b0 b1 b2) 0 (((out ++ b0 ∷ []) ++ b1 ∷ []) ++ b2 ∷ []) cs
read_group acc b0 b1 b2 out cs h0 h1 h2 =
    read_first acc _ out _
    ∙ read_second (acc1 acc b0 b1 b2) _ out _
    ∙ ap
        (λ b.
          unb64_from (acc2 acc b0 b1 b2) 4 (out ++ b ∷ [])
            (sextet (triple b0 b1 b2 / 2 ^ 6) ∷ sextet (triple b0 b1 b2) ∷ cs))
        (byte0 acc b0 b1 b2 h0 h1 h2)
    ∙ read_third (acc2 acc b0 b1 b2) _ (out ++ b0 ∷ []) _
    ∙ ap
        (λ b.
          unb64_from (acc3 acc b0 b1 b2) 2 ((out ++ b0 ∷ []) ++ b ∷ [])
            (sextet (triple b0 b1 b2) ∷ cs))
        (byte1 acc b0 b1 b2 h0 h1 h2)
    ∙ read_fourth (acc3 acc b0 b1 b2) _ ((out ++ b0 ∷ []) ++ b1 ∷ []) _
    ∙ ap (λ b. unb64_from (acc4 acc b0 b1 b2) 0 (((out ++ b0 ∷ []) ++ b1 ∷ []) ++ b ∷ []) cs)
        (byte2 acc b0 b1 b2 h0 h1 h2)

unb64_from_nil : (acc bits : ℕ) (out : Bytes) → unb64_from acc bits out [] ≡ ok out
unfolding unb64_from
unb64_from_nil acc bits out = refl

unb64_from-b64 :
    (acc : ℕ) (out bs : Bytes) → All IsByte bs → unb64_from acc 0 out (b64 bs) ≡ ok (out ++ bs)
unfolding b64
unb64_from-b64 acc out [] h = unb64_from_nil acc 0 out ∙ ap ok (sym (append-nil out))
unb64_from-b64 acc out (b0 ∷ []) h =
    read_first acc _ out _
    ∙ read_second (acc1 acc b0 0 0) _ out _
    ∙ ap (λ b. unb64_from (acc2 acc b0 0 0) 4 (out ++ b ∷ []) [])
        (byte0 acc b0 0 0 h.0 (omega arith) (omega arith))
    ∙ unb64_from_nil (acc2 acc b0 0 0) 4 (out ++ b0 ∷ [])
unb64_from-b64 acc out (b0 ∷ b1 ∷ []) h =
    read_first acc _ out _
    ∙ read_second (acc1 acc b0 b1 0) _ out _
    ∙ ap
        (λ b.
          unb64_from (acc2 acc b0 b1 0) 4 (out ++ b ∷ []) (sextet (triple b0 b1 0 / 2 ^ 6) ∷ []))
        (byte0 acc b0 b1 0 h.0 h.1.0 (omega arith))
    ∙ read_third (acc2 acc b0 b1 0) _ (out ++ b0 ∷ []) _
    ∙ ap (λ b. unb64_from (acc3 acc b0 b1 0) 2 ((out ++ b0 ∷ []) ++ b ∷ []) [])
        (byte1 acc b0 b1 0 h.0 h.1.0 (omega arith))
    ∙ unb64_from_nil (acc3 acc b0 b1 0) 2 ((out ++ b0 ∷ []) ++ b1 ∷ [])
    ∙ ap ok (append_assoc out (b0 ∷ []) (b1 ∷ []))
unb64_from-b64 acc out (b0 ∷ b1 ∷ b2 ∷ bs) h =
    read_group acc b0 b1 b2 out (b64 bs) h.0 h.1.0 h.1.1.0
    ∙ unb64_from-b64 (acc4 acc b0 b1 b2) (((out ++ b0 ∷ []) ++ b1 ∷ []) ++ b2 ∷ []) bs h.1.1.1
    ∙ ap ok (simp append_assoc)

length-b64 : (bs : Bytes) → length (b64 bs) % 4 ≢ 1
unfolding b64
length-b64 [] e = absurd (omega arith)
length-b64 (b0 ∷ []) e = absurd (omega arith)
length-b64 (b0 ∷ b1 ∷ []) e = absurd (omega arith)
length-b64 (b0 ∷ b1 ∷ b2 ∷ bs) e = length-b64 bs (omega arith)

-- What `b64` writes of any byte string, `unb64` reads as that byte string.
pub unb64-b64 : (bs : Bytes) → All IsByte bs → unb64 (b64 bs) ≡ ok bs
unfolding unb64
unb64-b64 bs h = ground (arith, length-b64 bs, unb64_from-b64 0 [] bs h)
