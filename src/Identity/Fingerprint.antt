-- ===== src/Identity/Fingerprint.antt =====
-- identity.rs, the fingerprint: its input tells the parts apart, and the groups read to a user are
-- the first of its printed form.
use mathlib.Core.List.{append-nil, append_assoc}
use mesui.Prelude.{
  ℕ, zero, suc, ◌/◌, ◌%◌, ◌^◌, ◌<◌, ◌≡◌, refl, sym, ap, ◌∙◌, false, List, [], ◌∷◌, ◌++◌, Bytes,
  codes, arith, ◌==◌, length, take, drop, be_bytes, append-injective, be_bytes-append-injective,
  All, ap₂,
}
use mesui.Identity.{
  absorb, fingerprint_input, hex_digit, hex, chunks8, space, join, format_fingerprint, split_from,
  safety_groups,
}

-- A part whose length fits a `u64`.
abbrev pub IsShort : Bytes → Type 0
IsShort p = length p < 2 ^ 64

absorb-injective :
    (ps qs : List Bytes)
    → All IsShort ps
    → All IsShort qs
    → length ps ≡ length qs
    → absorb ps ≡ absorb qs
    → ps ≡ qs
unfolding absorb
absorb-injective [] [] a b n h = refl
absorb-injective [] (q ∷ qs) a b n h = absurd (omega arith)
absorb-injective (p ∷ ps) [] a b n h = absurd (omega arith)
absorb-injective (p ∷ ps) (q ∷ qs) a b n h =
    let (size, tails) =
      be_bytes-append-injective 8 (length p) (length q) {xs = p ++ absorb ps} {ys = q ++ absorb qs}
        (omega (arith, a.0)) (omega (arith, b.0)) h in
    let (same, rest) = append-injective p q {xs = absorb ps} {ys = absorb qs} size tails in
    ap₂ ◌∷◌ same (absorb-injective ps qs a.1 b.1 (omega arith) rest)

-- Two lists of fewer than 2^32 parts, each shorter than 2^64 bytes, have the same input of the hash
-- only if they are the same parts.
pub fingerprint_input-injective :
    (ps qs : List Bytes)
    → All IsShort ps
    → All IsShort qs
    → length ps < 2 ^ 32
    → length qs < 2 ^ 32
    → fingerprint_input ps ≡ fingerprint_input qs
    → ps ≡ qs
unfolding fingerprint_input
fingerprint_input-injective ps qs a b m n h =
    let tag = codes "dc-fingerprint-v1" in
    let (same, after) =
      append-injective tag tag {xs = be_bytes 4 (length ps % 2 ^ 32) ++ absorb ps}
        {ys = be_bytes 4 (length qs % 2 ^ 32) ++ absorb qs} refl h in
    let (counts, parts) =
      be_bytes-append-injective 4 (length ps % 2 ^ 32) (length qs % 2 ^ 32) {xs = absorb ps}
        {ys = absorb qs} (omega arith) (omega arith) after in
    absorb-injective ps qs a b (omega arith) parts

abbrev NoSpace : ℕ → Type 0
NoSpace c = (c == space) ≡ false

hex_digit-NoSpace : (n : ℕ) → NoSpace (hex_digit n)
unfolding hex_digit
hex_digit-NoSpace n = ground arith

hex-NoSpace : (bs : Bytes) → All NoSpace (hex bs)
unfolding hex hex_digit
hex-NoSpace [] = tt
hex-NoSpace (b ∷ bs) = (hex_digit-NoSpace (b / 16), (hex_digit-NoSpace (b % 16), hex-NoSpace bs))

take-NoSpace : (n : ℕ) (xs : Bytes) → All NoSpace xs → All NoSpace (take n xs)
take-NoSpace zero xs a = tt
take-NoSpace (suc n) [] a = tt
take-NoSpace (suc n) (x ∷ xs) a = (a.0, take-NoSpace n xs a.1)

drop-NoSpace : (n : ℕ) (xs : Bytes) → All NoSpace xs → All NoSpace (drop n xs)
drop-NoSpace zero xs a = a
drop-NoSpace (suc n) [] a = tt
drop-NoSpace (suc n) (x ∷ xs) a = drop-NoSpace n xs a.1

chunks8-NoSpace : (fuel : ℕ) (xs : Bytes) → All NoSpace xs → All (All NoSpace) (chunks8 fuel xs)
unfolding chunks8
chunks8-NoSpace zero xs a = tt
chunks8-NoSpace (suc fuel) [] a = tt
chunks8-NoSpace (suc fuel) (x ∷ xs) a =
    (take-NoSpace 8 (x ∷ xs) a, chunks8-NoSpace fuel (drop 8 (x ∷ xs)) (drop-NoSpace 8 (x ∷ xs) a))

split-word :
    (w g rest : Bytes) → All NoSpace g → split_from w (g ++ rest) ≡ split_from (w ++ g) rest
unfolding split_from
split-word w [] rest a = ap (λ v. split_from v rest) (sym (append-nil w))
split-word w (c ∷ g) rest a =
    rw (a.0, split_from)
      (split-word (w ++ c ∷ []) g rest a.1
        ∙ ap (λ v. split_from v rest) (append_assoc w (c ∷ []) g))

split-join :
    (w g : Bytes) (gs : List Bytes)
    → All (All NoSpace) (g ∷ gs)
    → split_from w (join (g ∷ gs)) ≡ (w ++ g) ∷ gs
unfolding split_from join
split-join w g [] a = ap (split_from w) (sym (append-nil g)) ∙ split-word w g [] a.0
split-join w g (h ∷ gs) a =
    split-word w g (space ∷ join (h ∷ gs)) a.0 ∙ ap (◌∷◌ (w ++ g)) (split-join [] h gs a.1)

-- The groups read to a user are the first groups of eight digits of the printed fingerprint, with
-- single spaces between them.
pub safety_groups_lem :
    (fp : Bytes) (groups : ℕ)
    → safety_groups fp groups ≡ join (take groups (chunks8 (length (hex fp)) (hex fp)))
unfolding safety_groups format_fingerprint split_from join
safety_groups_lem fp groups =
    go (chunks8 (length (hex fp)) (hex fp))
      (chunks8-NoSpace (length (hex fp)) (hex fp) (hex-NoSpace fp))
  where
    go :
        (gs : List Bytes)
        → All (All NoSpace) gs
        → join (take groups (split_from [] (join gs))) ≡ join (take groups gs)
    go [] a = none_taken groups
      where
        none_taken : (n : ℕ) → join (take n (split_from [] (join []))) ≡ join (take n [])
        none_taken zero = refl
        none_taken (suc zero) = refl
        none_taken (suc (suc n)) = refl
    go (g ∷ gs) a = ap (λ l. join (take groups l)) (split-join [] g gs a)
