-- ===== src/Envelope/Frame.antt =====
-- The framing of envelope.rs on a stream, and the checks of `Envelope::from_cbor`.
use mesui.Prelude.{
  failed, Option, Result, cbor, ◌⊎◌, ◌↔◌, done, Outcome, map_err, ◌*◌, ◌/◌, ◌%◌, All, ℕ, zero, suc,
  ◌+◌, ◌≤◌, ◌<◌, ◌≡◌, refl, ap, ◌∙◌, none, some, [], ◌∷◌, ◌++◌, Bytes, length, take, drop, be_bytes,
  from_be, length-be_bytes, from_be-be_bytes, length-append, take-append, drop-append, arith, ok,
  ltb, if◌then◌else◌, u32_max, dec_lt,
}
use mesui.Envelope.{Envelope, Codec, to_cbor, from_cbor, frame, unframe, max_frame_size}

-- The bytes of a frame.
abbrev framed : Bytes → Bytes
framed msg = be_bytes 4 (length msg) ++ msg

frame-eq :
    (msg : Bytes) {f : Bytes} → frame msg ≡ some f → (f ≡ framed msg) × (length msg ≤ u32_max)
unfolding frame
frame-eq msg h = ground arith

length-framed : (msg : Bytes) → length (framed msg) ≡ 4 + length msg
length-framed msg =
    omega (arith, length-append (be_bytes 4 (length msg)) msg, length-be_bytes 4 (length msg))

take-framed :
    (msg rest : Bytes)
    → (take 4 (framed msg ++ rest) ≡ be_bytes 4 (length msg))
      × (drop 4 (framed msg ++ rest) ≡ msg ++ rest)
unfolding be_bytes
take-framed msg rest = (refl, refl)

append-nil : (xs : Bytes) → xs ++ [] ≡ xs
append-nil [] = refl
append-nil (x ∷ xs) = ap (◌∷◌ x) (append-nil xs)

header : (n : ℕ) → n ≤ u32_max → from_be 0 (be_bytes 4 n) ≡ n
header n h = from_be-be_bytes 4 n (omega arith)

header4 :
    (msg f : Bytes)
    → f ≡ framed msg
    → length msg ≤ max_frame_size
    → from_be 0 (take 4 f) ≡ length msg
header4 msg f e h =
    rw (e, ← append-nil (framed msg), (take-framed msg []).0) (header (length msg) (omega arith))

-- The behaviour of `unframe` when the first four bytes announce `n`.
unframe_header :
    (buf : Bytes) (n : ℕ)
    → 4 ≤ length buf
    → from_be 0 (take 4 buf) ≡ n
    → n ≤ max_frame_size
    → unframe buf
      ≡ (if ltb (length buf) (4 + n) then ok none else ok (some (take n (drop 4 buf), 4 + n)))
unfolding unframe
unframe_header buf n h e small = rw e (ground arith)

-- A frame of a payload within the limit is read back whole, whatever follows it in the buffer, and
-- exactly its bytes are consumed.
pub unframe-frame :
    (msg rest f : Bytes)
    → length msg ≤ max_frame_size
    → frame msg ≡ some f
    → (unframe (f ++ rest) ≡ ok (some (msg, 4 + length msg)))
      × (drop (4 + length msg) (f ++ rest) ≡ rest)
unframe-frame msg rest f h e = rw ((frame-eq msg e).0) (
    let n = length msg in
    let long : length (framed msg ++ rest) ≡ 4 + n + length rest =
      omega (arith, length-append (framed msg) rest, length-framed msg) in
    let head : from_be 0 (take 4 (framed msg ++ rest)) ≡ n =
      ap (from_be 0) ((take-framed msg rest).0) ∙ header n (omega arith) in
    (
      unframe_header (framed msg ++ rest) n (omega arith) head h
          ∙ rw ((take-framed msg rest).1, take-append msg rest) (ground arith),
      rw (← length-framed msg) (drop-append (framed msg) rest),
    ))

take-take : (m n : ℕ) (xs : Bytes) → m ≤ n → take m (take n xs) ≡ take m xs
take-take zero n xs h = refl
take-take (suc m) zero xs h = absurd (omega arith)
take-take (suc m) (suc n) [] h = refl
take-take (suc m) (suc n) (x ∷ xs) h = ap (◌∷◌ x) (take-take m n xs (omega arith))

length-take : (n : ℕ) (xs : Bytes) → n ≤ length xs → length (take n xs) ≡ n
length-take zero xs h = refl
length-take (suc n) [] h = absurd (omega arith)
length-take (suc n) (x ∷ xs) h = ap suc (length-take n xs (omega arith))

unframe_short : (buf : Bytes) → length buf < 4 → unframe buf ≡ ok none
unfolding unframe
unframe_short buf h = ground arith

-- While any byte of a frame of a payload within the limit is missing, the reader asks for more and
-- reports no error.
pub unframe_partial :
    (msg f : Bytes) (n : ℕ)
    → length msg ≤ max_frame_size
    → frame msg ≡ some f
    → n < length f
    → unframe (take n f) ≡ ok none
unframe_partial msg f n h e lt = elim (dec_lt n 4) [
  | yes short ↦ unframe_short (take n f) (omega (arith, length-take n f))
  | no enough ↦
      let long : length (take n f) ≡ n = length-take n f (omega arith) in
      let whole : f ≡ framed msg = (frame-eq msg e).0 in
      let head : from_be 0 (take 4 (take n f)) ≡ length msg =
        ap (from_be 0) (take-take 4 n f (omega arith)) ∙ header4 msg f whole h in
      unframe_header (take n f) (length msg) (omega arith) head h
      ∙ ground (arith, ap (length {A = ℕ}) whole, length-framed msg)
]

four-add : {n : ℕ} → 4 + n ≡ suc (suc (suc (suc n)))
four-add = omega arith

none≢some : {r : Result (Option (Bytes × ℕ))} {a : Bytes × ℕ} → r ≡ ok none → r ≡ ok (some a) → ⊥
none≢some p q = cc

digits4 :
    (a b c d : ℕ)
    → a < 256
    → b < 256
    → c < 256
    → d < 256
    → be_bytes 4 (from_be 0 (a ∷ b ∷ c ∷ d ∷ [])) ≡ a ∷ b ∷ c ∷ d ∷ []
unfolding be_bytes from_be
digits4 a b c d ha hb hc hd =
    let n = ((a * 256 + b) * 256 + c) * 256 + d in
    let e3 : n / 256 / 256 / 256 % 256 ≡ a = omega arith in
    let e2 : n / 256 / 256 % 256 ≡ b = omega arith in
    let e1 : n / 256 % 256 ≡ c = omega arith in let e0 : n % 256 ≡ d = omega arith in ground arith

unframe_long :
    (a b c d : ℕ) (r payload : Bytes) (used : ℕ)
    → unframe (a ∷ b ∷ c ∷ d ∷ r) ≡ ok (some (payload, used))
    → let n = from_be 0 (a ∷ b ∷ c ∷ d ∷ []) in
      (n ≤ max_frame_size) × (n ≤ length r) × (payload ≡ take n r) × (used ≡ 4 + n)
unfolding unframe
unframe_long a b c d r payload used e = ground arith

frame-take :
    (a b c d : ℕ) (r : Bytes) (n : ℕ)
    → be_bytes 4 n ≡ a ∷ b ∷ c ∷ d ∷ []
    → n ≤ max_frame_size
    → n ≤ length r
    → frame (take n r) ≡ some (take (4 + n) (a ∷ b ∷ c ∷ d ∷ r))
unfolding frame
frame-take a b c d r n e small fits =
    rw (length-take n r fits, e)
      (let four : take (4 + n) (a ∷ b ∷ c ∷ d ∷ r) ≡ a ∷ b ∷ c ∷ d ∷ take n r = rw four-add refl in
        ground arith)

-- What `unframe` hands out is exactly one frame, as `frame` writes it, from the front of the
-- buffer, and no payload is longer than the limit; the elements of the buffer are bytes.
pub frame-unframe :
    (buf payload : Bytes) (used : ℕ)
    → All (λ b. b < 256) buf
    → unframe buf ≡ ok (some (payload, used))
    → (frame payload ≡ some (take used buf))
      × (used ≤ length buf)
      × (length payload ≤ max_frame_size)
frame-unframe (a ∷ b ∷ c ∷ d ∷ r) payload used h e =
    let (small, fits, here, count) = unframe_long a b c d r payload used e in
    let n = from_be 0 (a ∷ b ∷ c ∷ d ∷ []) in
    let digits = digits4 a b c d h.0 h.1.0 h.1.1.0 h.1.1.1.0 in
    rw (here, count)
      (frame-take a b c d r n digits small fits, omega arith, omega (arith, length-take n r fits))
frame-unframe buf payload used h e = absurd (none≢some (unframe_short buf (omega arith)) e)

-- Unicast, group or neither, and a group envelope still has a hop to go.
abbrev pub WellAddressed : Envelope → Type 0
WellAddressed e = (e.group ≡ none) ⊎ ((e.recipient ≡ none) × (0 < e.ttl_hops))

module _ (codec : Codec Envelope) where
  -- A decoded envelope is passed on exactly when it is well addressed; any other is an error.
  pub from_cbor_iff :
      (e : Envelope) (bytes : Bytes)
      → codec.from_reader bytes ≡ done e
      → (from_cbor codec bytes ≡ ok e) ↔ WellAddressed e
  unfolding from_cbor
  from_cbor_iff e bytes read = (λ h. ground arith, λ w. ground arith)

  -- With a codec that reads back what it writes, a well-addressed envelope survives the wire.
  pub from_cbor-to_cbor :
      ((e : Envelope) (b : Bytes) → codec.into_writer e ≡ done b → codec.from_reader b ≡ done e)
      → (e : Envelope) (bytes : Bytes) → WellAddressed e
      → to_cbor codec e ≡ ok bytes
      → from_cbor codec bytes ≡ ok e
  unfolding to_cbor
  from_cbor-to_cbor law e bytes w h =
      (from_cbor_iff e bytes (law e bytes (wrote (codec.into_writer e) h))).1 w
    where
      wrote : {b : Bytes} (o : Outcome Bytes) → map_err cbor o ≡ ok b → o ≡ done b
      wrote (done x) q = cc
      wrote (failed x) q = cc
