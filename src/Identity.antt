-- ===== src/Identity.antt =====
-- crates/core/src/identity.rs: the long-term key pair, strict verification, and the 1024-bit
-- fingerprint with its printed form. `ed25519_dalek`, the BLAKE3 output function and the random
-- generator are arguments. A text is the list of its ASCII codes.
pub mod Fingerprint
mod Tests
use mesui.Prelude.{
  ℕ, zero, suc, ◌+◌, ◌/◌, ◌%◌, ◌^◌, List, [], ◌∷◌, ◌++◌, Bytes, codes, ltb, if◌then◌else◌, ◌==◌,
  length, take, drop, replicate, be_bytes, Result, ok, err, ◌>>=◌, entropy, crypto, Outcome,
  map_err,
}

-- What the code uses of `ed25519_dalek`: a key is its 32 bytes.
pub record Ed25519 : Type 0 where
  pub verifying_key : Bytes → Bytes
  pub sign : Bytes → Bytes → Bytes
  pub from_bytes : Bytes → Outcome Bytes
  pub verify_strict : Bytes → Bytes → Bytes → Outcome (Unit {0})

pub record Identity : Type 0 where
  pub sk : Bytes

unfoldable pub from_seed : Bytes → Identity
from_seed seed = record { sk = seed }

-- The argument is what `getrandom::fill` makes of the seed.
unfoldable pub generate : Outcome Bytes → Result Identity
unfolding from_seed
generate filled = do seed ← map_err entropy filled; ok (from_seed seed)

module _ (ed : Ed25519) where
  unfoldable pub node_id : Identity → Bytes
  node_id i = ed.verifying_key i.sk

  unfoldable pub sign : Identity → Bytes → Bytes
  sign i msg = ed.sign i.sk msg

  unfoldable pub verify : Bytes → Bytes → Bytes → Result (Unit {0})
  verify vk msg sig = map_err crypto (ed.verify_strict vk msg sig)

-- The loop over the parts: each with its length in front.
unfoldable pub absorb : List Bytes → Bytes
absorb [] = []
absorb (p ∷ ps) = be_bytes 8 (length p) ++ (p ++ absorb ps)

-- All that the hasher has read when the output is drawn.
unfoldable pub fingerprint_input : List Bytes → Bytes
fingerprint_input parts =
    codes "dc-fingerprint-v1" ++ (be_bytes 4 (length parts % 2 ^ 32) ++ absorb parts)

unfoldable pub fingerprint1024 : (Bytes → Bytes) → List Bytes → Bytes
fingerprint1024 xof parts = xof (fingerprint_input parts)

unfoldable pub identity_fingerprint : (Bytes → Bytes) → Bytes → Bytes
unfolding fingerprint1024
identity_fingerprint xof node_id = fingerprint1024 xof (codes "identity" ∷ node_id ∷ [])

unfoldable pub hex_digit : ℕ → ℕ
hex_digit n = if ltb n 10 then 48 + n else 87 + n

-- `format!("{b:02x}")` of each byte.
unfoldable pub hex : Bytes → Bytes
unfolding hex_digit
hex [] = []
hex (b ∷ bs) = hex_digit (b / 16) ∷ hex_digit (b % 16) ∷ hex bs

-- `chunks(8)`: the fuel is the number of elements, and each round takes at least one.
unfoldable pub chunks8 : ℕ → Bytes → List Bytes
chunks8 zero xs = []
chunks8 (suc fuel) [] = []
chunks8 (suc fuel) (x ∷ xs) = take 8 (x ∷ xs) ∷ chunks8 fuel (drop 8 (x ∷ xs))

abbrev pub space : ℕ
space = 32

-- `join(" ")`.
unfoldable pub join : List Bytes → Bytes
join [] = []
join (g ∷ []) = g
join (g ∷ h ∷ gs) = g ++ (space ∷ join (h ∷ gs))

unfoldable pub format_fingerprint : Bytes → Bytes
unfolding hex chunks8 join
format_fingerprint fp = join (chunks8 (length (hex fp)) (hex fp))

-- `split(' ')`, with the word read so far.
unfoldable pub split_from : Bytes → Bytes → List Bytes
split_from word [] = word ∷ []
split_from word (c ∷ cs) =
    if c == space then word ∷ split_from [] cs else split_from (word ++ c ∷ []) cs

unfoldable pub safety_groups : Bytes → ℕ → Bytes
unfolding format_fingerprint split_from join
safety_groups fp groups = join (take groups (split_from [] (format_fingerprint fp)))
