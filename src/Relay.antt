-- ===== src/Relay.antt =====
-- crates/core/src/relay.rs: the relay ticket, its verification, and the guard of a relaying node
-- against replay. `ed25519_dalek` and the BLAKE3 output function are arguments.
pub mod Ticket
pub mod Guard
pub mod Accept
pub mod Slots
pub mod Replay
pub mod Gaps
mod Tests
use mesui.Prelude.{
  ℕ, zero, suc, ◌+◌, ◌-◌, ◌≡◌, Bool, true, false, not, Option, none, some, List, [], ◌∷◌, ◌++◌,
  Bytes, bytes_eq, codes, ltb, leb, ◌==◌, if◌then◌else◌, ◌&&◌, length, retain, take, replicate,
  be_bytes, wrapping_add, saturating_sub, Result, ok, err, crypto, ◌>>=◌, ◌>>◌, fail_if, is_err,
  map_err, max,
}
use mesui.Prelude.Map.{Map, contains_key, insert, remove}
use mesui.Identity
use mesui.Identity.{Ed25519, Identity, fingerprint1024}

abbrev pub max_ticket_ttl_ms : ℕ
max_ticket_ttl_ms = 7_200_000

-- The clock tolerance, `2 * 60 * 1000`.
abbrev pub skew : ℕ
skew = 120_000

pub record RelayTicket : Type 0 where
  pub dest_node_key : Bytes
  pub origin_node_key : Bytes
  pub expiry_ms : ℕ
  pub issued_at_ms : ℕ
  pub nonce : Bytes
  pub challenge_hash : Bytes
  pub sig : Bytes

unfoldable pub new : Bytes → Bytes → ℕ → ℕ → Bytes → Bytes → RelayTicket
new dest origin issued_at_ms expiry_ms nonce challenge_hash = record {
  dest_node_key = dest;
  origin_node_key = origin;
  expiry_ms = expiry_ms;
  issued_at_ms = issued_at_ms;
  nonce = nonce;
  challenge_hash = challenge_hash;
  sig = [];
}

unfoldable pub ticket_prefix : Bytes
unfolding codes
ticket_prefix = codes "dc-relay-ticket-v1" ++ 10 ∷ []

unfoldable pub signing_payload : RelayTicket → Bytes
signing_payload t =
    ticket_prefix
    ++ (t.dest_node_key
        ++ (t.origin_node_key
            ++ (be_bytes 8 t.issued_at_ms
                ++ (be_bytes 8 t.expiry_ms ++ (t.nonce ++ t.challenge_hash)))))

module _ (ed : Ed25519) where
  unfoldable pub sign : RelayTicket → Identity → Result RelayTicket
  sign t identity = do
    fail_if (not (bytes_eq (Identity.node_id ed identity) t.origin_node_key))
        (crypto "ticket signed by wrong node key")
    ok (record t { sig = Identity.sign ed identity (signing_payload t) })

  unfoldable pub verify : RelayTicket → ℕ → Bytes → Result (Unit {0})
  unfolding Identity.verify
  verify t now_ms expected_challenge = do
    vk ← map_err crypto (ed.from_bytes t.origin_node_key)
    fail_if (not (length t.sig == 64)) (crypto "signature length must be 64")
    Identity.verify ed vk (signing_payload t) t.sig
    fail_if (bytes_eq t.nonce (replicate 16 0)) (crypto "nonce must be random")
    fail_if (not (bytes_eq t.challenge_hash expected_challenge))
        (crypto "challenge mismatch (stale ticket)")
    fail_if (ltb max_ticket_ttl_ms (saturating_sub t.expiry_ms t.issued_at_ms))
        (crypto "ticket ttl exceeds cap")
    fail_if (ltb (wrapping_add now_ms skew) t.issued_at_ms) (crypto "ticket issued in the future")
    fail_if (ltb (wrapping_add t.expiry_ms skew) now_ms) (crypto "ticket expired")
    ok tt

unfoldable pub fingerprint : (Bytes → Bytes) → RelayTicket → Bytes
fingerprint xof t = take 32 (fingerprint1024 xof (codes "relay-ticket" ∷ signing_payload t ∷ []))

-- The value of the cache: expiry, origin, challenge.
pub record Entry : Type 0 where
  pub expiry : ℕ
  pub origin : Bytes
  pub challenge : Bytes

pub record RelayGuard : Type 0 where
  pub seen : Map Entry
  pub max_entries : ℕ

abbrev pub max_slots_per_origin : ℕ
max_slots_per_origin = 4

unfoldable pub new_guard : ℕ → RelayGuard
new_guard max_entries = record { seen = []; max_entries = max max_entries 1 }

unfoldable pub origin_count : Bytes → Map Entry → ℕ
origin_count origin [] = 0
origin_count origin ((k, e) ∷ m) =
    if bytes_eq e.origin origin then suc (origin_count origin m) else origin_count origin m

-- `filter(origin).min_by_key(expiry)`: the first of the earliest, with its expiry.
unfoldable pub earliest : Bytes → Map Entry → Option (Bytes × ℕ)
earliest origin [] = none
earliest origin ((k, e) ∷ m) = elim (bytes_eq e.origin origin) [
  | false ↦ earliest origin m
  | true ↦ elim (earliest origin m) [
    | none ↦ some (k, e.expiry)
    | some (k', x) ↦ if leb e.expiry x then some (k, e.expiry) else some (k', x)
  ]
]

-- The third step, `while self.origin_count(…) >= MAX_SLOTS_PER_ORIGIN`.
unfoldable pub free_slots : ℕ → Bytes → Map Entry → Map Entry
free_slots zero origin m = m
free_slots (suc fuel) origin m = elim (leb max_slots_per_origin (origin_count origin m)) [
  | false ↦ m
  | true ↦ elim (earliest origin m) [ none ↦ m | some (k, _) ↦ free_slots fuel origin (remove k m) ]
]

-- `find` of the first entry with another challenge.
unfoldable pub find_dead : Bytes → Map Entry → Option Bytes
find_dead expected [] = none
find_dead expected ((k, e) ∷ m) =
    if bytes_eq e.challenge expected then find_dead expected m else some k

-- The fourth step, `while self.seen.len() >= self.max_entries`; `false` is its early return.
unfoldable pub make_room : ℕ → ℕ → Bytes → Map Entry → Map Entry × Bool
make_room zero max_entries expected m = (m, false)
make_room (suc fuel) max_entries expected m = elim (leb max_entries (length m)) [
  | false ↦ (m, true)
  | true ↦ elim (find_dead expected m) [
    | none ↦ (m, false)
    | some k ↦ make_room fuel max_entries expected (remove k m)
  ]
]

abbrev pub is_live : ℕ → Bytes × Entry → Bool
is_live now_ms (k, e) = ltb now_ms (wrapping_add e.expiry skew)

abbrev pub is_current : Bytes → Bytes × Entry → Bool
is_current expected (k, e) = bytes_eq e.challenge expected

-- The first three steps of `accept` on the cache. The loop removes an entry in each round, so the
-- number of entries is fuel enough.
unfoldable pub prune : RelayTicket → ℕ → Bytes → Map Entry → Map Entry
unfolding free_slots
prune t now_ms expected seen =
    let live = retain (is_current expected) (retain (is_live now_ms) seen) in
    free_slots (length live) t.origin_node_key live

-- What `accept` stores for a ticket.
abbrev pub entry_of : RelayTicket → Bytes → Entry
entry_of t expected = record {
  expiry = t.expiry_ms;
  origin = t.origin_node_key;
  challenge = expected;
}

module _ (ed : Ed25519) (xof : Bytes → Bytes) where
  unfoldable pub accept : RelayGuard → RelayTicket → ℕ → Bytes → RelayGuard × Bool
  accept g t now_ms expected =
      let fp = fingerprint xof t in
      let pruned = prune t now_ms expected g.seen in
      let (m, room) = make_room (suc (length pruned)) g.max_entries expected pruned in
      if is_err (verify ed t now_ms expected)
      then (g, false)
      else if contains_key fp g.seen
      then (g, false)
      else (record g { seen = if room then insert fp (entry_of t expected) m else m }, room)
