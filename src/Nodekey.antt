-- ===== src/Nodekey.antt =====
-- crates/core/src/nodekey.rs: the signed announcement of a node key, and the ring of announcements
-- that a contact keeps. `ed25519_dalek` is an argument.
pub mod Announcement
pub mod Ring
pub mod Newest
pub mod Upsert
pub mod Current
mod Tests
use mesui.Prelude.{
  ℕ, zero, suc, ◌+◌, ◌-◌, Bool, true, false, not, Option, none, some, List, [], ◌∷◌, ◌++◌, Bytes,
  bytes_eq, codes, ltb, leb, ◌==◌, if◌then◌else◌, ◌&&◌, length, retain, any, be_bytes,
  saturating_add, saturating_sub, Result, ok, err, crypto, ◌>>=◌, ◌>>◌, fail_if, is_err, map_err,
}
use mesui.Prelude.Map.{Map, get, insert}
use mesui.Identity
use mesui.Identity.{Ed25519, Identity}

abbrev pub default_overlap_ms : ℕ
default_overlap_ms = 604_800_000

abbrev pub max_validity_ms : ℕ
max_validity_ms = 2_592_000_000

abbrev pub max_announcements_per_identity : ℕ
max_announcements_per_identity = 32

pub record NodeKeyAnnouncement : Type 0 where
  pub identity : Bytes
  pub node_key : Bytes
  pub serial : ℕ
  pub not_before_ms : ℕ
  pub not_after_ms : ℕ
  pub sig : Bytes

unfoldable pub new : Bytes → Bytes → ℕ → ℕ → ℕ → NodeKeyAnnouncement
new identity node_key serial now_ms overlap_ms = record {
  identity = identity;
  node_key = node_key;
  serial = serial;
  not_before_ms = now_ms;
  not_after_ms = saturating_add now_ms overlap_ms;
  sig = [];
}

unfoldable pub announcement_prefix : Bytes
unfolding codes
announcement_prefix = codes "dc-node-key-announcement-v1" ++ 10 ∷ []

unfoldable pub signing_payload : NodeKeyAnnouncement → Bytes
signing_payload a =
    announcement_prefix
    ++ (a.identity
        ++ (a.node_key
            ++ (be_bytes 8 a.serial ++ (be_bytes 8 a.not_before_ms ++ be_bytes 8 a.not_after_ms))))

module _ (ed : Ed25519) where
  unfoldable pub sign : NodeKeyAnnouncement → Identity → Result NodeKeyAnnouncement
  sign a identity = do
    fail_if (not (bytes_eq (Identity.node_id ed identity) a.identity))
        (crypto "announcement signed by wrong identity")
    ok (record a { sig = Identity.sign ed identity (signing_payload a) })

  unfoldable pub verify : NodeKeyAnnouncement → Result (Unit {0})
  unfolding Identity.verify
  verify a = do
    vk ← map_err crypto (ed.from_bytes a.identity)
    fail_if (not (length a.sig == 64)) (crypto "signature length must be 64")
    Identity.verify ed vk (signing_payload a) a.sig
    fail_if (leb a.not_after_ms a.not_before_ms) (crypto "invalid validity window")
    fail_if (ltb max_validity_ms (saturating_sub a.not_after_ms a.not_before_ms))
        (crypto "validity window exceeds cap")
    fail_if (a.serial == 0) (crypto "serial must be positive")
    ok tt

-- The announcements of one identity.
abbrev pub Slot : Type 0
Slot = List NodeKeyAnnouncement

abbrev pub NodeKeyRing : Type 0
NodeKeyRing = Map Slot

-- The position and the serial of `enumerate().min_by_key(serial)`: the first of the least.
unfoldable pub oldest : Slot → Option (ℕ × ℕ)
oldest [] = none
oldest (e ∷ es) = elim (oldest es) [
  | none ↦ some (0, e.serial)
  | some (i, s) ↦ if leb e.serial s then some (0, e.serial) else some (suc i, s)
]

-- `Vec::remove`.
unfoldable pub remove_at : ℕ → Slot → Slot
remove_at i [] = []
remove_at zero (e ∷ es) = es
remove_at (suc i) (e ∷ es) = e ∷ remove_at i es

-- The loop `while slot.len() > MAX_ANNOUNCEMENTS_PER_IDENTITY`.
unfoldable pub trim : ℕ → ℕ → Slot → Slot
trim zero serial slot = slot
trim (suc fuel) serial slot = elim (ltb max_announcements_per_identity (length slot)) [
  | false ↦ slot
  | true ↦ elim (oldest slot) [
    | none ↦ slot
    | some (i, s) ↦ elim (ltb s serial) [
      | false ↦ slot
      | true ↦ trim fuel serial (remove_at i slot)
    ]
  ]
]

-- `upsert` on the slot of the identity. Each round of the loop removes one, so the length is fuel
-- enough.
unfoldable pub update_slot : NodeKeyAnnouncement → ℕ → Slot → Slot
unfolding trim
update_slot ann now_ms slot =
    let others = retain (λ e. not (e.serial == ann.serial)) slot in
    let alive = retain (λ e. ltb now_ms e.not_after_ms) (others ++ ann ∷ []) in
    if any (λ e. ltb ann.serial e.serial) slot then slot else trim (length alive) ann.serial alive

abbrev pub slot_of : Bytes → NodeKeyRing → Slot
slot_of identity ring = elim (get identity ring) [ none ↦ [] | some slot ↦ slot ]

-- `not_before <= now < not_after`.
abbrev pub is_active : ℕ → NodeKeyAnnouncement → Bool
is_active now_ms e = leb e.not_before_ms now_ms && ltb now_ms e.not_after_ms

-- `max_by_key(serial)`: the last of the greatest.
unfoldable pub newest : Slot → Option NodeKeyAnnouncement
newest [] = none
newest (e ∷ es) = elim (newest es) [
  | none ↦ some e
  | some f ↦ if ltb f.serial e.serial then some e else some f
]

module _ (ed : Ed25519) where
  unfoldable pub upsert : NodeKeyRing → NodeKeyAnnouncement → ℕ → NodeKeyRing × Result (Unit {0})
  upsert ring ann now_ms = elim (verify ed ann) [
    | err e ↦ (ring, err e)
    | ok _ ↦
        if leb ann.not_after_ms now_ms
        then (ring, err (crypto "announcement already expired"))
        else (insert ann.identity (update_slot ann now_ms (slot_of ann.identity ring)) ring, ok tt)
  ]

  -- The loop of `restore` stops at the first error.
  unfoldable pub restore :
      NodeKeyRing → List NodeKeyAnnouncement → ℕ → NodeKeyRing × Result (Unit {0})
  restore ring [] now_ms = (ring, ok tt)
  restore ring (ann ∷ anns) now_ms =
      let (ring', r) = upsert ring ann now_ms in
      let rest = restore ring' anns now_ms in elim r [ err e ↦ (ring', err e) | ok _ ↦ rest ]

unfoldable pub current : NodeKeyRing → Bytes → ℕ → Option Bytes
current ring identity now_ms = elim (get identity ring) [
  | none ↦ none
  | some slot ↦ elim (newest (retain (is_active now_ms) slot)) [
    | none ↦ none
    | some e ↦ some e.node_key
  ]
]

unfoldable pub state : NodeKeyRing → List NodeKeyAnnouncement
state [] = []
state ((identity, slot) ∷ ring) = slot ++ state ring

unfoldable pub accepts : NodeKeyRing → Bytes → Bytes → ℕ → Bool
accepts ring identity node_key now_ms = elim (get identity ring) [
  | none ↦ false
  | some slot ↦ any (λ e. bytes_eq e.node_key node_key && is_active now_ms e) slot
]
