-- ===== src/Envelope.antt =====
-- crates/core/src/envelope.rs: the envelope, its CBOR form with the checks after decoding, the length
-- frames of a byte stream, and the set of seen message ids.
pub mod Compression
pub mod Frame
pub mod Evict
pub mod Dedup
mod Tests
use mesui.Prelude.{
  ℕ, ◌+◌, ◌≡◌, Bool, true, false, Option, none, some, List, [], ◌∷◌, ◌++◌, Bytes, ltb, leb, ◌==◌,
  ◌&&◌, if◌then◌else◌, length, take, drop, be_bytes, from_be, u32_max, Result, ok, err, cbor, io,
  ◌>>=◌, ◌>>◌, fail_if, Outcome, map_err, max,
}
use mesui.Prelude.Map.{Map, contains_key, insert, remove}

pub data PayloadKind : Type 0 where
  text session_mgmt group_mgmt node_ctl : PayloadKind

-- `kind as u8`.
unfoldable pub kind_byte : PayloadKind → ℕ
kind_byte text = 1
kind_byte session_mgmt = 2
kind_byte group_mgmt = 3
kind_byte node_ctl = 4

pub record Envelope : Type 0 where
  pub msg_id : Bytes
  pub sender : Bytes
  pub recipient : Option Bytes
  pub group : Option Bytes
  pub kind : PayloadKind
  pub body : Bytes
  pub sent_at_ms : ℕ
  pub ttl_hops : ℕ

-- What `ciborium` gives for a type that derives `Serialize` and `Deserialize`.
pub record Codec {ℓ} (A : Type ℓ) : Type ℓ where
  pub into_writer : A → Outcome Bytes
  pub from_reader : Bytes → Outcome A

abbrev pub is_some {ℓ} : {A : Type ℓ} → Option A → Bool
is_some none = false
is_some (some a) = true

module _ (codec : Codec Envelope) where
  unfoldable pub to_cbor : Envelope → Result Bytes
  to_cbor e = map_err cbor (codec.into_writer e)

  unfoldable pub from_cbor : Bytes → Result Envelope
  from_cbor bytes = do
    e ← map_err cbor (codec.from_reader bytes)
    fail_if (is_some e.group && is_some e.recipient)
        (cbor "envelope cannot be both unicast and group")
    fail_if (e.ttl_hops == 0 && is_some e.group) (cbor "group envelope with zero ttl")
    ok e

-- `none` is the panic of the assertion.
unfoldable pub frame : Bytes → Option Bytes
frame msg = if leb (length msg) u32_max then some (be_bytes 4 (length msg) ++ msg) else none

abbrev pub max_frame_size : ℕ
max_frame_size = 4_194_304

unfoldable pub unframe : Bytes → Result (Option (Bytes × ℕ))
unframe buf =
    let len = from_be 0 (take 4 buf) in
    if ltb (length buf) 4
    then ok none
    else if ltb max_frame_size len
    then err (cbor "frame size exceeds the limit")
    else if ltb (length buf) (4 + len)
    then ok none
    else ok (some (take len (drop 4 buf), 4 + len))

-- `DedupSet` is the struct `Dedup`; `order` holds the ids from the oldest on.
pub record DedupSet : Type 0 where
  pub seen : Map (Unit {0})
  pub order : List Bytes
  pub cap : ℕ

unfoldable pub new : ℕ → DedupSet
new cap = record { seen = []; order = []; cap = max cap 1 }

-- The loop `while self.order.len() > self.cap`.
unfoldable pub evict : ℕ → List Bytes → Map (Unit {0}) → List Bytes × Map (Unit {0})
evict cap [] seen = ([], seen)
evict cap (old ∷ rest) seen =
    let smaller = evict cap rest (remove old seen) in
    if ltb cap (length (old ∷ rest)) then smaller else (old ∷ rest, seen)

unfoldable pub check_and_insert : DedupSet → Bytes → DedupSet × Bool
check_and_insert d id =
    let seen' = insert id tt d.seen in
    let (order', kept) = evict d.cap (d.order ++ id ∷ []) seen' in
    if contains_key id d.seen
    then (record d { seen = seen' }, false)
    else (record d { seen = kept; order = order' }, true)

unfoldable pub len : DedupSet → ℕ
len d = length d.seen

unfoldable pub is_empty : DedupSet → Bool
is_empty d = len d == 0
