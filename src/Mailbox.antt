-- ===== src/Mailbox.antt =====
-- crates/core/src/mailbox.rs: the authenticated write to a mailbox bucket, its verification, and the
-- ledger of message ids against replay. The keyed hash and the key derivation of `blake3`, `ciborium`
-- and the random generator are arguments.
pub mod Binding
pub mod Verify
pub mod Ledger
pub mod Replay
mod Tests
use mesui.Prelude.{
  ℕ, ◌+◌, Bool, true, false, Option, none, some, [], ◌∷◌, ◌++◌, Bytes, codes, ltb, leb, ◌==◌, not,
  ◌||◌, if◌then◌else◌, length, retain, replicate, be_bytes, diff, saturating_add, saturating_sub,
  wrapping_add, Result, ok, err, cbor, crypto, entropy, ◌>>=◌, ◌>>◌, fail_if, Outcome, map_err, max,
}
use mesui.Prelude.Map.{Map, contains_key, insert}
use mesui.Envelope.{Envelope, Codec, kind_byte}

abbrev pub replay_window_ms : ℕ
replay_window_ms = 300_000

-- The argument is what `getrandom::fill` makes of the buffer.
unfoldable pub generate_bucket_address : Outcome Bytes → Result Bytes
generate_bucket_address filled = map_err entropy filled

-- `derive_key` is `blake3::derive_key`.
unfoldable pub derive_mailbox_secret : (Bytes → Bytes → Bytes) → Bytes → Bytes → ℕ → Bytes
derive_mailbox_secret derive_key handshake_secret bucket serial =
    derive_key (codes "dc-mailbox-v1") (handshake_secret ++ bucket ++ be_bytes 4 serial)

pub record BucketWrite : Type 0 where
  pub envelope : Envelope
  pub serial : ℕ
  pub nonce : Bytes
  pub ts_ms : ℕ
  pub mac : Bytes

module _ (codec : Codec BucketWrite) where
  unfoldable pub to_cbor : BucketWrite → Result Bytes
  to_cbor w = map_err cbor (codec.into_writer w)

  unfoldable pub from_cbor : Bytes → Result BucketWrite
  from_cbor bytes = map_err cbor (codec.from_reader bytes)

-- An optional field with its presence flag.
unfoldable pub flagged : Option Bytes → Bytes
flagged none = 0 ∷ []
flagged (some b) = 1 ∷ b

unfoldable pub mac_prefix : Bytes
unfolding codes
mac_prefix = codes "dc-bucket-write-v1" ++ 10 ∷ []

unfoldable pub mac_input : BucketWrite → Bytes
mac_input w =
    mac_prefix
    ++ (be_bytes 4 w.serial
        ++ (w.nonce
            ++ (be_bytes 8 w.ts_ms
                ++ (e.msg_id
                    ++ (e.sender
                        ++ (flagged e.recipient
                            ++ (flagged e.group
                                ++ (kind_byte e.kind
                                    ∷ (be_bytes 8 e.sent_at_ms ++ (e.ttl_hops ∷ e.body))))))))))
  where
    e : Envelope
    e = w.envelope

-- `keyed` is the keyed hash, from the key and the message.
module _ (keyed : Bytes → Bytes → Bytes) where
  unfoldable pub compute_mac : BucketWrite → Bytes → Bytes
  compute_mac w secret = keyed secret (mac_input w)

  unfoldable pub seal : Envelope → Bytes → ℕ → ℕ → Bytes → BucketWrite
  unfolding compute_mac
  seal env secret serial ts_ms nonce =
      let w : BucketWrite = record {
        envelope = env;
        serial = serial;
        nonce = nonce;
        ts_ms = ts_ms;
        mac = replicate 32 0;
      } in
      record w { mac = compute_mac w secret }

  unfoldable pub verify : BucketWrite → Bytes → ℕ → Result (Unit {0})
  unfolding compute_mac
  verify w secret now_ms = do
    fail_if (not (diff 0 w.mac (compute_mac w secret) == 0)) (crypto "mailbox mac mismatch")
    let early = ltb (saturating_add now_ms replay_window_ms) w.ts_ms
    let late = ltb w.ts_ms (saturating_sub now_ms replay_window_ms)
    fail_if (early || late) (crypto "mailbox write outside replay window")
    ok tt

pub record NonceCache : Type 0 where
  pub entries : Map ℕ
  pub hard_cap : ℕ

unfoldable pub new : ℕ → NonceCache
new cap = record { entries = []; hard_cap = max cap 4096 }

-- The test of the `retain`.
abbrev pub is_live : ℕ → Bytes × ℕ → Bool
is_live now_ms e = ltb now_ms (wrapping_add e.1 120_000)

unfoldable pub check_and_insert : NonceCache → Bytes → ℕ → ℕ → NonceCache × Bool
check_and_insert c msg_id ts_ms now_ms =
    let expiry = saturating_add ts_ms (replay_window_ms + 120_000) in
    let live = retain (is_live now_ms) c.entries in
    if contains_key msg_id live
    then (record c { entries = live }, false)
    else if leb c.hard_cap (length live)
    then (record c { entries = live }, false)
    else (record c { entries = insert msg_id expiry live }, true)

unfoldable pub len : NonceCache → ℕ
len c = length c.entries

unfoldable pub is_empty : NonceCache → Bool
is_empty c = len c == 0

unfoldable pub verify_inbound :
    (Bytes → Bytes → Bytes) → BucketWrite → Bytes → NonceCache → ℕ → NonceCache × Result (Unit {0})
verify_inbound keyed write secret nonces now_ms = elim (verify keyed write secret now_ms) [
  | err e ↦ (nonces, err e)
  | ok _ ↦
      let (nonces', fresh) = check_and_insert nonces write.envelope.msg_id write.ts_ms now_ms in
      (nonces', if fresh then ok tt else err (crypto "replayed write"))
]
