-- ===== src/Handshake/Wire.antt =====
-- handshake.rs, `bundle_to_wire` and `bundle_from_wire`: the prekey bundle as CBOR.
use mesui.Prelude.{ℕ, Option, none, some, Bytes, crypto, cbor, Result, ok, ◌>>=◌, map_err}
use mesui.Envelope.{Codec}
use mesui.Signal.Engine.{SignalResult}
use mesui.Handshake.Library.{PreKeyBundle, Libsignal}
use mesui.Handshake.Device.{checked}

pub record WirePreKeyBundle : Type 0 where
  pub registration_id : ℕ
  pub device_id : ℕ
  pub pre_key_id : Option ℕ
  pub pre_key_public : Option Bytes
  pub signed_pre_key_id : ℕ
  pub signed_pre_key_public : Bytes
  pub signed_pre_key_signature : Bytes
  pub kyber_pre_key_id : ℕ
  pub kyber_pre_key_public : Bytes
  pub kyber_pre_key_signature : Bytes
  pub identity_key : Bytes

-- The getters of the library's bundle, and how it reads keys.
pub record BundleAccess : Type 0 where
  pub registration_id : PreKeyBundle → SignalResult ℕ
  pub device_id : PreKeyBundle → SignalResult ℕ
  pub pre_key_id : PreKeyBundle → SignalResult (Option ℕ)
  pub pre_key_public : PreKeyBundle → SignalResult (Option Bytes)
  pub signed_pre_key_id : PreKeyBundle → SignalResult ℕ
  pub signed_pre_key_public : PreKeyBundle → SignalResult Bytes
  pub signed_pre_key_signature : PreKeyBundle → SignalResult Bytes
  pub kyber_pre_key_id : PreKeyBundle → SignalResult ℕ
  pub kyber_pre_key_public : PreKeyBundle → SignalResult Bytes
  pub kyber_pre_key_signature : PreKeyBundle → SignalResult Bytes
  pub identity_key : PreKeyBundle → SignalResult Bytes
  pub read_public_key : Bytes → SignalResult Bytes
  pub read_kyber_key : Bytes → SignalResult Bytes

module _ {R M : Type 0} (lib : Libsignal R M) (access : BundleAccess)
    (codec : Codec WirePreKeyBundle) where
  unfoldable pub to_wire_record : PreKeyBundle → Result WirePreKeyBundle
  to_wire_record bundle = do
    registration_id ← checked lib (access.registration_id bundle)
    device_id ← checked lib (access.device_id bundle)
    pre_key_id ← checked lib (access.pre_key_id bundle)
    pre_key_public ← checked lib (access.pre_key_public bundle)
    signed_pre_key_id ← checked lib (access.signed_pre_key_id bundle)
    signed_pre_key_public ← checked lib (access.signed_pre_key_public bundle)
    signed_pre_key_signature ← checked lib (access.signed_pre_key_signature bundle)
    kyber_pre_key_id ← checked lib (access.kyber_pre_key_id bundle)
    kyber_pre_key_public ← checked lib (access.kyber_pre_key_public bundle)
    kyber_pre_key_signature ← checked lib (access.kyber_pre_key_signature bundle)
    identity_key ← checked lib (access.identity_key bundle)
    ok (record {
      registration_id = registration_id;
      device_id = device_id;
      pre_key_id = pre_key_id;
      pre_key_public = pre_key_public;
      signed_pre_key_id = signed_pre_key_id;
      signed_pre_key_public = signed_pre_key_public;
      signed_pre_key_signature = signed_pre_key_signature;
      kyber_pre_key_id = kyber_pre_key_id;
      kyber_pre_key_public = kyber_pre_key_public;
      kyber_pre_key_signature = kyber_pre_key_signature;
      identity_key = identity_key;
    })

  unfoldable pub bundle_to_wire : PreKeyBundle → Result Bytes
  unfolding to_wire_record
  bundle_to_wire bundle = do w ← to_wire_record bundle; map_err cbor (codec.into_writer w)

  -- A one-time prekey is taken only if both its id and its key are there.
  unfoldable pub wire_pre_key : Option ℕ → Option Bytes → Result (Option (ℕ × Bytes))
  wire_pre_key (some id) (some pk) = do
    key ← checked lib (access.read_public_key pk)
    ok (some (id, key))
  wire_pre_key (some id) none = ok none
  wire_pre_key none pk = ok none

  unfoldable pub bundle_from_wire : Bytes → Result PreKeyBundle
  unfolding wire_pre_key
  bundle_from_wire bytes = do
    w ← map_err cbor (codec.from_reader bytes)
    pre_key ← wire_pre_key w.pre_key_id w.pre_key_public
    device_id ← map_err crypto (lib.device_id_new w.device_id)
    signed_pre_key_public ← checked lib (access.read_public_key w.signed_pre_key_public)
    kyber_pre_key_public ← checked lib (access.read_kyber_key w.kyber_pre_key_public)
    identity_key ← checked lib (lib.decode w.identity_key)
    checked lib (
        lib.bundle_new (record {
          registration_id = w.registration_id;
          device_id = device_id;
          pre_key = pre_key;
          signed_pre_key_id = w.signed_pre_key_id;
          signed_pre_key_public = signed_pre_key_public;
          signed_pre_key_signature = w.signed_pre_key_signature;
          kyber_pre_key_id = w.kyber_pre_key_id;
          kyber_pre_key_public = kyber_pre_key_public;
          kyber_pre_key_signature = w.kyber_pre_key_signature;
          identity_key = identity_key;
        }))
