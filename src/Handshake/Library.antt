-- ===== src/Handshake/Library.antt =====
-- handshake.rs: what it uses of libsignal.
use Prim.Native.String.{String}
use mesui.Prelude.{ℕ, Option, Bytes, Outcome}
use mesui.Signal.Engine.{ProtocolAddress, SignalProtocolError, SignalResult, Action}
use mesui.Signal.Records.{RecordCodec}

pub record Moment : Type 0 where
  pub now : ℕ
  pub seed : Bytes

pub record KeyPair : Type 0 where
  pub public_key : Bytes
  pub private_key : Bytes

pub data CiphertextMessageType : Type 0 where
  whisper pre_key sender_key plaintext : CiphertextMessageType

-- The arguments of `PreKeyBundle::new`, in their order.
pub record PreKeyBundle : Type 0 where
  pub registration_id : ℕ
  pub device_id : ℕ
  pub pre_key : Option (ℕ × Bytes)
  pub signed_pre_key_id : ℕ
  pub signed_pre_key_public : Bytes
  pub signed_pre_key_signature : Bytes
  pub kyber_pre_key_id : ℕ
  pub kyber_pre_key_public : Bytes
  pub kyber_pre_key_signature : Bytes
  pub identity_key : Bytes

-- `R` are the records that the library stores, and `M` its messages.
pub record Libsignal (R M : Type 0) : Type 0 where
  pub display : SignalProtocolError → String
  pub device_id_new : ℕ → Outcome ℕ
  pub decode : Bytes → SignalResult Bytes
  pub decode_pair : Bytes → SignalResult Bytes
  pub identity_key_of : Bytes → Bytes
  pub generate_identity : Moment → Bytes
  pub generate_key : Moment → KeyPair
  pub generate_kyber_key : Moment → KeyPair
  pub calculate_signature : Bytes → Bytes → Moment → SignalResult Bytes
  pub new_pre_key : ℕ → KeyPair → R
  pub new_signed_pre_key : ℕ → Moment → KeyPair → Bytes → R
  pub codec : RecordCodec R
  pub bundle_new : PreKeyBundle → SignalResult PreKeyBundle
  pub message_type : M → CiphertextMessageType
  pub serialize : M → Bytes
  pub read_pre_key_message : Bytes → SignalResult M
  pub read_message : Bytes → SignalResult M
  pub process_prekey_bundle :
      ProtocolAddress → ProtocolAddress → PreKeyBundle → Moment → Action (Unit {0})
  pub message_encrypt : Bytes → ProtocolAddress → ProtocolAddress → Moment → Action M
  pub message_decrypt : M → ProtocolAddress → ProtocolAddress → Moment → Action Bytes
