-- ===== src/Ffi/Session.antt =====
-- ffi.rs, `signal_ffi`: `SignalSession`.
use Prim.Native.String.{String}
use mesui.Prelude.{ℕ, Bool, some, Bytes, Result, Outcome, done, failed}
use mesui.Envelope.{Codec}
use mesui.Signal.Engine.{ProtocolAddress, SqlSignalStore}
use mesui.Sqlcipher.{Batch}
use mesui.Handshake.Library.{Moment, Libsignal}
use mesui.Handshake.Device
use mesui.Handshake.Device.{Device, prekey_bundle}
use mesui.Handshake.Start.{generate_device, open_device}
use mesui.Handshake.Wire.{WirePreKeyBundle, BundleAccess, bundle_to_wire, bundle_from_wire}
use mesui.Handshake.Sas.{FingerprintApi, sas_code}
use mesui.Ffi.Errors.{core, DcResult, raised, returned, from_core, from_sig}

pub record WireMessage : Type 0 where
  pub msg_type : ℕ
  pub ciphertext : Bytes

pub record SasCode : Type 0 where
  pub full : Bytes
  pub six : Bytes

-- A method of the session: the device afterwards, and what it returns.
abbrev pub Call : Type 0 → Type 0
Call A = Device → Device × DcResult A

abbrev pub after : {A B : Type 0} → (A → Call B) → Device × DcResult A → Device × DcResult B
after f (d, returned a) = f a d
after f (d, raised e) = (d, raised e)

infixl 5 ◌>>=◌ ◌>>◌
abbrev pub ◌>>=◌ : {A B : Type 0} → Call A → (A → Call B) → Call B
◌>>=◌ m f d = after f (m d)

abbrev pub ◌>>◌ : {A B : Type 0} → Call A → Call B → Call B
m >> k = m >>= λ _. k

abbrev pub call : {A : Type 0} → (Device → Device × Result A) → Call A
call m d = let (d', r) = m d in (d', from_core r)

abbrev pub give : {A : Type 0} → DcResult A → Call A
give r d = (d, r)

module _ {R M : Type 0} (lib : Libsignal R M) where
  abbrev pub addr : String → DcResult ProtocolAddress
  addr name = elim (lib.device_id_new 1) [
    | failed e ↦ raised (core e)
    | done id ↦ returned (record { name = name; device_id = id })
  ]

  abbrev pub identity_from : Bytes → DcResult Bytes
  identity_from bytes = from_sig lib.display (lib.decode bytes)

  module _ (connect : Bytes → Outcome SqlSignalStore)
      (execute_batch : Batch → Outcome (Unit {0})) where
    unfoldable pub generate_session : String → Moment → Outcome Bytes → DcResult Device
    unfolding generate_device
    generate_session name moment filled =
        from_core (generate_device lib connect execute_batch name moment filled)

    unfoldable pub open_session : Bytes → Bytes → String → Moment → Outcome Bytes → DcResult Device
    unfolding open_device
    open_session path key name moment filled =
        from_core (open_device lib connect execute_batch path (some key) name moment filled)

  unfoldable pub identity_key : Call Bytes
  unfolding Device.identity_key
  identity_key = call (Device.identity_key lib)

  unfoldable pub prekey_bundle_wire :
      BundleAccess → Codec WirePreKeyBundle → (ℕ → Moment) → Call Bytes
  unfolding prekey_bundle bundle_to_wire
  prekey_bundle_wire access codec moments = do
    bundle ← call (prekey_bundle lib moments)
    give (from_core (bundle_to_wire lib access codec bundle))

  unfoldable pub process_bundle :
      BundleAccess → Codec WirePreKeyBundle → String → Bytes → Moment → Call (Unit {0})
  unfolding bundle_from_wire Device.process_bundle
  process_bundle access codec remote_name wire moment = do
    bundle ← give (from_core (bundle_from_wire lib access codec wire))
    remote ← give (addr remote_name)
    call (Device.process_bundle lib remote bundle moment)

  unfoldable pub encrypt : String → Bytes → Moment → Call WireMessage
  unfolding Device.encrypt
  encrypt remote_name text moment = do
    remote ← give (addr remote_name)
    sent ← call (Device.encrypt lib remote text moment)
    give (returned (record { msg_type = sent.0; ciphertext = sent.1 }))

  unfoldable pub decrypt : String → WireMessage → Moment → Call Bytes
  unfolding Device.decrypt
  decrypt remote_name msg moment = do
    remote ← give (addr remote_name)
    call (Device.decrypt lib remote msg.msg_type msg.ciphertext moment)

  -- The names are given as their bytes.
  unfoldable pub sas_with :
      {F : Type 0} → FingerprintApi F → (Bytes → Bytes) → Bytes → Bytes → Bytes → Call SasCode
  unfolding Device.identity_key sas_code
  sas_with api hash local_name remote_name remote_identity = do
    local_key ← call (Device.identity_key lib)
    remote_key ← give (identity_from remote_identity)
    code ← give (from_core (sas_code api hash local_name local_key remote_name remote_key))
    give (returned (record { full = code.0; six = code.1 }))

  unfoldable pub pin_identity : String → Bytes → Call (Unit {0})
  unfolding Device.pin_identity
  pin_identity remote_name remote_identity = do
    key ← give (identity_from remote_identity)
    remote ← give (addr remote_name)
    call (Device.pin_identity lib remote key)
    give (returned tt)

  unfoldable pub is_trusted : String → Bytes → Call Bool
  unfolding Device.is_trusted
  is_trusted remote_name remote_identity = do
    key ← give (identity_from remote_identity)
    remote ← give (addr remote_name)
    call (Device.is_trusted lib remote key)
