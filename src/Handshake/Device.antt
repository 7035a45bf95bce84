-- ===== src/Handshake/Device.antt =====
-- handshake.rs, `Device`: a method takes the device and gives it back with its result.
mod Steps
use Prim.Native.String.{String}
use mesui.Prelude.{
  ℕ, ◌==◌, Bool, Option, none, some, Bytes, codes, if◌then◌else◌, from_be, CoreError, crypto,
  identity_changed, entropy, Result, ok, err, Outcome, map_err,
}
use mesui.Signal.Engine.{
  ProtocolAddress, SignalProtocolError, invalid_state, untrusted_identity, other, SignalResult,
  rejected, succeeded, SqlSignalStore, Action,
}
use mesui.Signal.Identities.{
  local_identity, save_local_identity, next_prekey_id, get_identity_key_pair,
  get_local_registration_id, save_identity, is_trusted_identity, IdentityChange,
}
use mesui.Signal.Records.{save_pre_key, save_signed_pre_key, save_kyber_pre_key}
use mesui.Handshake.Library.{
  Moment, KeyPair, CiphertextMessageType, whisper, pre_key, sender_key, plaintext, PreKeyBundle,
  Libsignal,
}
pub use Steps.{
  Device, StoreAction, continue_with, ◌>>=◌, ◌>>◌, give, on_device, device_id, crypto_err,
  map_signal_err, checked, checked_tofu, block, block_tofu,
}

module _ {R M : Type 0} (lib : Libsignal R M) where
  -- An identity is drawn and stored when there is none. `filled` is what `getrandom::fill` makes of the
  -- registration id.
  abbrev pub first_identity : Moment → Outcome Bytes → Option (Bytes × ℕ) → StoreAction (Unit {0})
  first_identity moment filled (some i) = give (ok tt)
  first_identity moment filled none = do
    reg ← give (map_err entropy filled)
    save_local_identity (lib.generate_identity moment) (from_be 0 reg)

  unfoldable pub bootstrap :
      String → Moment → Outcome Bytes → SqlSignalStore → SqlSignalStore × Result ProtocolAddress
  unfolding local_identity save_local_identity from_be
  bootstrap name moment filled = do
    i ← local_identity
    first_identity moment filled i
    id ← give (map_err crypto (lib.device_id_new device_id))
    give (ok (record { name = name; device_id = id }))

  unfoldable pub identity_key : Device → Device × Result Bytes
  unfolding get_identity_key_pair
  identity_key = on_device (do
    pair ← block lib (get_identity_key_pair lib.decode_pair)
    give (ok (lib.identity_key_of pair)))

  -- The three key pairs that `prekey_bundle` draws. The moments are those of these keys, of the two
  -- signatures and of the two time stamps.
  abbrev pub one_time_key : (ℕ → Moment) → KeyPair
  one_time_key moments = lib.generate_key (moments 0)

  abbrev pub signed_key : (ℕ → Moment) → KeyPair
  signed_key moments = lib.generate_key (moments 1)

  abbrev pub kyber_key : (ℕ → Moment) → KeyPair
  kyber_key moments = lib.generate_kyber_key (moments 2)

  -- The method from its end: the bundle itself, the rows, the signatures, the ids, the identity.
  abbrev pub assemble : (ℕ → Moment) → Bytes → ℕ × ℕ × ℕ → Bytes × Bytes → ℕ → Result PreKeyBundle
  assemble moments identity_pair ids sigs reg_id =
      elim (map_err crypto (lib.device_id_new device_id)) [
        | err e ↦ err e
        | ok id ↦ checked lib (
            lib.bundle_new (record {
              registration_id = reg_id;
              device_id = id;
              pre_key = some (ids.0, (one_time_key moments).public_key);
              signed_pre_key_id = ids.1;
              signed_pre_key_public = (signed_key moments).public_key;
              signed_pre_key_signature = sigs.0;
              kyber_pre_key_id = ids.2;
              kyber_pre_key_public = (kyber_key moments).public_key;
              kyber_pre_key_signature = sigs.1;
              identity_key = lib.identity_key_of identity_pair;
            }))
      ]

  abbrev pub register : (ℕ → Moment) → Bytes → ℕ × ℕ × ℕ → Bytes × Bytes → StoreAction PreKeyBundle
  register moments identity_pair ids sigs = do
    reg_id ← block lib get_local_registration_id
    give (assemble moments identity_pair ids sigs reg_id)

  abbrev pub save_kyber :
      (ℕ → Moment) → Bytes → ℕ × ℕ × ℕ → Bytes × Bytes → StoreAction PreKeyBundle
  save_kyber moments identity_pair ids sigs = do
    block lib (
        save_kyber_pre_key lib.codec ids.2
          (lib.new_signed_pre_key ids.2 (moments 6) (kyber_key moments) sigs.1))
    register moments identity_pair ids sigs

  abbrev pub save_signed :
      (ℕ → Moment) → Bytes → ℕ × ℕ × ℕ → Bytes × Bytes → StoreAction PreKeyBundle
  save_signed moments identity_pair ids sigs = do
    block lib (
        save_signed_pre_key lib.codec ids.1
          (lib.new_signed_pre_key ids.1 (moments 5) (signed_key moments) sigs.0))
    save_kyber moments identity_pair ids sigs

  abbrev pub save_keys : (ℕ → Moment) → Bytes → ℕ × ℕ × ℕ → Bytes × Bytes → StoreAction PreKeyBundle
  save_keys moments identity_pair ids sigs = do
    block lib (save_pre_key lib.codec ids.0 (lib.new_pre_key ids.0 (one_time_key moments)))
    save_signed moments identity_pair ids sigs

  abbrev pub sign_keys : (ℕ → Moment) → Bytes → Result (Bytes × Bytes)
  sign_keys moments identity_pair =
      elim (checked lib
        (lib.calculate_signature identity_pair (signed_key moments).public_key (moments 3))) [
          | err e ↦ err e
          | ok spk_sig ↦
              elim (checked lib (
                lib.calculate_signature identity_pair (kyber_key moments).public_key (moments 4))) [
                  | err e ↦ err e
                  | ok kpk_sig ↦ ok (spk_sig, kpk_sig)
                ]
        ]

  abbrev pub sign_and_save : (ℕ → Moment) → Bytes → ℕ × ℕ × ℕ → StoreAction PreKeyBundle
  sign_and_save moments identity_pair ids = do
    sigs ← give (sign_keys moments identity_pair)
    save_keys moments identity_pair ids sigs

  abbrev pub draw_kyber_id : (ℕ → Moment) → Bytes → ℕ → ℕ → StoreAction PreKeyBundle
  draw_kyber_id moments identity_pair pk_id spk_id = do
    kpk_id ← next_prekey_id (codes "kyber_pre_keys")
    sign_and_save moments identity_pair (pk_id, spk_id, kpk_id)

  abbrev pub draw_signed_id : (ℕ → Moment) → Bytes → ℕ → StoreAction PreKeyBundle
  draw_signed_id moments identity_pair pk_id = do
    spk_id ← next_prekey_id (codes "signed_pre_keys")
    draw_kyber_id moments identity_pair pk_id spk_id

  abbrev pub draw_ids : (ℕ → Moment) → Bytes → StoreAction PreKeyBundle
  draw_ids moments identity_pair = do
    pk_id ← next_prekey_id (codes "pre_keys")
    draw_signed_id moments identity_pair pk_id

  unfoldable pub prekey_bundle_store : (ℕ → Moment) → StoreAction PreKeyBundle
  unfolding get_identity_key_pair next_prekey_id save_pre_key save_signed_pre_key save_kyber_pre_key
      get_local_registration_id
  prekey_bundle_store moments = do
    identity_pair ← block lib (get_identity_key_pair lib.decode_pair)
    draw_ids moments identity_pair

  unfoldable pub prekey_bundle : (ℕ → Moment) → Device → Device × Result PreKeyBundle
  unfolding prekey_bundle_store
  prekey_bundle moments = on_device (prekey_bundle_store moments)

  unfoldable pub process_bundle :
      ProtocolAddress → PreKeyBundle → Moment → Device → Device × Result (Unit {0})
  process_bundle remote bundle moment d =
      on_device (block_tofu lib (lib.process_prekey_bundle remote d.address bundle moment)) d

  abbrev pub type_code : CiphertextMessageType → ℕ
  type_code whisper = 2
  type_code pre_key = 3
  type_code sender_key = 7
  type_code plaintext = 8

  unfoldable pub type_byte : M → ℕ
  type_byte msg = type_code (lib.message_type msg)

  unfoldable pub encrypt : ProtocolAddress → Bytes → Moment → Device → Device × Result (ℕ × Bytes)
  unfolding type_byte
  encrypt remote text moment d =
      on_device
        (do
          msg ← block lib (lib.message_encrypt text remote d.address moment)
          give (ok (type_byte msg, lib.serialize msg)))
        d

  -- The number inside the text is left out.
  unfoldable pub read_ciphertext : ℕ → Bytes → Result M
  read_ciphertext msg_type ciphertext =
      if msg_type == 3
      then checked lib (lib.read_pre_key_message ciphertext)
      else if msg_type == 2
      then checked lib (lib.read_message ciphertext)
      else err (crypto "unsupported ciphertext type")

  unfoldable pub decrypt : ProtocolAddress → ℕ → Bytes → Moment → Device → Device × Result Bytes
  unfolding read_ciphertext
  decrypt remote msg_type ciphertext moment d =
      on_device
        (do
          cm ← give (read_ciphertext msg_type ciphertext)
          block_tofu lib (lib.message_decrypt cm remote d.address moment))
        d

  unfoldable pub pin_identity : ProtocolAddress → Bytes → Device → Device × Result IdentityChange
  unfolding save_identity
  pin_identity remote key = on_device (block lib (save_identity lib.decode remote key))

  unfoldable pub is_trusted : ProtocolAddress → Bytes → Device → Device × Result Bool
  unfolding is_trusted_identity
  is_trusted remote key = on_device (block lib (is_trusted_identity lib.decode remote key))
