-- ===== src/Handshake/Trusted.antt =====
-- handshake.rs: trust on first use at the level of the device.
use mesui.Prelude.{◌≡◌, sym, subst, ◌↔◌, Bool, true, List, [], ◌∷◌, Bytes, ℕ, Result, ok, err}
use mesui.Signal.Engine.{ProtocolAddress, SqlSignalStore, SignalResult, succeeded, rejected, Action}
use mesui.Signal.Identities.{save_identity, is_trusted_identity, IdentityChange}
use mesui.Signal.Calls.{StoreCall, run}
use mesui.Signal.Pinned.{Pinned, run-Pinned, save_identity-Pinned}
use mesui.Signal.Trust.{save_identity-Pinned_done, save_identity_only, is_trusted_iff}
use mesui.Handshake.Library.{Moment, PreKeyBundle, Libsignal}
use mesui.Handshake.Device.{
  Device, checked, prekey_bundle, process_bundle, encrypt, decrypt, pin_identity, is_trusted,
  read_ciphertext, continue_with, block, checked_tofu, give, type_byte,
}
use mesui.Handshake.Keeps.{chain-Keeps, Draws, prekey_bundle_store_leads}

module _ {R M : Type 0} (lib : Libsignal R M) where
  -- An action of the library changes the store by calls of the store traits only.
  abbrev pub ByCalls : {A : Type 0} → Action A → Type 0
  ByCalls m =
      (s : SqlSignalStore) → (cs : List (StoreCall R)) × ((m s).0 ≡ run lib.decode lib.codec cs s)

  pub record StoreTraits : Type 0 where
    pub process :
        (remote self : ProtocolAddress) (bundle : PreKeyBundle) (moment : Moment)
        → ByCalls (lib.process_prekey_bundle remote self bundle moment)
    pub encrypts :
        (text : Bytes) (remote self : ProtocolAddress) (moment : Moment)
        → ByCalls (lib.message_encrypt text remote self moment)
    pub decrypts :
        (cm : M) (remote self : ProtocolAddress) (moment : Moment)
        → ByCalls (lib.message_decrypt cm remote self moment)

-- The methods of a device.
pub data DeviceCall : Type 0 where
  shows : (ℕ → Moment) → DeviceCall
  processes : ProtocolAddress → PreKeyBundle → Moment → DeviceCall
  encrypts : ProtocolAddress → Bytes → Moment → DeviceCall
  decrypts : ProtocolAddress → ℕ → Bytes → Moment → DeviceCall
  pins : ProtocolAddress → Bytes → DeviceCall

module _ {R M : Type 0} (lib : Libsignal R M) where
  unfoldable pub device_step : DeviceCall → Device → Device
  device_step (shows moments) d = (prekey_bundle lib moments d).0
  device_step (processes remote bundle moment) d = (process_bundle lib remote bundle moment d).0
  device_step (encrypts remote text moment) d = (encrypt lib remote text moment d).0
  device_step (decrypts remote t ct moment) d = (decrypt lib remote t ct moment d).0
  device_step (pins remote key) d = (pin_identity lib remote key d).0

  unfoldable pub device_run : List DeviceCall → Device → Device
  unfolding device_step
  device_run [] d = d
  device_run (c ∷ cs) d = device_run cs (device_step c d)

module _ {R M : Type 0} (lib : Libsignal R M) (traits : StoreTraits lib) (address : ProtocolAddress)
    (identity : Bytes) (reads_back : lib.decode identity ≡ succeeded identity) where
  abbrev IsPinned : SqlSignalStore → Type 0
  IsPinned = Pinned address identity

  by_calls :
      {A : Type 0} (m : Action A)
      → ByCalls lib m
      → (s : SqlSignalStore) → IsPinned s
      → IsPinned (m s).0
  by_calls m through s p =
      let (cs, e) = through s in
      subst IsPinned (sym e) (run-Pinned lib.decode address identity reads_back lib.codec cs s p)

  draws : Draws IsPinned IsPinned
  draws = record {
    One = λ id. Unit {0};
    Signed = λ id. Unit {0};
    Kyber = λ id. Unit {0};
    weaken = λ s p. p;
    one = λ s id p e. tt;
    signed = λ s id p e. tt;
    kyber = λ s id p e. tt;
    put_one = λ id b s u p. p;
    put_signed_row = λ id b s u p. p;
    put_kyber_row = λ id b s u p. p;
  }

  decrypt-Pinned :
      (remote : ProtocolAddress) (moment : Moment) (self : ProtocolAddress) (cm : Result M)
      (s : SqlSignalStore)
      → IsPinned s
      → IsPinned
          (continue_with
            (λ cm s. (
              (lib.message_decrypt cm remote self moment s).0,
              checked_tofu lib (lib.message_decrypt cm remote self moment s).1,
            ))
            (s, cm)).0
  decrypt-Pinned remote moment self (ok cm) s p =
      by_calls (lib.message_decrypt cm remote self moment) (traits.decrypts cm remote self moment) s
        p
  decrypt-Pinned remote moment self (err e) s p = p

  device_step-Pinned :
      (c : DeviceCall) (d : Device) → IsPinned d.store → IsPinned (device_step lib c d).store
  unfolding device_step prekey_bundle process_bundle encrypt decrypt pin_identity
  device_step-Pinned (shows moments) d p =
      prekey_bundle_store_leads lib IsPinned IsPinned (λ fs s p. p) (λ fs s p. p) draws moments
        d.store p
  device_step-Pinned (processes remote bundle moment) d p =
      by_calls (lib.process_prekey_bundle remote d.address bundle moment)
        (traits.process remote d.address bundle moment) d.store p
  device_step-Pinned (encrypts remote text moment) d p =
      chain-Keeps IsPinned (block lib (lib.message_encrypt text remote d.address moment))
        (λ msg. give (ok (type_byte lib msg, lib.serialize msg)))
        (by_calls (lib.message_encrypt text remote d.address moment)
          (traits.encrypts text remote d.address moment))
        (λ msg s p. p) d.store p
  device_step-Pinned (decrypts remote t ct moment) d p =
      decrypt-Pinned remote moment d.address (read_ciphertext lib t ct) d.store p
  device_step-Pinned (pins remote key) d p =
      save_identity-Pinned lib.decode address identity reads_back remote key d.store p

  device_run-Pinned :
      (cs : List DeviceCall) (d : Device) → IsPinned d.store → IsPinned (device_run lib cs d).store
  unfolding device_run
  device_run-Pinned [] d p = p
  device_run-Pinned (c ∷ cs) d p =
      device_run-Pinned cs (device_step lib c d) (device_step-Pinned c d p)

  checked_inv : {A : Type 0} (r : SignalResult A) {a : A} → checked lib r ≡ ok a → r ≡ succeeded a
  checked_inv (succeeded a) h = cc
  checked_inv (rejected e) h = cc

  pin_identity-Pinned_done :
      (d : Device) {c : IdentityChange}
      → (pin_identity lib address identity d).1 ≡ ok c
      → IsPinned (pin_identity lib address identity d).0.store
  unfolding pin_identity
  pin_identity-Pinned_done d h =
      save_identity-Pinned_done lib.decode address identity d.store
        (checked_inv (save_identity lib.decode address identity d.store).1 h)

  module _ (d : Device) (change : IdentityChange)
      (pinned : (pin_identity lib address identity d).1 ≡ ok change) (cs : List DeviceCall)
      (k : Bytes) where
    -- Once a device has pinned a key for an address, then after any number of bundles shown, sessions
    -- set up, messages sent and received, and other pins, whatever comes from the other side and
    -- whichever calls the engine refuses, the device trusts exactly that key for the address, whenever
    -- the query gives an answer. The library touches the store by the store traits only, and reads the
    -- key back as it was written.
    pub is_trusted_after_pin :
        (b : Bool)
        → (is_trusted lib address k (device_run lib cs (pin_identity lib address identity d).0)).1
          ≡ ok b
        → (b ≡ true) ↔ (k ≡ identity)
    unfolding is_trusted
    is_trusted_after_pin b h =
        let d' = device_run lib cs (pin_identity lib address identity d).0 in
        is_trusted_iff lib.decode address identity reads_back k d'.store
          (device_run-Pinned cs (pin_identity lib address identity d).0
            (pin_identity-Pinned_done d pinned))
          (checked_inv (is_trusted_identity lib.decode address k d'.store).1 h)

    -- Once a device has pinned a key for an address, then after whatever calls of its methods it pins no
    -- other key for the address. The library touches the store by the store traits only, and reads the
    -- key back as it was written.
    pub pin_after_pin :
        (again : IdentityChange)
        → (pin_identity lib address k (device_run lib cs (pin_identity lib address identity d).0)).1
          ≡ ok again
        → k ≡ identity
    unfolding pin_identity
    pin_after_pin again h =
        let d' = device_run lib cs (pin_identity lib address identity d).0 in
        save_identity_only lib.decode address identity reads_back k d'.store
          (device_run-Pinned cs (pin_identity lib address identity d).0
            (pin_identity-Pinned_done d pinned))
          (checked_inv (save_identity lib.decode address k d'.store).1 h)
