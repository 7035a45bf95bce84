-- ===== src/Ffi/Classified.antt =====
-- ffi.rs: which failures are told apart as a changed identity.
use Prim.Native.String.{String}
use mesui.Prelude.{
  some, ◌≡◌, ◌≢◌, ◌↔◌, refl, ap, sym, ◌∙◌, Bytes, ℕ, Result, ok, err, Result-cases, inl, inr,
  Outcome, done, failed, CoreError, identity_changed, entropy, crypto, cbor, db, io, config, arith,
}
use mesui.Envelope.{Codec}
use mesui.Signal.Engine.{
  address_key, ProtocolAddress, untrusted_identity, invalid_state, other, SignalResult, rejected,
  succeeded,
}
use mesui.Prelude.Table.{find}
use mesui.Signal.Refusal.{save_identity_refused}
use mesui.Handshake.Library.{Moment, PreKeyBundle, Libsignal}
use mesui.Handshake.Device
use mesui.Handshake.Device.{Device, checked, checked_tofu, block_tofu}
use mesui.Handshake.Wire.{WirePreKeyBundle, BundleAccess, bundle_from_wire, wire_pre_key}
use mesui.Ffi.Errors.{
  core, remote_identity_changed, DcResult, to_string, raised, from_core, map_core_error,
}
use mesui.Ffi.Session.{process_bundle, pin_identity, addr, identity_from}

map_core_error_inv :
    (e : CoreError) (name : String)
    → map_core_error e ≡ remote_identity_changed name
    → e ≡ identity_changed name
unfolding map_core_error
map_core_error_inv (identity_changed n) name h = cc
map_core_error_inv (entropy t) name h = cc
map_core_error_inv (crypto t) name h = cc
map_core_error_inv (cbor t) name h = cc
map_core_error_inv (db t) name h = cc
map_core_error_inv (io t) name h = cc
map_core_error_inv (config t) name h = cc

from_core_inv :
    {A : Type 0} (r : Result A) (name : String)
    → from_core r ≡ raised (remote_identity_changed name)
    → r ≡ err (identity_changed name)
from_core_inv (ok a) name h = cc
from_core_inv (err e) name h = ap err (map_core_error_inv e name (ground arith))

err_injective : {A : Type 0} {e e' : CoreError} → ◌≡◌ {A = Result A} (err e) (err e') → e ≡ e'
err_injective h = cc

from_core_changed :
    {A : Type 0} (r : Result A) (name : String)
    → r ≡ err (identity_changed name)
    → from_core r ≡ raised (remote_identity_changed name)
unfolding map_core_error
from_core_changed r name h = rw h refl

module _ {R M : Type 0} (lib : Libsignal R M) where
  checked_tofu_inv :
      {A : Type 0} (r : SignalResult A) (name : String)
      → checked_tofu lib r ≡ err (identity_changed name)
      → (who : ProtocolAddress) × (r ≡ rejected (untrusted_identity who)) × (who.name ≡ name)
  checked_tofu_inv (succeeded a) name h = cc
  checked_tofu_inv (rejected (untrusted_identity who)) name h = (who, refl, cc)
  checked_tofu_inv (rejected (invalid_state method text)) name h = cc
  checked_tofu_inv (rejected (other text)) name h = cc

  checked_ne :
      {A : Type 0} (r : SignalResult A) (name : String)
      → checked lib r ≢ err (identity_changed name)
  checked_ne (succeeded a) name h = cc
  checked_ne (rejected e) name h = cc

  module _ (access : BundleAccess) (codec : Codec WirePreKeyBundle) where
    bundle_from_wire_ne :
        (wire : Bytes) (name : String)
        → bundle_from_wire lib access codec wire ≢ err (identity_changed name)
    unfolding bundle_from_wire wire_pre_key
    bundle_from_wire_ne wire name h = ground arith

    -- The library refused the session with a bundle for a name, as the identity of the bundle differs from
    -- the pinned one.
    abbrev pub Refused : String → Bytes → Moment → Device → String → Type 0
    Refused remote_name wire moment d name =
        (bundle : PreKeyBundle) × (id : ℕ) × (who : ProtocolAddress) × (bundle_from_wire lib access
            codec wire
          ≡ ok bundle)
        × (lib.device_id_new 1 ≡ done id)
        × ((lib.process_prekey_bundle (record { name = remote_name; device_id = id }) d.address
              bundle moment d.store).1
            ≡ rejected (untrusted_identity who))
        × (who.name ≡ name)

    -- The answer by what the wire holds and what the id of the device is.
    answer_unread :
        (remote_name : String) (wire : Bytes) (moment : Moment) (d : Device) {e : CoreError}
        → bundle_from_wire lib access codec wire ≡ err e
        → (process_bundle lib access codec remote_name wire moment d).1 ≡ from_core (err e)
    unfolding process_bundle
    answer_unread remote_name wire moment d read = rw read refl

    answer_no_device :
        (remote_name : String) (wire : Bytes) (moment : Moment) (d : Device) {b : PreKeyBundle}
        {t : String}
        → bundle_from_wire lib access codec wire ≡ ok b
        → lib.device_id_new 1 ≡ failed t
        → (process_bundle lib access codec remote_name wire moment d).1 ≡ raised (core t)
    unfolding process_bundle
    answer_no_device remote_name wire moment d read bad = rw read (rw (bad, addr) refl)

    answer :
        (remote_name : String) (wire : Bytes) (moment : Moment) (d : Device) {b : PreKeyBundle}
        {id : ℕ}
        → bundle_from_wire lib access codec wire ≡ ok b
        → lib.device_id_new 1 ≡ done id
        → (process_bundle lib access codec remote_name wire moment d).1
          ≡ from_core (
              checked_tofu lib
                (lib.process_prekey_bundle
                  (record { name = remote_name; device_id = id })
                  d.address
                  b
                  moment
                  d.store).1)
    unfolding process_bundle Device.process_bundle
    answer remote_name wire moment d read new = rw read (rw (new, addr) refl)

    process_bundle_inv :
        (remote_name : String) (wire : Bytes) (moment : Moment) (d : Device) (name : String)
        → (process_bundle lib access codec remote_name wire moment d).1
          ≡ raised (remote_identity_changed name)
        → Refused remote_name wire moment d name
    process_bundle_inv remote_name wire moment d name h =
        elim (Result-cases (bundle_from_wire lib access codec wire)) [
          | inr (e, unread) ↦ absurd (
              bundle_from_wire_ne wire name (
                unread
                ∙ ap err (
                    err_injective {A = Unit {0}} (
                      from_core_inv (err e) name
                        (sym (answer_unread remote_name wire moment d unread) ∙ h)))))
          | inl (bundle, read) ↦ device bundle read (lib.device_id_new 1) refl
        ]
      where
        device :
            (bundle : PreKeyBundle)
            → bundle_from_wire lib access codec wire ≡ ok bundle
            → (o : Outcome ℕ) → lib.device_id_new 1 ≡ o
            → Refused remote_name wire moment d name
        device bundle read (failed t) bad =
            absurd (not_core (sym (answer_no_device remote_name wire moment d read bad) ∙ h))
          where
            not_core :
                ◌≡◌ {A = DcResult (Unit {0})}
                  (raised (core t))
                  (raised (remote_identity_changed name))
                → ⊥
            not_core e = cc
        device bundle read (done id) new =
            let (who, refused, same) =
              checked_tofu_inv
                (lib.process_prekey_bundle (record { name = remote_name; device_id = id }) d.address
                  bundle moment d.store).1
                name (from_core_inv _ name (sym (answer remote_name wire moment d read new) ∙ h)) in
            (bundle, id, who, read, new, refused, same)

    -- `process_bundle` reports a changed identity of a name exactly when the wire holds a bundle and the
    -- library refuses it because the identity of that name is another one than the store trusts; no other
    -- failure is reported as that.
    pub process_bundle_classified :
        (remote_name : String) (wire : Bytes) (moment : Moment) (d : Device) (name : String)
        → ((process_bundle lib access codec remote_name wire moment d).1
            ≡ raised (remote_identity_changed name))
          ↔ Refused remote_name wire moment d name
    process_bundle_classified remote_name wire moment d name = (
      process_bundle_inv remote_name wire moment d name,
      λ (bundle, id, who, read, new, refused, same).
          answer remote_name wire moment d read new
          ∙ from_core_changed _ name (rw refused (ap (λ n. err (identity_changed n)) same)),
    )

  -- If another key is on record for the address of a name, `pin_identity` fails, whichever calls the
  -- engine refuses, the identities on record stay as they are, and what it reports is a failure of no
  -- class, not a changed identity. The given bytes and those on record are keys that the library reads.
  pub pin_identity_refused :
      (remote_name : String) (bytes key row stored : Bytes) (id : ℕ) (d : Device)
      → lib.decode bytes ≡ succeeded key
      → lib.device_id_new 1 ≡ done id
      → find (record { name = remote_name; device_id = id }) d.store.trusted_identities ≡ some row
      → lib.decode row ≡ succeeded stored
      → stored ≢ key
      → (text : String) × ((pin_identity lib remote_name bytes d).1 ≡ raised (core text))
        × ((pin_identity lib remote_name bytes d).0.store.trusted_identities
            ≡ d.store.trusted_identities)
  unfolding pin_identity Device.pin_identity map_core_error
  pin_identity_refused remote_name bytes key row stored id d read new on_record was apart =
      let address : ProtocolAddress = record { name = remote_name; device_id = id } in
      let (e, refused, kept) =
        save_identity_refused lib.decode address row stored key d.store on_record was apart in
      (
        to_string (crypto (lib.display e)),
        rw (read, identity_from) (rw (new, addr) (rw refused refl)),
        rw (read, identity_from) (rw (new, addr) (rw refused kept)),
      )
