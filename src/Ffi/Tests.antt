-- ===== src/Ffi/Tests.antt =====
-- The theorems on the classes of errors at a concrete device.
use mesui.Prelude.{arith, ◌≡◌, ◌≢◌, ◌↔◌, refl, some, [], ◌∷◌, Bytes, bytes_dec}
use Prim.Native.String.{String}
use mesui.Signal.Engine.{rejected, untrusted_identity, with_conn}
use mesui.Handshake.Library.{Libsignal}
use mesui.Handshake.Device
use mesui.Handshake.Wire.{bundle_from_wire}
use mesui.Prelude.Table.{find}
use mesui.Signal.Engine.{address_key}
use mesui.Handshake.Device.{Device}
use mesui.Handshake.Fixture.{bob, lib, access, codec, device, moment, bundle}
use mesui.Ffi.Errors.{core, remote_identity_changed, raised, map_core_error, to_string}
use mesui.Ffi.FirstMessage.{first_message_mac}
use mesui.Ffi.Session.{process_bundle, pin_identity}
use mesui.Ffi.Classified.{Refused, process_bundle_classified, pin_identity_refused}

-- A library that trusts nobody.
abbrev wary : Libsignal Bytes Bytes
wary = record lib {
  process_prekey_bundle = λ remote self bundle m s. (s, rejected (untrusted_identity remote));
}

process_bundle_classified_example :
    ((process_bundle wary access codec "bob" (1 ∷ []) moment device).1
      ≡ raised (remote_identity_changed "bob"))
    ↔ Refused wary access codec "bob" (1 ∷ []) moment device "bob"
process_bundle_classified_example =
    process_bundle_classified wary access codec "bob" (1 ∷ []) moment device "bob"

bob_is_untrusted : Refused wary access codec "bob" (1 ∷ []) moment device "bob"
unfolding bundle_from_wire
bob_is_untrusted = (bundle, 1, record { name = "bob"; device_id = 1 }, refl, refl, refl, refl)

abbrev pinned : Device
pinned = record device { store = record device.store { trusted_identities = (bob, 5 ∷ []) ∷ [] } }

on_record : find bob pinned.store.trusted_identities ≡ some (5 ∷ [])
unfolding find
on_record = refl

apart : ◌≢◌ {A = Bytes} (5 ∷ []) (6 ∷ [])
apart e = ground (arith, e)

pin_identity_refused_example :
    (text : String) × ((pin_identity lib "bob" (6 ∷ []) pinned).1 ≡ raised (core text))
    × ((pin_identity lib "bob" (6 ∷ []) pinned).0.store.trusted_identities
        ≡ pinned.store.trusted_identities)
pin_identity_refused_example =
    pin_identity_refused lib "bob" (6 ∷ []) (6 ∷ []) (5 ∷ []) (5 ∷ []) 1 pinned refl refl on_record
      refl apart

other_key_refused :
    (pin_identity lib "bob" (6 ∷ []) (pin_identity lib "bob" (5 ∷ []) device).0).1
    ≡ raised (core "密码学错误: error")
unfolding pin_identity Device.pin_identity with_conn map_core_error to_string bytes_dec
other_key_refused = refl

short_bucket :
    first_message_mac (λ c k. []) (λ k m. []) [] (1 ∷ []) []
    ≡ raised (core "bucket must be 32 bytes")
unfolding first_message_mac
short_bucket = refl
