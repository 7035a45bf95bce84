-- ===== src/Handshake/Tests.antt =====
-- The theorems on the handshake at a concrete device, with a library that stores records as they are.
use Prim.Native.String.{String}
use mesui.Prelude.{
  Option, ap, false, Outcome, failed, ◌==◌, bytes_eq, bytes_eq_iff, if◌then◌else◌, Bool-cases, inl,
  inr, ℕ, ◌≡◌, ◌↔◌, refl, Bool, true, none, some, List, [], ◌∷◌, Bytes, bytes_dec, length,
  replicate, All, IsByte, done, ok, arith, ◌<◌, u32_max,
}
use mesui.Prelude.Table.{nat_key, find, max_id, replace}
use mesui.Signal.Engine.{address_key, SqlSignalStore, Fault, poisoned, with_conn, with_db}
use mesui.Signal.Calls.{StoreCall, run}
use mesui.Signal.Identities.{new_or_unchanged}
use mesui.Handshake.Library.{Moment}
use mesui.Handshake.Device.{encrypt, bootstrap, prekey_bundle, pin_identity, is_trusted}
use mesui.Handshake.Wire.{WirePreKeyBundle, bundle_to_wire, bundle_from_wire}
use mesui.Handshake.First.{first_message_mac, verify_first_message_mac}
use mesui.Handshake.Reopen.{restarts, identity_stays}
use mesui.Handshake.Trusted.{
  StoreTraits, DeviceCall, encrypts, pins, device_run, is_trusted_after_pin,
}
use mesui.Handshake.Pending.{one_time, rows_of, pending_stays}
use mesui.Handshake.Bundle.{IsBundle, wire_of, bundle_from_wire-bundle_to_wire}
use mesui.Handshake.Fixture.{
  lib, access, store, moment, alice, bob, device, bundle, same_option, same_wire, codec,
}
use mesui.Handshake.Mac.{verify_first_message_mac_iff}

started : (bootstrap lib "alice" moment (done (0 ∷ 0 ∷ 1 ∷ 2 ∷ [])) store).1 ≡ ok alice
unfolding bootstrap with_db
started = refl

abbrev starts : List (String × Moment × Outcome Bytes × List (Option Fault))
starts =
    ("alice", record { now = 2_000; seed = 8 ∷ [] }, done (0 ∷ 0 ∷ 3 ∷ 4 ∷ []), [])
    ∷ ("alice", moment, done [], some poisoned ∷ [])
    ∷ []

identity_stays_example :
    (i : Bytes × ℕ) × ((bootstrap lib "alice" moment
        (done (0 ∷ 0 ∷ 1 ∷ 2 ∷ []))
        store).0.identity_pair
      ≡ some i)
    × ((restarts lib starts
          (bootstrap lib "alice" moment (done (0 ∷ 0 ∷ 1 ∷ 2 ∷ [])) store).0).identity_pair
        ≡ some i)
identity_stays_example =
    identity_stays lib "alice" moment (done (0 ∷ 0 ∷ 1 ∷ 2 ∷ [])) store alice started starts

nothing_written :
    (s : SqlSignalStore) → (cs : List (StoreCall Bytes)) × (s ≡ run lib.decode lib.codec cs s)
unfolding run
nothing_written s = ([], refl)

traits : StoreTraits lib
traits = record {
  process = λ remote self bundle m s. nothing_written s;
  encrypts = λ text remote self m s. nothing_written s;
  decrypts = λ cm remote self m s. nothing_written s;
}

abbrev calls : List DeviceCall
calls = encrypts bob (1 ∷ []) moment ∷ pins bob (6 ∷ []) ∷ []

pinned : (pin_identity lib bob (5 ∷ []) device).1 ≡ ok new_or_unchanged
unfolding pin_identity with_conn
pinned = refl

not_trusted :
    (is_trusted lib bob (6 ∷ []) (device_run lib calls (pin_identity lib bob (5 ∷ []) device).0)).1
    ≡ ok false
unfolding is_trusted device_run pin_identity encrypt with_conn find replace bytes_dec
not_trusted = refl

abbrev other_key : Bytes
other_key = 6 ∷ []

is_trusted_after_pin_example : (false ≡ true) ↔ (other_key ≡ 5 ∷ [])
is_trusted_after_pin_example =
    is_trusted_after_pin lib traits bob (5 ∷ []) refl device new_or_unchanged pinned calls other_key
      false not_trusted

waiting : find 4 (rows_of one_time device.store) ≡ some (1 ∷ [])
unfolding find
waiting = refl

small : max_id (rows_of one_time device.store) < u32_max
unfolding max_id
small = omega arith

pending_stays_example :
    find 4 (rows_of one_time (prekey_bundle lib (λ n. moment) device).0.store) ≡ some (1 ∷ [])
pending_stays_example = pending_stays lib one_time 4 (1 ∷ []) (λ n. moment) device waiting small

taken : IsBundle lib access bundle
taken = record {
  registration_id = refl;
  device_id = refl;
  pre_key_id = refl;
  pre_key_public = refl;
  signed_pre_key_id = refl;
  signed_pre_key_public = refl;
  signed_pre_key_signature = refl;
  kyber_pre_key_id = refl;
  kyber_pre_key_public = refl;
  kyber_pre_key_signature = refl;
  identity_key = refl;
  new_device = refl;
  one_time_key = refl;
  signed_key = refl;
  kyber_key = refl;
  own_key = refl;
  made = refl;
}

same_numbers : (a b : Option ℕ) → same_option (λ a b. a == b) a b ≡ true → a ≡ b
same_numbers none none h = refl
same_numbers (some a) (some b) h = ground arith
same_numbers none (some b) h = cc
same_numbers (some a) none h = cc

same_bytes : (a b : Option Bytes) → same_option bytes_eq a b ≡ true → a ≡ b
same_bytes none none h = refl
same_bytes (some a) (some b) h = ap some ((bytes_eq_iff a b).0 h)
same_bytes none (some b) h = cc
same_bytes (some a) none h = cc

same_wire_lem : (v w : WirePreKeyBundle) → same_wire v w ≡ true → v ≡ w
same_wire_lem v w h = ground (
  arith,
  bytes_eq_iff v.signed_pre_key_public w.signed_pre_key_public,
  bytes_eq_iff v.signed_pre_key_signature w.signed_pre_key_signature,
  bytes_eq_iff v.kyber_pre_key_public w.kyber_pre_key_public,
  bytes_eq_iff v.kyber_pre_key_signature w.kyber_pre_key_signature,
  bytes_eq_iff v.identity_key w.identity_key,
  same_bytes v.pre_key_public w.pre_key_public,
  same_numbers v.pre_key_id w.pre_key_id,
)

reads_back :
    (w : WirePreKeyBundle) (b : Bytes) → codec.into_writer w ≡ done b → codec.from_reader b ≡ done w
reads_back w b h = elim (Bool-cases (same_wire w (wire_of bundle))) [
  | inl same ↦ rw (same_wire_lem w (wire_of bundle) same) refl
  | inr other ↦ absurd (not_full (same_wire w (wire_of bundle)) other h)
]
  where
    not_full : (t : Bool) → t ≡ false → (if t then done (1 ∷ []) else failed "full") ≡ done b → ⊥
    not_full t e k = ground arith

written : bundle_to_wire lib access codec bundle ≡ ok (1 ∷ [])
unfolding bundle_to_wire bytes_dec
written = refl

bundle_from_wire-bundle_to_wire_example : bundle_from_wire lib access codec (1 ∷ []) ≡ ok bundle
bundle_from_wire-bundle_to_wire_example =
    bundle_from_wire-bundle_to_wire lib access codec bundle (1 ∷ []) taken reads_back written

-- A hash of 32 bytes.
abbrev zeros : Bytes → Bytes → Bytes
zeros k m = replicate 32 0

zeros_out : (k m : Bytes) → (length (zeros k m) ≡ 32) × All IsByte (zeros k m)
zeros_out k m = ground arith

verify_first_message_mac_iff_example :
    (verify_first_message_mac zeros zeros (1 ∷ []) (2 ∷ []) (3 ∷ []) (replicate 32 0) ≡ ok tt)
    ↔ (replicate 32 0 ≡ first_message_mac zeros zeros (1 ∷ []) (2 ∷ []) (3 ∷ []))
verify_first_message_mac_iff_example =
    verify_first_message_mac_iff zeros zeros zeros_out (1 ∷ []) (2 ∷ []) (3 ∷ []) (replicate 32 0)
      refl (zeros_out [] []).1
