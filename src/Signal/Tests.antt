-- ===== src/Signal/Tests.antt =====
-- The theorem on the ids of prekeys at a concrete store, and runs of the pinning of identities.
use mesui.Prelude.{◌≡◌, refl, [], ◌∷◌, Bytes, bytes_dec, codes, none, some, ok, arith, ◌<◌, u32_max}
use mesui.Prelude.Table.{nat_key, max_id, replace, find}
use mesui.Signal.Engine.{
  ProtocolAddress, address_key, SignalResult, succeeded, rejected, invalid_state, SqlSignalStore,
  poisoned, with_db, with_conn, with_faults,
}
use mesui.Signal.Identities.{
  next_prekey_id, save_identity, get_local_registration_id, refuse_change,
}
use mesui.Signal.Records.{RecordCodec, save_pre_key, remove_pre_key}
use mesui.Signal.Ids.{prekey_id_again}

abbrev raw : RecordCodec Bytes
raw = record { serialize = λ r. succeeded r; deserialize = λ b. succeeded b }

abbrev store : SqlSignalStore
store = record {
  identity_pair = none;
  trusted_identities = [];
  sessions = [];
  pre_keys = (4, 1 ∷ []) ∷ [];
  signed_pre_keys = [];
  kyber_pre_keys = [];
  faults = [];
}

abbrev alice : ProtocolAddress
alice = record { name = "alice"; device_id = 1 }

abbrev key : Bytes → SignalResult Bytes
key b = succeeded b

first_id : (next_prekey_id (codes "pre_keys") (with_faults [] store)).1 ≡ ok 5
unfolding next_prekey_id with_db max_id codes bytes_dec
first_id = refl

small : max_id store.pre_keys < u32_max
unfolding max_id
small = omega arith

prekey_id_again_example :
    (next_prekey_id
      (codes "pre_keys")
      (remove_pre_key 5 (save_pre_key raw 5 (9 ∷ []) (with_faults [] store)).0).0).1
    ≡ ok 5
prekey_id_again_example = prekey_id_again raw store (9 ∷ []) (9 ∷ []) 5 refl small first_id

other_key_refused :
    (save_identity key alice (2 ∷ []) (save_identity key alice (1 ∷ []) store).0).1
    ≡ rejected refuse_change
unfolding save_identity with_conn find replace bytes_dec
other_key_refused = refl

poisoned_store :
    (get_local_registration_id (with_faults (some poisoned ∷ []) store)).1
    ≡ rejected (invalid_state "get_local_registration_id" "signal store mutex poisoned")
unfolding get_local_registration_id with_conn
poisoned_store = refl
