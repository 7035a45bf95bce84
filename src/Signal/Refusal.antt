-- ===== src/Signal/Refusal.antt =====
-- signal_store.rs, `save_identity`: a key that differs from the one on record is not written.
use mesui.Prelude.{
  ◌≡◌, ◌≢◌, refl, Option, none, some, List, [], ◌∷◌, Bytes, bytes_eq, bytes_eq_iff, Bool-cases, inl,
  inr,
}
use mesui.Prelude.Table.{find}
use mesui.Signal.Engine.{
  ProtocolAddress, address_key, SignalProtocolError, invalid_state, SignalResult, succeeded,
  rejected, SqlSignalStore, Fault, poisoned, refused, with_faults, with_conn,
}
use mesui.Signal.Identities.{save_identity, select_identity, check_existing, refuse_change}

module _ (decode : Bytes → SignalResult Bytes) where
  check_existing_other :
      (row stored key : Bytes)
      → decode row ≡ succeeded stored
      → stored ≢ key
      → check_existing decode (some row) key ≡ rejected refuse_change
  check_existing_other row stored key e apart = elim (Bool-cases (bytes_eq stored key)) [
    | inl same ↦ absurd (apart ((bytes_eq_iff stored key).0 same))
    | inr other ↦ rw (e, check_existing) (rw other refl)
  ]

  -- If another key is on record for the address, `save_identity` fails, whichever calls the engine
  -- refuses, and the table of identities stays as it is.
  pub save_identity_refused :
      (address : ProtocolAddress) (row stored key : Bytes) (s : SqlSignalStore)
      → find address s.trusted_identities ≡ some row
      → decode row ≡ succeeded stored
      → stored ≢ key
      → (e : SignalProtocolError) × ((save_identity decode address key s).1 ≡ rejected e)
        × ((save_identity decode address key s).0.trusted_identities ≡ s.trusted_identities)
  unfolding save_identity select_identity with_conn
  save_identity_refused address row stored key s on_record e apart = answered s.faults
    where
      other : check_existing decode (some row) key ≡ rejected refuse_change
      other = check_existing_other row stored key e apart

      answered :
          (faults : List (Option Fault))
          → (e : SignalProtocolError) × ((save_identity decode address key (with_faults faults s)).1
              ≡ rejected e)
            × ((save_identity decode address key (with_faults faults s)).0.trusted_identities
                ≡ s.trusted_identities)
      answered [] = (refuse_change, rw on_record (rw other refl), rw on_record (rw other refl))
      answered (none ∷ fs) =
          (refuse_change, rw on_record (rw other refl), rw on_record (rw other refl))
      answered (some poisoned ∷ fs) =
          (invalid_state "save_identity" "signal store mutex poisoned", refl, refl)
      answered (some (refused debug display) ∷ fs) =
          (invalid_state "save_identity" debug, refl, refl)
