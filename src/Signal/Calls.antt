-- ===== src/Signal/Calls.antt =====
-- signal_store.rs: sequences of calls that write.
use mesui.Prelude.{ℕ, List, [], ◌∷◌, Bytes}
use mesui.Prelude.Table.{nat_key}
use mesui.Signal.Engine.{ProtocolAddress, address_key, SignalResult, SqlSignalStore}
use mesui.Signal.Identities.{save_identity, save_local_identity, select_identity}
use mesui.Signal.Records.{
  RecordCodec, store_session, save_pre_key, save_signed_pre_key, save_kyber_pre_key, remove_pre_key,
  mark_kyber_pre_key_used,
}

-- The calls of the traits that write, a record already encoded or not.
pub data StoreCall (R : Type 0) : Type 0 where
  saves_identity : ProtocolAddress → Bytes → StoreCall R
  stores_session : ProtocolAddress → R → StoreCall R
  saves_pre_key : ℕ → R → StoreCall R
  removes_pre_key : ℕ → StoreCall R
  saves_signed : ℕ → R → StoreCall R
  saves_kyber : ℕ → R → StoreCall R
  uses_kyber : ℕ → StoreCall R
  saves_local : Bytes → ℕ → StoreCall R
  reads : ProtocolAddress → StoreCall R

module _ {R : Type 0} (decode : Bytes → SignalResult Bytes) (codec : RecordCodec R) where
  unfoldable pub step : StoreCall R → SqlSignalStore → SqlSignalStore
  step (saves_identity address identity) s = (save_identity decode address identity s).0
  step (stores_session address r) s = (store_session codec address r s).0
  step (saves_pre_key id r) s = (save_pre_key codec id r s).0
  step (removes_pre_key id) s = (remove_pre_key id s).0
  step (saves_signed id r) s = (save_signed_pre_key codec id r s).0
  step (saves_kyber id r) s = (save_kyber_pre_key codec id r s).0
  step (uses_kyber id) s = (mark_kyber_pre_key_used id s).0
  step (saves_local pair reg) s = (save_local_identity pair reg s).0
  step (reads address) s = (select_identity "get_identity" address s).0

  unfoldable pub run : List (StoreCall R) → SqlSignalStore → SqlSignalStore
  unfolding step
  run [] s = s
  run (c ∷ cs) s = run cs (step c s)
