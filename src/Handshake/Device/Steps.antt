-- ===== src/Handshake/Device/Steps.antt =====
-- handshake.rs: actions on the store of a device, and the errors that they come back with.
use mesui.Prelude.{ℕ, CoreError, crypto, identity_changed, Result, ok, err}
use mesui.Signal.Engine.{
  ProtocolAddress, SignalProtocolError, invalid_state, untrusted_identity, other, SignalResult,
  rejected, succeeded, SqlSignalStore, Action,
}
use mesui.Handshake.Library.{Libsignal}

pub record Device : Type 0 where
  pub address : ProtocolAddress
  pub store : SqlSignalStore

-- An action on the store whose errors are of the crate.
abbrev pub StoreAction : Type 0 → Type 0
StoreAction A = SqlSignalStore → SqlSignalStore × Result A

abbrev pub continue_with :
    {A B : Type 0} → (A → StoreAction B) → SqlSignalStore × Result A → SqlSignalStore × Result B
continue_with f (s, ok a) = f a s
continue_with f (s, err e) = (s, err e)

infixl 5 ◌>>=◌ ◌>>◌
abbrev pub ◌>>=◌ : {A B : Type 0} → StoreAction A → (A → StoreAction B) → StoreAction B
◌>>=◌ m f s = continue_with f (m s)

abbrev pub ◌>>◌ : {A B : Type 0} → StoreAction A → StoreAction B → StoreAction B
m >> k = m >>= λ _. k

abbrev pub give : {A : Type 0} → Result A → StoreAction A
give r s = (s, r)

-- The address is never changed.
abbrev pub on_device : {A : Type 0} → StoreAction A → Device → Device × Result A
on_device m d = let (s, r) = m d.store in (record d { store = s }, r)

abbrev pub device_id : ℕ
device_id = 1

module _ {R M : Type 0} (lib : Libsignal R M) where
  abbrev pub crypto_err : SignalProtocolError → CoreError
  crypto_err e = crypto (lib.display e)

  abbrev pub map_signal_err : SignalProtocolError → CoreError
  map_signal_err (untrusted_identity addr) = identity_changed addr.name
  map_signal_err (invalid_state method text) = crypto_err (invalid_state method text)
  map_signal_err (other text) = crypto_err (other text)

  abbrev pub checked : {A : Type 0} → SignalResult A → Result A
  checked (succeeded a) = ok a
  checked (rejected e) = err (crypto_err e)

  abbrev pub checked_tofu : {A : Type 0} → SignalResult A → Result A
  checked_tofu (succeeded a) = ok a
  checked_tofu (rejected e) = err (map_signal_err e)

  abbrev pub block : {A : Type 0} → Action A → StoreAction A
  block m s = let (s', r) = m s in (s', checked r)

  abbrev pub block_tofu : {A : Type 0} → Action A → StoreAction A
  block_tofu m s = let (s', r) = m s in (s', checked_tofu r)
