-- ===== src/Signal/Records.antt =====
-- signal_store.rs: `SessionStore`, `PreKeyStore`, `SignedPreKeyStore` and `KyberPreKeyStore`.
use mesui.Prelude.{ℕ, Option, none, some, Bytes}
use mesui.Prelude.Table.{nat_key, find, replace, erase}
use mesui.Signal.Engine.{
  ProtocolAddress, address_key, SignalResult, rejected, succeeded, Action, ◌>>=◌, lift, with_conn,
  Statement,
}

-- The statements that write.
abbrev pub put_session : ProtocolAddress → Bytes → Statement (Unit {0})
put_session address bytes s = (record s { sessions = replace address bytes s.sessions }, some tt)

abbrev pub put_pre_key : ℕ → Bytes → Statement (Unit {0})
put_pre_key id bytes s = (record s { pre_keys = replace id bytes s.pre_keys }, some tt)

abbrev pub put_signed : ℕ → Bytes → Statement (Unit {0})
put_signed id bytes s = (record s { signed_pre_keys = replace id bytes s.signed_pre_keys }, some tt)

abbrev pub put_kyber : ℕ → Bytes → Statement (Unit {0})
put_kyber id bytes s = (record s { kyber_pre_keys = replace id bytes s.kyber_pre_keys }, some tt)

abbrev pub delete_pre_key : ℕ → Statement (Unit {0})
delete_pre_key id s = (record s { pre_keys = erase id s.pre_keys }, some tt)

abbrev pub delete_kyber : ℕ → Statement (Unit {0})
delete_kyber id s = (record s { kyber_pre_keys = erase id s.kyber_pre_keys }, some tt)

-- How the library writes and reads its records.
pub record RecordCodec (R : Type 0) : Type 0 where
  pub serialize : R → SignalResult Bytes
  pub deserialize : Bytes → SignalResult R

module _ {R : Type 0} (codec : RecordCodec R) where
  abbrev pub session_of : Option Bytes → SignalResult (Option R)
  session_of none = succeeded none
  session_of (some b) = elim (codec.deserialize b) [
    | rejected e ↦ rejected e
    | succeeded r ↦ succeeded (some r)
  ]

  unfoldable pub load_session : ProtocolAddress → Action (Option R)
  unfolding with_conn find
  load_session address = do
    row ← with_conn "load_session" λ s. (s, some (find address s.sessions))
    lift (session_of row)

  unfoldable pub store_session : ProtocolAddress → R → Action (Unit {0})
  unfolding with_conn replace
  store_session address r = do
    bytes ← lift (codec.serialize r)
    with_conn "store_session" (put_session address bytes)

  unfoldable pub get_pre_key : ℕ → Action R
  unfolding with_conn find
  get_pre_key id = do
    bytes ← with_conn "get_pre_key" λ s. (s, find id s.pre_keys)
    lift (codec.deserialize bytes)

  unfoldable pub save_pre_key : ℕ → R → Action (Unit {0})
  unfolding with_conn replace
  save_pre_key id r = do
    bytes ← lift (codec.serialize r)
    with_conn "save_pre_key" (put_pre_key id bytes)

  unfoldable pub get_signed_pre_key : ℕ → Action R
  unfolding with_conn find
  get_signed_pre_key id = do
    bytes ← with_conn "get_signed_pre_key" λ s. (s, find id s.signed_pre_keys)
    lift (codec.deserialize bytes)

  unfoldable pub save_signed_pre_key : ℕ → R → Action (Unit {0})
  unfolding with_conn replace
  save_signed_pre_key id r = do
    bytes ← lift (codec.serialize r)
    with_conn "save_signed_pre_key" (put_signed id bytes)

  unfoldable pub get_kyber_pre_key : ℕ → Action R
  unfolding with_conn find
  get_kyber_pre_key id = do
    bytes ← with_conn "get_kyber_pre_key" λ s. (s, find id s.kyber_pre_keys)
    lift (codec.deserialize bytes)

  unfoldable pub save_kyber_pre_key : ℕ → R → Action (Unit {0})
  unfolding with_conn replace
  save_kyber_pre_key id r = do
    bytes ← lift (codec.serialize r)
    with_conn "save_kyber_pre_key" (put_kyber id bytes)

unfoldable pub remove_pre_key : ℕ → Action (Unit {0})
unfolding with_conn erase
remove_pre_key id = with_conn "remove_pre_key" (delete_pre_key id)

-- A Kyber prekey is used once: the row is deleted.
unfoldable pub mark_kyber_pre_key_used : ℕ → Action (Unit {0})
unfolding with_conn erase
mark_kyber_pre_key_used id = with_conn "mark_kyber_pre_key_used" (delete_kyber id)
