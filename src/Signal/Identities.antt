-- ===== src/Signal/Identities.antt =====
-- signal_store.rs: the own identity, the ids of prekeys, and `IdentityKeyStore`.
use Prim.Native.String.{String}
use mesui.Prelude.{
  ℕ, suc, ◌%◌, ◌^◌, Bool, true, Option, none, some, Bytes, bytes_eq, codes, leb, if◌then◌else◌,
  u32_max, Result, err, config,
}
use mesui.Prelude.Table.{nat_key, Table, find, replace, max_id}
use mesui.Signal.Engine.{
  ProtocolAddress, address_key, SignalProtocolError, invalid_state, SignalResult, rejected,
  succeeded, SqlSignalStore, Action, ◌>>=◌, lift, with_conn, Statement, with_db,
}

-- The column is an `i64` that holds a u32.
unfoldable pub local_identity : SqlSignalStore → SqlSignalStore × Result (Option (Bytes × ℕ))
unfolding with_db
local_identity =
    with_db
      λ s. (s, elim s.identity_pair [ none ↦ none | some (pair, reg) ↦ some (pair, reg % 2 ^ 32) ])

abbrev pub put_local : Bytes → ℕ → SqlSignalStore → SqlSignalStore × Unit {0}
put_local pair registration_id s = (record s { identity_pair = some (pair, registration_id) }, tt)

unfoldable pub save_local_identity : Bytes → ℕ → SqlSignalStore → SqlSignalStore × Result (Unit {0})
unfolding with_db
save_local_identity pair registration_id = with_db (put_local pair registration_id)

-- `u32::try_from(next).unwrap_or(1)`.
abbrev pub next_id : Table ℕ Bytes → ℕ
next_id rows = if leb (suc (max_id rows)) u32_max then suc (max_id rows) else 1

abbrev pub prekey_table : Bytes → SqlSignalStore → Option (Table ℕ Bytes)
prekey_table table s =
    if bytes_eq table (codes "pre_keys")
    then some s.pre_keys
    else if bytes_eq table (codes "signed_pre_keys")
    then some s.signed_pre_keys
    else if bytes_eq table (codes "kyber_pre_keys")
    then some s.kyber_pre_keys
    else none

unfoldable pub next_prekey_id : Bytes → SqlSignalStore → SqlSignalStore × Result ℕ
unfolding with_db max_id codes
next_prekey_id table s = elim (prekey_table table s) [
  | none ↦ (s, err (config "unknown prekey table"))
  | some rows ↦ with_db (λ s. (s, next_id rows)) s
]

-- `IdentityChange::from_changed(false)` is the first.
pub data IdentityChange : Type 0 where
  new_or_unchanged replaced_existing : IdentityChange

abbrev pub registration_of : Statement ℕ
registration_of s =
    (s, elim s.identity_pair [ none ↦ none | some (pair, reg) ↦ some (reg % 2 ^ 32) ])

unfoldable pub get_local_registration_id : Action ℕ
unfolding with_conn
get_local_registration_id = with_conn "get_local_registration_id" registration_of

-- `.optional()`: no row is no error.
abbrev pub row_of : ProtocolAddress → Statement (Option Bytes)
row_of address s = (s, some (find address s.trusted_identities))

unfoldable pub select_identity : String → ProtocolAddress → Action (Option Bytes)
unfolding with_conn find
select_identity method address = with_conn method (row_of address)

abbrev pub put_identity : ProtocolAddress → Bytes → Statement (Unit {0})
put_identity address identity s =
    (record s { trusted_identities = replace address identity s.trusted_identities }, some tt)

-- The row is replaced.
unfoldable pub insert_identity : ProtocolAddress → Bytes → Action (Unit {0})
unfolding with_conn replace
insert_identity address identity = with_conn "save_identity" (put_identity address identity)

abbrev pub pair_of : Statement Bytes
pair_of s = (s, elim s.identity_pair [ none ↦ none | some (pair, reg) ↦ some pair ])

-- `decode_pair` reads a key pair.
unfoldable pub get_identity_key_pair : (Bytes → SignalResult Bytes) → Action Bytes
unfolding with_conn
get_identity_key_pair decode_pair = do
  row ← with_conn "get_identity_key_pair" pair_of
  lift (decode_pair row)

-- The numbers and names inside the text are left out.
abbrev pub refuse_change : SignalProtocolError
refuse_change =
    invalid_state "save_identity"
      "refusing to overwrite identity: key changed (re-scan QR to re-establish)"

-- `decode` reads a public identity key.
module _ (decode : Bytes → SignalResult Bytes) where
  -- The check of a row against a key: the row is decoded first.
  abbrev pub same_key : Bytes → Bytes → SignalResult Bool
  same_key prev identity = elim (decode prev) [
    | rejected e ↦ rejected e
    | succeeded stored ↦ succeeded (bytes_eq stored identity)
  ]

  abbrev pub check_existing : Option Bytes → Bytes → SignalResult (Unit {0})
  check_existing none identity = succeeded tt
  check_existing (some prev) identity = elim (same_key prev identity) [
    | rejected e ↦ rejected e
    | succeeded same ↦ if same then succeeded tt else rejected refuse_change
  ]

  unfoldable pub save_identity : ProtocolAddress → Bytes → Action IdentityChange
  unfolding select_identity insert_identity
  save_identity address identity = do
    existing ← select_identity "save_identity" address
    _ ← lift (check_existing existing identity)
    _ ← insert_identity address identity
    lift (succeeded new_or_unchanged)

  abbrev pub trust : Option Bytes → Bytes → SignalResult Bool
  trust none identity = succeeded true
  trust (some prev) identity = same_key prev identity

  unfoldable pub is_trusted_identity : ProtocolAddress → Bytes → Action Bool
  unfolding select_identity
  is_trusted_identity address identity = do
    existing ← select_identity "is_trusted_identity" address
    lift (trust existing identity)

  abbrev pub decoded : Option Bytes → SignalResult (Option Bytes)
  decoded none = succeeded none
  decoded (some b) = elim (decode b) [
    | rejected e ↦ rejected e
    | succeeded key ↦ succeeded (some key)
  ]

  unfoldable pub get_identity : ProtocolAddress → Action (Option Bytes)
  unfolding select_identity
  get_identity address = do
    existing ← select_identity "get_identity" address
    lift (decoded existing)
