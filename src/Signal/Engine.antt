-- ===== src/Signal/Engine.antt =====
-- signal_store.rs: addresses, errors, the tables, and the calls of the engine.
use Prim.Native.String.{String}
use text.Mathlib.Text.{◌==◌ as str_eq}
use text.Mathlib.TextEquality.{eq_iff}
use mesui.Prelude.{
  ℕ, Bool, true, ◌&&◌, Option, none, some, List, [], ◌∷◌, Bytes, ◌==◌, Result, ok, err, db, ◌≡◌,
  ◌↔◌, arith,
}
use mesui.Prelude.Table.{Key, nat_key, Table}

pub record ProtocolAddress : Type 0 where
  pub name : String
  pub device_id : ℕ

abbrev pub address_same : ProtocolAddress → ProtocolAddress → Bool
address_same a b = str_eq a.name b.name && (a.device_id == b.device_id)

pub address_same_iff : (a b : ProtocolAddress) → (address_same a b ≡ true) ↔ (a ≡ b)
address_same_iff a b = ground (arith, eq_iff a.name b.name)

instance abbrev pub address_key : Key ProtocolAddress
address_key = record { same = address_same; same_iff = address_same_iff }

-- The errors that the store gives; `other` is any more of the library's.
pub data SignalProtocolError : Type 0 where
  invalid_state : String → String → SignalProtocolError
  untrusted_identity : ProtocolAddress → SignalProtocolError
  other : String → SignalProtocolError

pub data SignalResult (A : Type 0) : Type 0 where
  rejected : SignalProtocolError → SignalResult A
  succeeded : A → SignalResult A

-- A poisoned lock, or an error of the engine with its two texts.
pub data Fault : Type 0 where
  poisoned : Fault
  refused : (debug display : String) → Fault

pub record SqlSignalStore : Type 0 where
  pub identity_pair : Option (Bytes × ℕ)
  pub trusted_identities : Table ProtocolAddress Bytes
  pub sessions : Table ProtocolAddress Bytes
  pub pre_keys : Table ℕ Bytes
  pub signed_pre_keys : Table ℕ Bytes
  pub kyber_pre_keys : Table ℕ Bytes
  pub faults : List (Option Fault)

-- A method: the store afterwards, and what it returns.
abbrev pub Action : Type 0 → Type 0
Action A = SqlSignalStore → SqlSignalStore × SignalResult A

abbrev pub after :
    {A B : Type 0}
    → (A → Action B)
    → SqlSignalStore × SignalResult A
    → SqlSignalStore × SignalResult B
after f (s, succeeded a) = f a s
after f (s, rejected e) = (s, rejected e)

infixl 5 ◌>>=◌
abbrev pub ◌>>=◌ : {A B : Type 0} → Action A → (A → Action B) → Action B
◌>>=◌ m f s = after f (m s)

abbrev pub lift : {A : Type 0} → SignalResult A → Action A
lift r s = (s, r)

abbrev pub with_faults : List (Option Fault) → SqlSignalStore → SqlSignalStore
with_faults fs s = record s { faults = fs }

-- What a statement gives back: `query_row` may find no row.
abbrev pub Statement : Type 0 → Type 0
Statement A = SqlSignalStore → SqlSignalStore × Option A

abbrev pub found : {A : Type 0} → String → Option A → SignalResult A
found method none = rejected (invalid_state method "QueryReturnedNoRows")
found method (some a) = succeeded a

-- `with_conn`: the lock, then the statement; its errors become errors of the protocol.
unfoldable pub with_conn : {A : Type 0} → String → Statement A → Action A
with_conn method run s = elim s.faults [
  | [] ↦ let (s', r) = run s in (s', found method r)
  | f ∷ fs ↦ elim f [
    | none ↦ let (s', r) = run (with_faults fs s) in (s', found method r)
    | some f ↦ elim f [
      | poisoned ↦ (with_faults fs s, rejected (invalid_state method "signal store mutex poisoned"))
      | refused debug display ↦ (with_faults fs s, rejected (invalid_state method debug))
    ]
  ]
]

-- The same for the methods outside the traits, whose errors are `CoreError::Db`.
unfoldable pub with_db :
    {A : Type 0}
    → (SqlSignalStore → SqlSignalStore × A)
    → SqlSignalStore
    → SqlSignalStore × Result A
with_db run s = elim s.faults [
  | [] ↦ let (s', a) = run s in (s', ok a)
  | f ∷ fs ↦ elim f [
    | none ↦ let (s', a) = run (with_faults fs s) in (s', ok a)
    | some f ↦ elim f [
      | poisoned ↦ (with_faults fs s, err (db "poisoned lock: another task failed inside"))
      | refused debug display ↦ (with_faults fs s, err (db display))
    ]
  ]
]
