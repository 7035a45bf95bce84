-- ===== src/Handshake/Reopen.antt =====
-- handshake.rs, `bootstrap`: the identity that the first start drew is kept by every later one.
use Prim.Native.String.{String}
use mesui.Prelude.{
  ◌≡◌, Option, none, some, List, [], ◌∷◌, Bytes, ℕ, Outcome, ok, arith, ◌≢◌, Option-cases, inl, inr,
}
use mesui.Signal.Engine.{ProtocolAddress, SqlSignalStore, Fault, with_faults, with_db}
use mesui.Signal.Identities.{local_identity, save_local_identity}
use mesui.Handshake.Library.{Moment, Libsignal}
use mesui.Handshake.Device.{bootstrap}

-- A store with an identity.
abbrev pub HasIdentity : Bytes → ℕ → SqlSignalStore → Type 0
HasIdentity pair reg s = s.identity_pair ≡ some (pair, reg)

module _ {R M : Type 0} (lib : Libsignal R M) where
  -- Starting a device on a store with an identity changes nothing of it, whatever is drawn.
  bootstrap-HasIdentity :
      (name : String) (moment : Moment) (filled : Outcome Bytes) (pair : Bytes) (reg : ℕ)
      (s : SqlSignalStore)
      → HasIdentity pair reg s
      → HasIdentity pair reg (bootstrap lib name moment filled s).0
  unfolding bootstrap local_identity with_db
  bootstrap-HasIdentity name moment filled pair reg s h = ground (arith, h)

  bootstrap-ne-none :
      (name : String) (moment : Moment) (filled : Outcome Bytes) (s : SqlSignalStore)
      (address : ProtocolAddress)
      → (bootstrap lib name moment filled s).1 ≡ ok address
      → (bootstrap lib name moment filled s).0.identity_pair ≢ none
  unfolding bootstrap local_identity save_local_identity with_db
  bootstrap-ne-none name moment filled s address h e = ground arith

  -- Later starts, each with its name, its draws, and what the engine will refuse.
  pub restarts :
      List (String × Moment × Outcome Bytes × List (Option Fault)) → SqlSignalStore → SqlSignalStore
  restarts [] s = s
  restarts ((name, moment, filled, faults) ∷ rest) s =
      restarts rest (bootstrap lib name moment filled (with_faults faults s)).0

  restarts-HasIdentity :
      (starts : List (String × Moment × Outcome Bytes × List (Option Fault))) (pair : Bytes)
      (reg : ℕ) (s : SqlSignalStore)
      → HasIdentity pair reg s
      → HasIdentity pair reg (restarts starts s)
  unfolding restarts
  restarts-HasIdentity [] pair reg s h = h
  restarts-HasIdentity ((name, moment, filled, faults) ∷ rest) pair reg s h =
      restarts-HasIdentity rest pair reg (bootstrap lib name moment filled (with_faults faults s)).0
        (bootstrap-HasIdentity name moment filled pair reg (with_faults faults s) h)

  -- After a first start that was successful there is an identity, and any number of later starts,
  -- whatever they draw and whatever the engine refuses, leave it as it is.
  pub identity_stays :
      (name : String) (moment : Moment) (filled : Outcome Bytes) (s : SqlSignalStore)
      (address : ProtocolAddress)
      → (bootstrap lib name moment filled s).1 ≡ ok address
      → (starts : List (String × Moment × Outcome Bytes × List (Option Fault)))
      → (i : Bytes × ℕ) × ((bootstrap lib name moment filled s).0.identity_pair ≡ some i)
        × ((restarts starts (bootstrap lib name moment filled s).0).identity_pair ≡ some i)
  identity_stays name moment filled s address h starts =
      elim (Option-cases (bootstrap lib name moment filled s).0.identity_pair) [
        | inl n ↦ absurd (bootstrap-ne-none name moment filled s address h n)
        | inr (i, e) ↦
            (i, e, restarts-HasIdentity starts i.0 i.1 (bootstrap lib name moment filled s).0 e)
      ]
