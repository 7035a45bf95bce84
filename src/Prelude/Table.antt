-- ===== src/Prelude/Table.antt =====
-- A table of SQL with a primary key, as a list of rows: a lookup by the key, INSERT OR REPLACE, DELETE,
-- and MAX over a key that is a number.
use Prim.Native.Nat.{ℕ, ◌<◌, max}
use mathlib.Core.Path.{◌≡◌, refl}
use mathlib.Core.Logic.{◌↔◌}
use mathlib.Core.Bool.{Bool, true}
use mathlib.Core.List.{List, [], ◌∷◌}
use mathlib.Core.Option.{Option, none, some}
use native.Mathlib.Omega.{arith}
use mesui.Prelude.Tests.{◌==◌, if◌then◌else◌}

pub record Key {ℓ} (K : Type ℓ) : Type ℓ where
  pub same : K → K → Bool
  pub same_iff : (j k : K) → (same j k ≡ true) ↔ (j ≡ k)

pub nat_same_iff : (j k : ℕ) → ((j == k) ≡ true) ↔ (j ≡ k)
nat_same_iff j k = ground arith

instance abbrev pub nat_key : Key ℕ
nat_key = record { same = ◌==◌; same_iff = nat_same_iff }

abbrev pub Table {ℓ} : Type ℓ → Type ℓ → Type ℓ
Table K V = List (K × V)

module _ {ℓ} {K V : Type ℓ} ⦃key : Key K⦄ where
  unfoldable pub find : K → Table K V → Option V
  find k [] = none
  find k ((j, v) ∷ rows) = if key.same j k then some v else find k rows

  unfoldable pub replace : K → V → Table K V → Table K V
  replace k v [] = (k, v) ∷ []
  replace k v ((j, w) ∷ rows) = if key.same j k then (k, v) ∷ rows else (j, w) ∷ replace k v rows

  unfoldable pub erase : K → Table K V → Table K V
  erase k [] = []
  erase k ((j, w) ∷ rows) = if key.same j k then erase k rows else (j, w) ∷ erase k rows

  pub find-replace :
      (j k : K) (v : V) (rows : Table K V)
      → find j (replace k v rows) ≡ (if key.same k j then some v else find j rows)
  unfolding find replace
  find-replace j k v [] = refl
  find-replace j k v ((i, w) ∷ rows) =
      ground (arith, key.same_iff i k, key.same_iff i j, key.same_iff k j, find-replace j k v rows)

  pub find-erase :
      (j k : K) (rows : Table K V)
      → find j (erase k rows) ≡ (if key.same k j then none else find j rows)
  unfolding find erase
  find-erase j k [] = ground arith
  find-erase j k ((i, w) ∷ rows) =
      ground (arith, key.same_iff i k, key.same_iff i j, key.same_iff k j, find-erase j k rows)

module _ {V : Type 0} where
  -- COALESCE(MAX(id), 0)
  unfoldable pub max_id : Table ℕ V → ℕ
  max_id [] = 0
  max_id ((j, v) ∷ rows) = max j (max_id rows)

  pub find-above : (k : ℕ) (rows : Table ℕ V) → max_id rows < k → find k rows ≡ none
  unfolding find max_id
  find-above k [] h = refl
  find-above k ((j, v) ∷ rows) h = ground (arith, find-above k rows)
