-- ===== src/Prelude/Map.antt =====
-- `HashMap` with byte-string keys, as an association list. An insertion overwrites in place or adds
-- at the end; the iteration order, which Rust leaves open, is the list's.
use Prim.Native.Nat.{◌+◌, ◌≤◌}
use mathlib.Core.Path.{◌≡◌, refl}
use mathlib.Core.Bool.{Bool, true, false}
use mathlib.Core.List.{List, [], ◌∷◌}
use mathlib.Core.Option.{Option, none, some}
use native.Mathlib.Omega.{arith}
use mesui.Prelude.Tests.{Bytes, bytes_eq, if◌then◌else◌}
use mesui.Prelude.Lists.{length, retain, All}

abbrev pub Map {ℓ} : Type ℓ → Type ℓ
Map V = List (Bytes × V)

module _ {ℓ} {V : Type ℓ} where
  unfoldable pub get : Bytes → Map V → Option V
  get k [] = none
  get k ((j, v) ∷ m) = if bytes_eq j k then some v else get k m

  abbrev pub contains_key : Bytes → Map V → Bool
  contains_key k m = elim (get k m) [ none ↦ false | some _ ↦ true ]

  unfoldable pub insert : Bytes → V → Map V → Map V
  insert k v [] = (k, v) ∷ []
  insert k v ((j, w) ∷ m) = if bytes_eq j k then (k, v) ∷ m else (j, w) ∷ insert k v m

  unfoldable pub remove : Bytes → Map V → Map V
  remove k [] = []
  remove k ((j, w) ∷ m) = if bytes_eq j k then remove k m else (j, w) ∷ remove k m

  -- No key stands twice.
  abbrev pub Distinct : Map V → Type ℓ
  Distinct [] = Unit
  Distinct ((k, v) ∷ m) = (get k m ≡ none) × Distinct m

module _ {ℓ} {V : Type ℓ} where
  pub get-insert :
      (j k : Bytes) (v : V) (m : Map V)
      → get j (insert k v m) ≡ (if bytes_eq k j then some v else get j m)
  unfolding get insert
  get-insert j k v [] = refl
  get-insert j k v ((i, w) ∷ m) = ground (arith, get-insert j k v m)

  pub get-remove :
      (j k : Bytes) (m : Map V) → get j (remove k m) ≡ (if bytes_eq k j then none else get j m)
  unfolding get remove
  get-remove j k [] = ground arith
  get-remove j k ((i, w) ∷ m) = ground (arith, get-remove j k m)

  pub insert-Distinct : (k : Bytes) (v : V) (m : Map V) → Distinct m → Distinct (insert k v m)
  unfolding get insert
  insert-Distinct k v [] d = (refl, tt)
  insert-Distinct k v ((i, w) ∷ m) d = ground (arith, insert-Distinct k v m d.1, get-insert i k v m)

  pub remove-Distinct : (k : Bytes) (m : Map V) → Distinct m → Distinct (remove k m)
  unfolding get remove
  remove-Distinct k [] d = tt
  remove-Distinct k ((i, w) ∷ m) d = ground (arith, remove-Distinct k m d.1, get-remove i k m)

  pub length-insert-le : (k : Bytes) (v : V) (m : Map V) → length (insert k v m) ≤ length m + 1
  unfolding insert
  length-insert-le k v [] = omega arith
  length-insert-le k v ((i, w) ∷ m) = ground (arith, length-insert-le k v m)

  pub length-remove-le : (k : Bytes) (m : Map V) → length (remove k m) ≤ length m
  unfolding remove
  length-remove-le k [] = omega arith
  length-remove-le k ((i, w) ∷ m) = ground (arith, length-remove-le k m)

  module _ (p : Bytes × V → Bool) where
    pub get-retain_absent : (k : Bytes) (m : Map V) → get k m ≡ none → get k (retain p m) ≡ none
    unfolding get retain
    get-retain_absent k [] h = refl
    get-retain_absent k ((i, w) ∷ m) h = ground (arith, get-retain_absent k m)

    -- An entry that passes the test is still found.
    pub get-retain_kept :
        (k : Bytes) (m : Map V) (v : V)
        → get k m ≡ some v
        → p (k, v) ≡ true
        → get k (retain p m) ≡ some v
    unfolding get retain
    get-retain_kept k [] v h t = cc
    get-retain_kept k ((i, w) ∷ m) v h t = ground (arith, get-retain_kept k m v)

    -- What is found afterwards was there, and passes.
    pub get-retain_found :
        (k : Bytes) (m : Map V) (v : V)
        → Distinct m
        → get k (retain p m) ≡ some v
        → (get k m ≡ some v) × (p (k, v) ≡ true)
    unfolding get retain
    get-retain_found k [] v d h = cc
    get-retain_found k ((i, w) ∷ m) v d h =
        ground (arith, get-retain_found k m v d.1, get-retain_absent k m)

    pub retain-Distinct : (m : Map V) → Distinct m → Distinct (retain p m)
    unfolding retain
    retain-Distinct [] d = tt
    retain-Distinct ((i, w) ∷ m) d = ground (arith, retain-Distinct m d.1, get-retain_absent i m)

module _ {ℓ κ} {V : Type ℓ} (P : Bytes × V → Type κ) where
  pub All-insert : (k : Bytes) (v : V) (m : Map V) → P (k, v) → All P m → All P (insert k v m)
  unfolding insert
  All-insert k v [] p a = (p, tt)
  All-insert k v ((i, w) ∷ m) p a = ground (arith, All-insert k v m p a.1)

  pub All-remove : (k : Bytes) (m : Map V) → All P m → All P (remove k m)
  unfolding remove
  All-remove k [] a = tt
  All-remove k ((i, w) ∷ m) a = ground (arith, All-remove k m a.1)
