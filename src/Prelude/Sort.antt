-- ===== src/Prelude/Sort.antt =====
-- A stable insertion sort by a Boolean order, for `sort_unstable` on integers and for `ORDER BY`.
use Prim.Native.Nat.{suc}
use mathlib.Core.Path.{◌≡◌, refl}
use mathlib.Core.Logic.{inl, inr}
use mathlib.Core.Bool.{Bool, true, false}
use mathlib.Core.List.{List, [], ◌∷◌}
use native.Mathlib.Omega.{arith}
use mesui.Prelude.Tests.{if◌then◌else◌, Bool-cases}
use mesui.Prelude.Lists.{length, All}

module _ {ℓ} {A : Type ℓ} (le : A → A → Bool) where
  unfoldable pub insert_sorted : A → List A → List A
  insert_sorted x [] = x ∷ []
  insert_sorted x (y ∷ ys) = if le x y then x ∷ y ∷ ys else y ∷ insert_sorted x ys

  unfoldable pub sort : List A → List A
  unfolding insert_sorted
  sort [] = []
  sort (x ∷ xs) = insert_sorted x (sort xs)

  module _ {κ} (P : A → Type κ) where
    insert-All : (x : A) (xs : List A) → P x → All P xs → All P (insert_sorted x xs)
    unfolding insert_sorted
    insert-All x [] h a = (h, tt)
    insert-All x (y ∷ ys) h a = elim (Bool-cases (le x y)) [
      | inl here ↦ rw here (h, a)
      | inr further ↦ rw further (a.0, insert-All x ys h a.1)
    ]

    -- Sorting keeps what holds of every element.
    pub sort-All : (xs : List A) → All P xs → All P (sort xs)
    unfolding sort
    sort-All [] a = tt
    sort-All (x ∷ xs) a = insert-All x (sort xs) a.0 (sort-All xs a.1)

  length-insert : (x : A) (xs : List A) → length (insert_sorted x xs) ≡ suc (length xs)
  unfolding insert_sorted
  length-insert x [] = refl
  length-insert x (y ∷ ys) = ground (arith, length-insert x ys)

  pub length-sort : (xs : List A) → length (sort xs) ≡ length xs
  unfolding sort
  length-sort [] = refl
  length-sort (x ∷ xs) = omega (arith, length-insert x (sort xs), length-sort xs)

  -- Neighbours are in order.
  abbrev pub Sorted : List A → Type 0
  Sorted [] = Unit
  Sorted (x ∷ []) = Unit
  Sorted (x ∷ y ∷ ys) = (le x y ≡ true) × Sorted (y ∷ ys)

  module _ (total : (x y : A) → le x y ≡ false → le y x ≡ true) where
    insert-Sorted : (x : A) (xs : List A) → Sorted xs → Sorted (insert_sorted x xs)
    unfolding insert_sorted
    insert-Sorted x [] s = tt
    insert-Sorted x (y ∷ []) s = elim (Bool-cases (le x y)) [
      | inl here ↦ rw here (here, tt)
      | inr further ↦ rw further (total x y further, tt)
    ]
    insert-Sorted x (y ∷ z ∷ zs) s = elim (Bool-cases (le x y)) [
      | inl here ↦ rw here (here, s)
      | inr further ↦ rw further (behind (le x z) refl further (insert-Sorted x (z ∷ zs) s.1))
    ]
      where
        behind :
            (b : Bool)
            → le x z ≡ b
            → le x y ≡ false
            → Sorted (insert_sorted x (z ∷ zs))
            → Sorted (y ∷ insert_sorted x (z ∷ zs))
        behind true e f ih = rw e (total x y f, (e, s.1))
        behind false e f ih = rw e (s.0, rw e at ih)

    -- Under a total order the result is in order.
    pub sort-Sorted : (xs : List A) → Sorted (sort xs)
    unfolding sort
    sort-Sorted [] = tt
    sort-Sorted (x ∷ xs) = insert-Sorted x (sort xs) (sort-Sorted xs)
