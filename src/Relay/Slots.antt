-- ===== src/Relay/Slots.antt =====
-- relay.rs, `RelayGuard::accept`: the third step spares the entries of other origins.
use mesui.Prelude.{
  ℕ, zero, suc, ◌<◌, ◌≡◌, ◌∙◌, subst, ◌≢◌, ◌⊎◌, inl, inr, Option, none, some, [], ◌∷◌, Bytes,
  bytes_eq, bytes_eq_refl, bytes_eq_iff, retain, arith, leb, wrapping_add, Bool-cases, Option-cases,
}
use mesui.Prelude.Map.{
  Map, Distinct, get, remove, get-remove, remove-Distinct, retain-Distinct, get-retain_kept,
}
use mesui.Relay.{
  RelayTicket, Entry, origin_count, earliest, free_slots, is_live, is_current, prune,
  max_slots_per_origin, skew,
}

get_further :
    (j k : Bytes) (e f : Entry) (m : Map Entry)
    → get j m ≡ none
    → get k m ≡ some f
    → get k ((j, e) ∷ m) ≡ some f
unfolding get
get_further j k e f m absent found = elim (Bool-cases (bytes_eq j k)) [
  | inl same ↦ absurd (clash (subst (λ z. get z m ≡ none) ((bytes_eq_iff j k).0 same) absent) found)
  | inr other ↦ rw other found
]
  where
    clash : {o : Option Entry} → o ≡ none → o ≡ some f → ⊥
    clash p q = cc

get_here : (j : Bytes) (e : Entry) (m : Map Entry) → get j ((j, e) ∷ m) ≡ some e
unfolding get
get_here j e m = rw (bytes_eq_refl j)

abbrev pub OwnEntry : Bytes → Map Entry → Bytes → Type 0
OwnEntry o m k = (e : Entry) × (get k m ≡ some e) × (e.origin ≡ o)

-- The head is chosen, or the choice of the rest is.
earliest_choice :
    (o j k : Bytes) (e : Entry) (m : Map Entry) (x : ℕ)
    → earliest o ((j, e) ∷ m) ≡ some (k, x)
    → ((j ≡ k) × (e.origin ≡ o)) ⊎ ((y : ℕ) × (earliest o m ≡ some (k, y)))
unfolding earliest
earliest_choice o j k e m x h = elim (Bool-cases (bytes_eq e.origin o)) [
  | inl mine ↦ elim (Option-cases (earliest o m)) [
    | inl nobody ↦ inl (ground arith, ground arith)
    | inr ((k', y), found) ↦ elim (Bool-cases (leb e.expiry y)) [
      | inl first ↦ inl (ground arith, ground arith)
      | inr later ↦ inr (y, ground arith)
    ]
  ]
  | inr other ↦ inr (x, ground arith)
]

pub earliest-get :
    (o : Bytes) (m : Map Entry) (k : Bytes) (x : ℕ)
    → Distinct m
    → earliest o m ≡ some (k, x)
    → OwnEntry o m k
unfolding earliest
earliest-get o [] k x d h = cc
earliest-get o ((j, e) ∷ m) k x d h =
    choose (earliest_choice o j k e m x h)
      (λ (y : ℕ) (found : earliest o m ≡ some (k, y)). earliest-get o m k y d.1 found)
  where
    choose :
        ((j ≡ k) × (e.origin ≡ o)) ⊎ ((y : ℕ) × (earliest o m ≡ some (k, y)))
        → ((y : ℕ) → earliest o m ≡ some (k, y) → OwnEntry o m k)
        → OwnEntry o ((j, e) ∷ m) k
    choose (inl (same, own)) ih =
        (e, subst (λ z. get z ((j, e) ∷ m) ≡ some e) same (get_here j e m), own)
    choose (inr (y, found)) ih =
        let (f, at, own) = ih y found in (f, get_further j k e f m d.0 at, own)

-- The third step removes only entries of the ticket's own origin.
pub free_slots-get :
    (fuel : ℕ) (o : Bytes) (m : Map Entry) (k : Bytes) (e : Entry)
    → Distinct m
    → get k m ≡ some e
    → e.origin ≢ o
    → get k (free_slots fuel o m) ≡ some e
unfolding free_slots
free_slots-get zero o m k e d h other = h
free_slots-get (suc fuel) o m k e d h other =
    elim (Bool-cases (leb max_slots_per_origin (origin_count o m))) [
      | inr few ↦ rw (few, free_slots) h
      | inl many ↦ elim (Option-cases (earliest o m)) [
        | inl nobody ↦ rw (many, nobody, free_slots) h
        | inr ((j, x), found) ↦
            let (f, at, own) = earliest-get o m j x d found in
            let kept : get k (remove j m) ≡ some e = get-remove k j m ∙ ground (arith) in
            rw (many, found, free_slots)
              (free_slots-get fuel o (remove j m) k e (remove-Distinct j m d) kept other)
      ]
    ]

pub prune-get :
    (t : RelayTicket) (now : ℕ) (x : Bytes) (m : Map Entry) (k : Bytes) (e : Entry)
    → Distinct m
    → get k m ≡ some e
    → e.challenge ≡ x
    → e.origin ≢ t.origin_node_key
    → now < wrapping_add e.expiry skew
    → get k (prune t now x m) ≡ some e
unfolding prune
prune-get t now x m k e d h current other live =
    free_slots-get _ t.origin_node_key _ k e
      (retain-Distinct (is_current x) (retain (is_live now) m) (retain-Distinct (is_live now) m d))
      (get-retain_kept (is_current x) k (retain (is_live now) m) e
        (get-retain_kept (is_live now) k m e h (ground arith))
        ((bytes_eq_iff e.challenge x).1 current))
      other
