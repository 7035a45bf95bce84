-- ===== src/Relay/Guard.antt =====
-- relay.rs, `RelayGuard`: the loops of `accept` end with what they are for, and the cache keeps its
-- bounds.
use mesui.Prelude.{
  ℕ, zero, suc, ◌≤◌, ◌<◌, ◌≡◌, refl, Bool, true, none, some, [], ◌∷◌, Bytes, bytes_eq, length,
  retain, length-retain-le, arith, ltb, leb, if◌then◌else◌, Bool-cases, Option-cases, inl, inr,
  le_trans,
}
use mesui.Prelude.Map.{
  Map, Distinct, insert, remove, remove-Distinct, retain-Distinct, length-remove-le,
}
use mesui.Relay.{
  RelayTicket, Entry, origin_count, earliest, free_slots, find_dead, make_room, is_live, is_current,
  prune, max_slots_per_origin,
}

pub count-remove-le : (o k : Bytes) (m : Map Entry) → origin_count o (remove k m) ≤ origin_count o m
unfolding origin_count remove
count-remove-le o k [] = omega arith
count-remove-le o k ((j, e) ∷ m) = ground (arith, count-remove-le o k m)

pub count-retain-le :
    (o : Bytes) (p : Bytes × Entry → Bool) (m : Map Entry)
    → origin_count o (retain p m) ≤ origin_count o m
unfolding origin_count retain
count-retain-le o p [] = omega arith
count-retain-le o p ((j, e) ∷ m) = ground (arith, count-retain-le o p m)

pub count-insert-le :
    (o k : Bytes) (e : Entry) (m : Map Entry)
    → origin_count o (insert k e m)
      ≤ (if bytes_eq e.origin o then suc (origin_count o m) else origin_count o m)
unfolding origin_count insert
count-insert-le o k e [] = ground arith
count-insert-le o k e ((j, f) ∷ m) = ground (arith, count-insert-le o k e m)

pub count-le-length : (o : Bytes) (m : Map Entry) → origin_count o m ≤ length m
unfolding origin_count
count-le-length o [] = omega arith
count-le-length o ((j, e) ∷ m) = ground (arith, count-le-length o m)

pub earliest-none : (o : Bytes) (m : Map Entry) → earliest o m ≡ none → origin_count o m ≡ 0
unfolding origin_count earliest
earliest-none o [] h = refl
earliest-none o ((j, e) ∷ m) h = ground (arith, earliest-none o m)

-- The entry that a round removes is one of the origin's, so its count falls.
pub count-remove-earliest :
    (o : Bytes) (m : Map Entry) (k : Bytes) (x : ℕ)
    → earliest o m ≡ some (k, x)
    → origin_count o (remove k m) < origin_count o m
unfolding origin_count earliest remove
count-remove-earliest o [] k x h = cc
count-remove-earliest o ((j, e) ∷ m) k x h =
    ground (arith, count-remove-earliest o m k x, count-remove-le o k m)

-- What every removal keeps, the loops keep.
free_slots_keeps :
    (P : Map Entry → Type 0)
    → ((k : Bytes) (m : Map Entry) → P m → P (remove k m))
    → (fuel : ℕ) (o : Bytes) (m : Map Entry) → P m
    → P (free_slots fuel o m)
unfolding free_slots
free_slots_keeps P keep zero o m h = h
free_slots_keeps P keep (suc fuel) o m h =
    elim (Bool-cases (leb max_slots_per_origin (origin_count o m))) [
      | inr few ↦ rw (few, free_slots) h
      | inl many ↦ elim (Option-cases (earliest o m)) [
        | inl nobody ↦ rw (many, nobody, free_slots) h
        | inr ((k, x), e) ↦
            rw (many, e, free_slots) (free_slots_keeps P keep fuel o (remove k m) (keep k m h))
      ]
    ]

-- With as much fuel as the origin has entries, the third step ends by its own test: the origin then has
-- fewer than four slots, whatever the entries.
pub free_slots-lt :
    (fuel : ℕ) (o : Bytes) (m : Map Entry)
    → origin_count o m ≤ fuel
    → origin_count o (free_slots fuel o m) < max_slots_per_origin
unfolding free_slots
free_slots-lt zero o m h = omega arith
free_slots-lt (suc fuel) o m h = elim (Bool-cases (leb max_slots_per_origin (origin_count o m))) [
  | inr few ↦ rw (few, free_slots) (ground arith)
  | inl many ↦ elim (Option-cases (earliest o m)) [
    | inl nobody ↦ absurd (no_many _ many (earliest-none o m nobody))
    | inr ((k, x), e) ↦
        rw (many, e, free_slots)
          (free_slots-lt fuel o (remove k m) (omega (arith, count-remove-earliest o m k x e)))
  ]
]
  where
    no_many : (n : ℕ) → leb 4 n ≡ true → n ≡ 0 → ⊥
    no_many n many e = ground arith

pub find_dead-retain : (x : Bytes) (m : Map Entry) → find_dead x (retain (is_current x) m) ≡ none
unfolding find_dead retain
find_dead-retain x [] = refl
find_dead-retain x ((k, e) ∷ m) = ground (arith, find_dead-retain x m)

find_dead-remove :
    (x k : Bytes) (m : Map Entry) → find_dead x m ≡ none → find_dead x (remove k m) ≡ none
unfolding find_dead remove
find_dead-remove x k [] h = refl
find_dead-remove x k ((j, e) ∷ m) h = ground (arith, find_dead-remove x k m)

-- Among entries of the current challenge the fourth step removes nothing: it only tells whether
-- there is room.
pub make_room_current :
    (fuel n : ℕ) (x : Bytes) (m : Map Entry)
    → find_dead x m ≡ none
    → make_room (suc fuel) n x m ≡ (m, ltb (length m) n)
unfolding make_room
make_room_current fuel n x m h = ground arith

-- The first three steps keep what removals keep.
pub prune_keeps :
    (P : Map Entry → Type 0)
    → ((k : Bytes) (m : Map Entry) → P m → P (remove k m))
    → (t : RelayTicket) (now : ℕ) (x : Bytes) (m : Map Entry)
    → P (retain (is_current x) (retain (is_live now) m))
    → P (prune t now x m)
unfolding prune
prune_keeps P keep t now x m h = free_slots_keeps P keep _ t.origin_node_key _ h

pub prune-current :
    (t : RelayTicket) (now : ℕ) (x : Bytes) (m : Map Entry) → find_dead x (prune t now x m) ≡ none
prune-current t now x m =
    prune_keeps (λ n. find_dead x n ≡ none) (find_dead-remove x) t now x m
      (find_dead-retain x (retain (is_live now) m))

pub prune-slots :
    (t : RelayTicket) (now : ℕ) (x : Bytes) (m : Map Entry)
    → origin_count t.origin_node_key (prune t now x m) < max_slots_per_origin
unfolding prune
prune-slots t now x m =
    free_slots-lt _ t.origin_node_key _
      (count-le-length t.origin_node_key (retain (is_current x) (retain (is_live now) m)))

pub length-prune-le :
    (t : RelayTicket) (now : ℕ) (x : Bytes) (m : Map Entry) → length (prune t now x m) ≤ length m
length-prune-le t now x m =
    prune_keeps (λ n. length n ≤ length m) (λ k n h. le_trans (length-remove-le k n) h) t now x m
      (le_trans (length-retain-le (is_current x) (retain (is_live now) m))
        (length-retain-le (is_live now) m))

pub count-prune-le :
    (o : Bytes) (t : RelayTicket) (now : ℕ) (x : Bytes) (m : Map Entry)
    → origin_count o (prune t now x m) ≤ origin_count o m
count-prune-le o t now x m =
    prune_keeps (λ n. origin_count o n ≤ origin_count o m)
      (λ k n h. le_trans (count-remove-le o k n) h) t now x m
      (le_trans (count-retain-le o (is_current x) (retain (is_live now) m))
        (count-retain-le o (is_live now) m))

pub prune-Distinct :
    (t : RelayTicket) (now : ℕ) (x : Bytes) (m : Map Entry)
    → Distinct m
    → Distinct (prune t now x m)
prune-Distinct t now x m d =
    prune_keeps Distinct (λ k n h. remove-Distinct k n h) t now x m
      (retain-Distinct (is_current x) (retain (is_live now) m) (retain-Distinct (is_live now) m d))
