-- ===== src/Relay/Accept.antt =====
-- relay.rs, `RelayGuard::accept`: its ways out, and the invariant of the cache.
use mesui.Prelude.{
  ℕ, ◌≤◌, ◌<◌, ◌≡◌, Bool, true, false, none, Bytes, length, arith, ltb, Bool-cases, inl, inr,
  Result, ok, is_err, le_trans,
}
use mesui.Prelude.Map.{Map, Distinct, get, contains_key, insert, insert-Distinct, length-insert-le}
use mesui.Identity.{Ed25519}
use mesui.Relay.{
  RelayTicket, Entry, RelayGuard, entry_of, new_guard, origin_count, prune, accept,
  max_slots_per_origin, verify, fingerprint,
}
use mesui.Relay.Guard.{
  count-insert-le, prune-current, prune-slots, length-prune-le, count-prune-le, prune-Distinct,
  make_room_current,
}

pub record IsValid (g : RelayGuard) : Type 0 where
  pub positive : 0 < g.max_entries
  pub bounded : length g.seen ≤ g.max_entries
  pub distinct : Distinct g.seen
  pub slots : (origin : Bytes) → origin_count origin g.seen ≤ max_slots_per_origin

pub new_guard-IsValid : (n : ℕ) → IsValid (new_guard n)
unfolding new_guard origin_count
new_guard-IsValid n = record {
  positive = omega arith;
  bounded = omega arith;
  distinct = tt;
  slots = λ o. omega arith;
}

absent : (k : Bytes) (m : Map Entry) → contains_key k m ≡ false → get k m ≡ none
absent k m h = ground arith

was_ok : (r : Result (Unit {0})) → is_err r ≡ false → r ≡ ok tt
was_ok r h = ground arith

module _ (ed : Ed25519) (xof : Bytes → Bytes) where
  -- The ways through `accept`: the ticket fails or is known and nothing changes; there is no room;
  -- the ticket is stored.
  pub accept_cases :
      (P : RelayGuard × Bool → Type 0) (g : RelayGuard) (t : RelayTicket) (now : ℕ) (x : Bytes)
      → P (g, false)
      → (g.max_entries ≤ length (prune t now x g.seen)
          → P (record g { seen = prune t now x g.seen }, false))
      → (verify ed t now x ≡ ok tt
          → get (fingerprint xof t) g.seen ≡ none
          → length (prune t now x g.seen) < g.max_entries
          → P (
            record g { seen = insert (fingerprint xof t) (entry_of t x) (prune t now x g.seen) },
            true,
          ))
      → P (accept ed xof g t now x)
  unfolding accept
  accept_cases P g t now x refused full stored =
      let fp = fingerprint xof t in
      let m = prune t now x g.seen in
      let room = make_room_current (length m) g.max_entries x m (prune-current t now x g.seen) in
      elim (Bool-cases (is_err (verify ed t now x))) [
        | inl bad ↦ rw (bad, accept) refused
        | inr good ↦ elim (Bool-cases (contains_key fp g.seen)) [
          | inl known ↦ rw (good, known, accept) refused
          | inr fresh ↦ elim (Bool-cases (ltb (length m) g.max_entries)) [
            | inl space ↦
                rw (good, fresh, room, space, accept)
                  (stored (was_ok _ good) (absent fp g.seen fresh) (ground arith))
            | inr none_left ↦ rw (good, fresh, room, none_left, accept) (full (ground arith))
          ]
        ]
      ]

  -- `accept` keeps a valid guard within its capacity, with no ticket on record twice and no origin
  -- in more than four slots, whatever the ticket, the time and the challenge.
  pub accept-IsValid :
      (g : RelayGuard) (t : RelayTicket) (now : ℕ) (x : Bytes)
      → IsValid g
      → IsValid (accept ed xof g t now x).0
  accept-IsValid g t now x v =
      let m = prune t now x g.seen in
      let fp = fingerprint xof t in
      let d = prune-Distinct t now x g.seen v.distinct in
      let few = λ (o : Bytes). le_trans (count-prune-le o t now x g.seen) (v.slots o) in
      accept_cases (λ r. IsValid r.0) g t now x v
        (λ full. record {
          positive = v.positive;
          bounded = le_trans (length-prune-le t now x g.seen) v.bounded;
          distinct = d;
          slots = few;
        })
        (λ good fresh room. record {
          positive = v.positive;
          bounded = omega (arith, length-insert-le fp (entry_of t x) m);
          distinct = insert-Distinct fp (entry_of t x) m d;
          slots = λ o. insert_slots fp t x m o (few o) (prune-slots t now x g.seen);
        })
    where
      insert_slots :
          (fp : Bytes) (t : RelayTicket) (x : Bytes) (m : Map Entry) (o : Bytes)
          → origin_count o m ≤ max_slots_per_origin
          → origin_count t.origin_node_key m < max_slots_per_origin
          → origin_count o (insert fp (entry_of t x) m) ≤ max_slots_per_origin
      insert_slots fp t x m o few own = ground (arith, count-insert-le o fp (entry_of t x) m)
