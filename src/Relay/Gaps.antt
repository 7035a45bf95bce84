-- ===== src/Relay/Gaps.antt =====
-- relay.rs: the replay that the guard does not stop, when handshakes interleave.
use mesui.Prelude.{
  ap, Option-cases, ℕ, ◌<◌, ◌≡◌, refl, sym, ◌∙◌, ◌≢◌, Bool, true, none, some, [], ◌∷◌, Bytes,
  bytes_eq_iff, length, retain, arith, ok, inl, inr,
}
use mesui.Prelude.Map.{
  Map, Distinct, get, insert, get-insert, get-remove, remove, get-retain_found, retain-Distinct,
}
use mesui.Identity.{Ed25519}
use mesui.Relay.{
  free_slots, RelayTicket, Entry, RelayGuard, entry_of, is_live, is_current, find_dead, prune,
  accept, verify, fingerprint,
}
use mesui.Relay.Accept.{IsValid, accept_cases}
use mesui.Relay.Guard.{prune_keeps, prune-current, make_room_current}

retain_foreign :
    (x y : Bytes) (p : Bytes × Entry → Bool) (m : Map Entry)
    → find_dead y m ≡ none
    → y ≢ x
    → retain (is_current x) (retain p m) ≡ []
unfolding find_dead retain
retain_foreign x y p [] h ne = refl
retain_foreign x y p ((k, e) ∷ m) h ne = ground (arith, retain_foreign x y p m)

find_dead-insert :
    (y k : Bytes) (e : Entry) (m : Map Entry)
    → e.challenge ≡ y
    → find_dead y m ≡ none
    → find_dead y (insert k e m) ≡ none
unfolding find_dead insert
find_dead-insert y k e [] c h = ground arith
find_dead-insert y k e ((j, f) ∷ m) c h = ground (arith, find_dead-insert y k e m c)

-- What is left after the first three steps was there before, under the current challenge.
abbrev Survives : Map Entry → Bytes → Bytes → Map Entry → Type 0
Survives m x k n = (e : Entry) → get k n ≡ some e → (get k m ≡ some e) × (e.challenge ≡ x)

prune_found :
    (t : RelayTicket) (now : ℕ) (x : Bytes) (m : Map Entry) (k : Bytes)
    → Distinct m
    → Survives m x k (prune t now x m)
prune_found t now x m k d =
    prune_keeps (Survives m x k) (λ j n s e found. s e (removed j n e found)) t now x m
      λ e found.
        let live = retain (is_live now) m in
        let (inner, current) =
          get-retain_found (is_current x) k live e (retain-Distinct (is_live now) m d) found in
        ((get-retain_found (is_live now) k m e d inner).0, (bytes_eq_iff e.challenge x).0 current)
  where
    removed :
        (j : Bytes) (n : Map Entry) (e : Entry) → get k (remove j n) ≡ some e → get k n ≡ some e
    removed j n e found = ground (arith, get-remove k j n)

-- An entry of another challenge does not survive.
forgotten :
    (m n : Map Entry) (e : Entry) (k y : Bytes)
    → get k m ≡ some e
    → y ≢ e.challenge
    → Survives m y k n
    → get k n ≡ none
forgotten m n e k y known foreign survives = elim (Option-cases (get k n)) [
  | inl gone ↦ gone
  | inr (f, found) ↦
      let (there, current) = survives f found in
      absurd
        (foreign (sym current ∙ ap (λ (z : Entry). z.challenge) (some_inj (sym there ∙ known))))
]
  where
    some_inj : {a b : Entry} → some a ≡ some b → a ≡ b
    some_inj p = cc

prune_foreign :
    (t : RelayTicket) (now : ℕ) (x y : Bytes) (m : Map Entry)
    → find_dead y m ≡ none
    → y ≢ x
    → prune t now x m ≡ []
unfolding prune free_slots
prune_foreign t now x y m dead foreign = rw (retain_foreign x y (is_live now) m dead foreign) refl

module _ (ed : Ed25519) (xof : Bytes → Bytes) where
  -- With nothing left in the way, a ticket that verifies is let through.
  cleared_accepts :
      (g : RelayGuard) (t : RelayTicket) (now : ℕ) (x : Bytes)
      → 0 < g.max_entries
      → verify ed t now x ≡ ok tt
      → get (fingerprint xof t) g.seen ≡ none
      → length (prune t now x g.seen) < g.max_entries
      → (accept ed xof g t now x).1 ≡ true
  unfolding accept
  cleared_accepts g t now x pos good fresh room =
      let m = prune t now x g.seen in
      ground (arith, make_room_current (length m) g.max_entries x m (prune-current t now x g.seen))

  after_other :
      (g : RelayGuard) (t u : RelayTicket) (now : ℕ) (x y : Bytes)
      → IsValid g
      → get (fingerprint xof t) g.seen ≡ some (entry_of t x)
      → y ≢ x
      → fingerprint xof u ≢ fingerprint xof t
      → (accept ed xof g u now y).1 ≡ true
      → (find_dead y (accept ed xof g u now y).0.seen ≡ none)
        × (get (fingerprint xof t) (accept ed xof g u now y).0.seen ≡ none)
        × (0 < (accept ed xof g u now y).0.max_entries)
  after_other g t u now x y v known foreign apart =
      let m = prune u now y g.seen in
      let fp = fingerprint xof t in
      accept_cases ed xof
        (λ r.
          r.1 ≡ true
          → (find_dead y r.0.seen ≡ none) × (get fp r.0.seen ≡ none) × (0 < r.0.max_entries))
        g u now y (λ h. cc) (λ full h. cc)
        λ good fresh room h. (
          find_dead-insert y (fingerprint xof u) (entry_of u y) m refl
              (prune-current u now y g.seen),
          get-insert fp (fingerprint xof u) (entry_of u y) m
              ∙ ground (
                arith,
                forgotten g.seen m (entry_of t x) fp y known foreign
                    (prune_found u now y g.seen fp v.distinct),
              ),
          v.positive,
        )

  -- A ticket on record in a valid guard is accepted a second time, while it still verifies, as soon
  -- as a ticket with another fingerprint was accepted under another challenge.
  pub interleaved_replay :
      (g : RelayGuard) (t u : RelayTicket) (now later : ℕ) (x y : Bytes)
      → IsValid g
      → get (fingerprint xof t) g.seen ≡ some (entry_of t x)
      → y ≢ x
      → fingerprint xof u ≢ fingerprint xof t
      → (accept ed xof g u now y).1 ≡ true
      → verify ed t later x ≡ ok tt
      → (accept ed xof (accept ed xof g u now y).0 t later x).1 ≡ true
  interleaved_replay g t u now later x y v known foreign apart through good =
      let g' = (accept ed xof g u now y).0 in
      let (dead, gone, pos) = after_other g t u now x y v known foreign apart through in
      cleared_accepts g' t later x pos good gone
        (rw (prune_foreign t later x y g'.seen dead foreign) pos)
