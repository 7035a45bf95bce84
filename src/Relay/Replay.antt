-- ===== src/Relay/Replay.antt =====
-- relay.rs: the replays that the guard stops.
use mesui.Prelude.{
  dec_lt, ℕ, ◌+◌, ◌≤◌, ◌<◌, ◌≡◌, refl, ◌∙◌, ◌≢◌, true, false, none, some, List, [], ◌∷◌, Bytes,
  bytes_eq_refl, arith, wrapping_add, i64_max, ok,
}
use mesui.Prelude.Map.{get, get-insert}
use mesui.Identity.{Ed25519}
use mesui.Relay.{RelayTicket, Entry, RelayGuard, entry_of, prune, accept, verify, fingerprint, skew}
use mesui.Relay.Ticket.{ticket_verify_iff}
use mesui.Relay.Accept.{IsValid, accept_cases, accept-IsValid}
use mesui.Relay.Slots.{prune-get}

module _ (ed : Ed25519) (xof : Bytes → Bytes) where
  -- A ticket that was let through was verified, was new, and is on record.
  pub accept-true :
      (g : RelayGuard) (t : RelayTicket) (now : ℕ) (x : Bytes)
      → (accept ed xof g t now x).1 ≡ true
      → (verify ed t now x ≡ ok tt)
        × (get (fingerprint xof t) g.seen ≡ none)
        × (get (fingerprint xof t) (accept ed xof g t now x).0.seen ≡ some (entry_of t x))
  accept-true g t now x =
      let fp = fingerprint xof t in
      accept_cases ed xof
        (λ r.
          r.1 ≡ true
          → (verify ed t now x ≡ ok tt)
            × (get fp g.seen ≡ none)
            × (get fp r.0.seen ≡ some (entry_of t x)))
        g t now x (λ h. cc) (λ full h. cc)
        λ good fresh room h. (
          good,
          fresh,
          get-insert fp fp (entry_of t x) (prune t now x g.seen) ∙ rw (bytes_eq_refl fp),
        )

  -- A ticket on record is refused, at any time and under any challenge.
  known_refused :
      (g : RelayGuard) (t : RelayTicket) (now : ℕ) (x : Bytes) (e : Entry)
      → get (fingerprint xof t) g.seen ≡ some e
      → (accept ed xof g t now x).1 ≡ false
  known_refused g t now x e known =
      accept_cases ed xof (λ r. r.1 ≡ false) g t now x refl (λ full. refl) λ good fresh room. cc

  accept-get :
      (g : RelayGuard) (t : RelayTicket) (now : ℕ) (x k : Bytes) (e : Entry)
      → IsValid g
      → get k g.seen ≡ some e
      → e.challenge ≡ x
      → e.origin ≢ t.origin_node_key
      → now < wrapping_add e.expiry skew
      → get k (accept ed xof g t now x).0.seen ≡ some e
  accept-get g t now x k e v known current other live =
      let kept = prune-get t now x g.seen k e v.distinct known current other live in
      accept_cases ed xof (λ r. get k r.0.seen ≡ some e) g t now x known (λ full. kept)
        λ good fresh room.
          get-insert k (fingerprint xof t) (entry_of t x) (prune t now x g.seen) ∙ ground arith

  -- Tickets that arrive in one handshake, each with its time.
  pub run : Bytes → RelayGuard → List (RelayTicket × ℕ) → RelayGuard
  run x g [] = g
  run x g ((t, now) ∷ calls) = run x (accept ed xof g t now x).0 calls

  -- Tickets of origins other than `o`, at times that do not fall from `now` to `later`.
  abbrev pub Others : Bytes → ℕ → List (RelayTicket × ℕ) → ℕ → Type 0
  Others o now [] later = now ≤ later
  Others o now ((t, at) ∷ calls) later =
      (o ≢ t.origin_node_key) × (now ≤ at) × Others o at calls later

  Others-le :
      (o : Bytes) (calls : List (RelayTicket × ℕ)) (now later : ℕ)
      → Others o now calls later
      → now ≤ later
  Others-le o [] now later h = h
  Others-le o ((t, at) ∷ calls) now later h = omega (arith, Others-le o calls at later h.2)

  run-get :
      (calls : List (RelayTicket × ℕ)) (x : Bytes) (g : RelayGuard) (k : Bytes) (e : Entry)
      (now later : ℕ)
      → IsValid g
      → get k g.seen ≡ some e
      → e.challenge ≡ x
      → Others e.origin now calls later
      → later < wrapping_add e.expiry skew
      → get k (run x g calls).seen ≡ some e
  unfolding run
  run-get [] x g k e now later v known current others live = known
  run-get ((t, at) ∷ calls) x g k e now later v known current others live =
      let step =
        accept-get g t at x k e v known current others.0
          (omega (arith, Others-le e.origin calls at later others.2)) in
      run-get calls x (accept ed xof g t at x).0 k e at later (accept-IsValid ed xof g t at x v)
        step current others.2 live

  unverified_refused :
      (g : RelayGuard) (t : RelayTicket) (now : ℕ) (x : Bytes)
      → (verify ed t now x ≡ ok tt → ⊥)
      → (accept ed xof g t now x).1 ≡ false
  unverified_refused g t now x bad =
      accept_cases ed xof (λ r. r.1 ≡ false) g t now x refl (λ full. refl)
        λ good fresh room. absurd (bad good)

  -- A ticket that a valid guard accepted is refused at every later time under the same challenge,
  -- whatever tickets of other origins come between at ascending times, but for the one millisecond
  -- at which its tolerance ends. The times are two minutes short of 2^63.
  pub replay_refused :
      (g : RelayGuard) (t : RelayTicket) (calls : List (RelayTicket × ℕ)) (now later : ℕ)
      (x : Bytes)
      → IsValid g
      → t.expiry_ms + skew ≤ i64_max
      → later + skew ≤ i64_max
      → (accept ed xof g t now x).1 ≡ true
      → Others t.origin_node_key now calls later
      → later ≢ t.expiry_ms + skew
      → (accept ed xof (run x (accept ed xof g t now x).0 calls) t later x).1 ≡ false
  replay_refused g t calls now later x v small late through others edge =
      let (good, fresh, known) = accept-true g t now x through in
      let after = run x (accept ed xof g t now x).0 calls in
      elim (dec_lt later (t.expiry_ms + skew)) [
        | yes within ↦ known_refused after t later x (entry_of t x) (
            run-get calls x (accept ed xof g t now x).0 (fingerprint xof t) (entry_of t x) now later
              (accept-IsValid ed xof g t now x v) known refl others (omega arith))
        | no over ↦ unverified_refused after t later x (λ ok_again. absurd (
            edge (
              omega (arith, ((ticket_verify_iff ed t later x late small).0 ok_again).1.unexpired))))
      ]
