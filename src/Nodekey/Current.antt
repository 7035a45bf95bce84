-- ===== src/Nodekey/Current.antt =====
-- nodekey.rs, `NodeKeyRing`: which key `current` gives, and what a restored ring holds.
use mesui.Prelude.{
  ℕ, ◌≤◌, ◌<◌, ◌≡◌, refl, ap, ◌∙◌, ◌≢◌, ◌⊎◌, true, false, none, some, List, [], ◌∷◌, Bytes,
  bytes_eq_refl, All, retain, arith, if◌then◌else◌, Bool-cases, Option-cases, inl, inr, Result, ok,
  err, subst,
}
use mesui.Prelude.Map.{insert}
use mesui.Identity.{Ed25519}
use mesui.Nodekey.{
  NodeKeyAnnouncement, Slot, NodeKeyRing, slot_of, update_slot, is_active, newest, upsert, restore,
  current,
}
use mesui.Nodekey.Ring.{update_slot_fresh, update_slot_stale}
use mesui.Nodekey.Newest.{NoneNewer, newest_lem, newest-append}
use mesui.Nodekey.Upsert.{
  Genuine, IsValid, superseded, slot_of-insert, upsert_ok, upsert_err, upsert-IsValid,
}

-- `current` looks at the slot alone.
current-slot :
    (ring : NodeKeyRing) (i : Bytes) (now : ℕ) (e : NodeKeyAnnouncement)
    → newest (retain (is_active now) (slot_of i ring)) ≡ some e
    → current ring i now ≡ some e.node_key
unfolding current newest retain
current-slot ring i now e h = ground arith

current-found :
    (ring : NodeKeyRing) (i k : Bytes) (now : ℕ)
    → current ring i now ≡ some k
    → (e : NodeKeyAnnouncement) × (newest (retain (is_active now) (slot_of i ring)) ≡ some e)
      × (e.node_key ≡ k)
unfolding current newest retain
current-found ring i k now h =
    elim (Option-cases (newest (retain (is_active now) (slot_of i ring)))) [
      | inl nobody ↦ absurd (nothing nobody)
      | inr (e, found) ↦ (e, found, same e found)
    ]
  where
    nothing : newest (retain (is_active now) (slot_of i ring)) ≡ none → ⊥
    nothing q = ground arith

    same :
        (e : NodeKeyAnnouncement)
        → newest (retain (is_active now) (slot_of i ring)) ≡ some e
        → e.node_key ≡ k
    same e q = ground arith

abbrev pub IsActive : ℕ → NodeKeyAnnouncement → Type 0
IsActive now e = (e.not_before_ms ≤ now) × (now < e.not_after_ms)

-- What holds of the entries and the test holds of those that pass it.
retain-holds :
    (P : NodeKeyAnnouncement → Type 0) (now : ℕ) (xs : Slot)
    → All P xs
    → All (λ e. P e × IsActive now e) (retain (is_active now) xs)
unfolding retain
retain-holds P now [] h = tt
retain-holds P now (x ∷ xs) h = elim (Bool-cases (is_active now x)) [
  | inl here ↦ rw here ((h.0, ground arith), retain-holds P now xs h.1)
  | inr not_here ↦ rw not_here (retain-holds P now xs h.1)
]

-- No active entry of the slot has a greater serial.
abbrev pub Greatest : ℕ → NodeKeyAnnouncement → Slot → Type 0
Greatest now e = All (λ f. IsActive now f → f.serial ≤ e.serial)

NoneNewer-Greatest :
    (now : ℕ) (e : NodeKeyAnnouncement) (xs : Slot)
    → NoneNewer e (retain (is_active now) xs)
    → Greatest now e xs
unfolding retain
NoneNewer-Greatest now e [] h = tt
NoneNewer-Greatest now e (x ∷ xs) h = elim (Bool-cases (is_active now x)) [
  | inl here ↦
      let both =
        subst
          (λ b.
            NoneNewer e (if b then x ∷ retain (is_active now) xs else retain (is_active now) xs))
          here h in
      (λ a. both.0, NoneNewer-Greatest now e xs both.1)
  | inr gone ↦
      let rest =
        subst
          (λ b.
            NoneNewer e (if b then x ∷ retain (is_active now) xs else retain (is_active now) xs))
          gone h in
      (λ a. absurd (ground arith), NoneNewer-Greatest now e xs rest)
]

module _ (ed : Ed25519) where
  -- The key that `current` gives in a valid ring is from an announcement that the identity signed
  -- and that is in its validity, and no other announcement of the slot in its validity has a
  -- greater serial.
  pub current-Greatest :
      (ring : NodeKeyRing) (i k : Bytes) (now : ℕ)
      → IsValid ed ring
      → current ring i now ≡ some k
      → (e : NodeKeyAnnouncement) × (e.node_key ≡ k)
        × Genuine ed i e
        × IsActive now e
        × Greatest now e (slot_of i ring)
  current-Greatest ring i k now v h =
      let (e, found, key) = current-found ring i k now h in
      let r =
        newest_lem (λ f. Genuine ed i f × IsActive now f) (retain (is_active now) (slot_of i ring))
          e found (retain-holds (Genuine ed i) now (slot_of i ring) (v.genuine i)) in
      (e, key, r.holds.0, r.holds.1, NoneNewer-Greatest now e (slot_of i ring) r.greatest)

  -- In a valid ring, an announcement that `upsert` takes without an error, that no known one of its
  -- identity supersedes, and whose validity has begun, gives the current key at that time.
  pub current-upsert :
      (ring : NodeKeyRing) (ann : NodeKeyAnnouncement) (now : ℕ)
      → IsValid ed ring
      → (upsert ed ring ann now).1 ≡ ok tt
      → superseded ann (slot_of ann.identity ring) ≡ false
      → ann.not_before_ms ≤ now
      → current (upsert ed ring ann now).0 ann.identity now ≡ some ann.node_key
  current-upsert ring ann now v h fresh started =
      let id = ann.identity in
      let (good, alive, made) = upsert_ok ed ring ann now h in
      let t =
        update_slot_fresh (Genuine ed id) ann now (slot_of id ring) fresh alive (v.genuine id) in
      rw made (
        current-slot (insert id (update_slot ann now (slot_of id ring)) ring) id now ann (
          rw
            (
              slot_of-insert id id (update_slot ann now (slot_of id ring)) ring,
              bytes_eq_refl id,
              t.shape,
            )
            (newest-append (Genuine ed id) ann now t.before t.olds (ground arith))))

  -- An announcement that a higher serial of its identity supersedes changes no slot, and any
  -- announcement changes no slot of another identity.
  pub upsert_keeps :
      (ring : NodeKeyRing) (ann : NodeKeyAnnouncement) (now : ℕ) (i : Bytes)
      → (superseded ann (slot_of ann.identity ring) ≡ true) ⊎ (ann.identity ≢ i)
      → slot_of i (upsert ed ring ann now).0 ≡ slot_of i ring
  upsert_keeps ring ann now i c = split c ((upsert ed ring ann now).1) refl
    where
      split :
          (superseded ann (slot_of ann.identity ring) ≡ true) ⊎ (ann.identity ≢ i)
          → (r : Result (Unit {0})) → (upsert ed ring ann now).1 ≡ r
          → slot_of i (upsert ed ring ann now).0 ≡ slot_of i ring
      split c (err x) e = ap (slot_of i) (upsert_err ed ring ann now (λ q. cc))
      split (inr other) (ok u) e =
          let (good, alive, made) = upsert_ok ed ring ann now e in
          rw made (slot_of-insert ann.identity i _ ring ∙ ground arith)
      split (inl stale) (ok u) e =
          let (good, alive, made) = upsert_ok ed ring ann now e in
          let same = update_slot_stale (Genuine ed i) ann now (slot_of ann.identity ring) stale in
          rw (made, same)
            (slot_of-insert ann.identity i _ ring
              ∙ ground (arith, λ (p : ann.identity ≡ i). ap (λ (z : Bytes). slot_of z ring) p))

  -- `restore` keeps a valid ring valid, whatever announcements are read back and however they were
  -- tampered with.
  pub restore-IsValid :
      (ring : NodeKeyRing) (anns : List NodeKeyAnnouncement) (now : ℕ)
      → IsValid ed ring
      → IsValid ed (restore ed ring anns now).0
  unfolding restore
  restore-IsValid ring [] now v = v
  restore-IsValid ring (ann ∷ anns) now v =
      split ((upsert ed ring ann now).1) refl (upsert-IsValid ed ring ann now v)
        (restore-IsValid (upsert ed ring ann now).0 anns now (upsert-IsValid ed ring ann now v))
    where
      split :
          (r : Result (Unit {0}))
          → (upsert ed ring ann now).1 ≡ r
          → IsValid ed (upsert ed ring ann now).0
          → IsValid ed (restore ed (upsert ed ring ann now).0 anns now).0
          → IsValid ed (restore ed ring (ann ∷ anns) now).0
      split (ok u) e one rest = rw (e, restore) rest
      split (err x) e one rest = rw (e, restore) one
