-- ===== src/Nodekey/Upsert.antt =====
-- nodekey.rs, `NodeKeyRing`: the invariant of the ring, and which key `current` gives.
use mesui.Prelude.{
  ℕ, ◌≤◌, ◌<◌, ◌≡◌, refl, ◌≢◌, Bool, [], ◌∷◌, Bytes, bytes_eq, bytes_eq_iff, length, length-append,
  All, All-append, any, arith, ltb, if◌then◌else◌, Bool-cases, inl, inr, Result, ok, err, subst,
}
use mesui.Prelude.Map.{insert, get-insert}
use mesui.Identity.{Ed25519}
use mesui.Nodekey.{
  NodeKeyAnnouncement, Slot, NodeKeyRing, slot_of, update_slot, verify, upsert,
  max_announcements_per_identity,
}
use mesui.Nodekey.Ring.{Older, update_slot_fresh, update_slot_stale}

pub slot_of-insert :
    (i j : Bytes) (s : Slot) (ring : NodeKeyRing)
    → slot_of j (insert i s ring) ≡ (if bytes_eq i j then s else slot_of j ring)
slot_of-insert i j s ring = ground (arith, get-insert j i s ring)

weaken :
    (P : NodeKeyAnnouncement → Type 0) (ann : NodeKeyAnnouncement) (now : ℕ) (xs : Slot)
    → All (Older P ann now) xs
    → All P xs
weaken P ann now [] h = tt
weaken P ann now (x ∷ xs) h = (h.0.holds, weaken P ann now xs h.1)

-- Whether the slot knows a higher serial already.
abbrev pub superseded : NodeKeyAnnouncement → Slot → Bool
superseded ann = any (λ e. ltb ann.serial e.serial)

module _ (ed : Ed25519) where
  -- An entry of the slot of `identity` that it signed.
  abbrev pub Genuine : Bytes → NodeKeyAnnouncement → Type 0
  Genuine identity e = (verify ed e ≡ ok tt) × (e.identity ≡ identity)

  -- Every slot holds at most 32 announcements, each signed by the identity that it is kept under.
  pub record IsValid (ring : NodeKeyRing) : Type 0 where
    pub bounded : (i : Bytes) → length (slot_of i ring) ≤ max_announcements_per_identity
    pub genuine : (i : Bytes) → All (Genuine i) (slot_of i ring)

  pub upsert_ok :
      (ring : NodeKeyRing) (ann : NodeKeyAnnouncement) (now : ℕ)
      → (upsert ed ring ann now).1 ≡ ok tt
      → (verify ed ann ≡ ok tt)
        × (now < ann.not_after_ms)
        × ((upsert ed ring ann now).0
            ≡ insert ann.identity (update_slot ann now (slot_of ann.identity ring)) ring)
  unfolding upsert
  upsert_ok ring ann now h = ground arith

  pub upsert_err :
      (ring : NodeKeyRing) (ann : NodeKeyAnnouncement) (now : ℕ)
      → (upsert ed ring ann now).1 ≢ ok tt
      → (upsert ed ring ann now).0 ≡ ring
  unfolding upsert
  upsert_err ring ann now h = ground arith

  -- `upsert` keeps every slot of a valid ring at 32 announcements at most, each signed by the
  -- identity that it is kept under, whatever the announcement and the time.
  pub upsert-IsValid :
      (ring : NodeKeyRing) (ann : NodeKeyAnnouncement) (now : ℕ)
      → IsValid ring
      → IsValid (upsert ed ring ann now).0
  upsert-IsValid ring ann now v = split ((upsert ed ring ann now).1) refl
    where
      id : Bytes
      id = ann.identity

      slot' : Slot
      slot' = update_slot ann now (slot_of id ring)

      -- the new slot, by whether the announcement is superseded
      slot_valid :
          verify ed ann ≡ ok tt
          → now < ann.not_after_ms
          → (length slot' ≤ max_announcements_per_identity) × All (Genuine id) slot'
      slot_valid good alive = elim (Bool-cases (superseded ann (slot_of id ring))) [
        | inl stale ↦
            rw (update_slot_stale (Genuine id) ann now (slot_of id ring) stale)
              (v.bounded id, v.genuine id)
        | inr fresh ↦
            let t =
              update_slot_fresh (Genuine id) ann now (slot_of id ring) fresh alive (v.genuine id) in
            rw t.shape (
              omega (arith, t.size, length-append t.before (ann ∷ [])),
              All-append (Genuine id) t.before (ann ∷ [])
                  (weaken (Genuine id) ann now t.before t.olds) ((good, refl), tt),
            )
      ]

      split :
          (r : Result (Unit {0}))
          → (upsert ed ring ann now).1 ≡ r
          → IsValid (upsert ed ring ann now).0
      split (err x) e = rw (upsert_err ring ann now (λ q. cc)) v
      split (ok u) e =
          let (good, alive, made) = upsert_ok ring ann now e in
          let new = slot_valid good alive in
          rw made
            (record { bounded = λ i. each_bounded i new.0; genuine = λ i. each_genuine i new.1 })
        where
          each_bounded :
              (i : Bytes)
              → length slot' ≤ max_announcements_per_identity
              → length (slot_of i (insert id slot' ring)) ≤ max_announcements_per_identity
          each_bounded i new = ground (arith, slot_of-insert id i slot' ring, v.bounded i)

          each_genuine :
              (i : Bytes)
              → All (Genuine id) slot'
              → All (Genuine i) (slot_of i (insert id slot' ring))
          each_genuine i new = elim (Bool-cases (bytes_eq id i)) [
            | inl same ↦
                rw (slot_of-insert id i slot' ring, same)
                  (subst (λ j. All (Genuine j) slot') ((bytes_eq_iff id i).0 same) new)
            | inr other ↦ rw (slot_of-insert id i slot' ring, other) (v.genuine i)
          ]
