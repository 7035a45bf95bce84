-- ===== src/Nodekey/Ring.antt =====
-- nodekey.rs, `NodeKeyRing::upsert` on the slot of one identity.
use mesui.Prelude.{
  ℕ, zero, suc, ◌+◌, ◌≤◌, ◌<◌, ◌≡◌, refl, ap, Bool, true, false, not, some, [], ◌∷◌, ◌++◌, length,
  length-append, All, retain, any, arith, ltb, leb, lt→ltb, ◌==◌, Bool-cases, inl, inr,
}
use mesui.Nodekey.{
  NodeKeyAnnouncement, Slot, oldest, remove_at, trim, update_slot, max_announcements_per_identity,
}

module _ (P : NodeKeyAnnouncement → Type 0) (ann : NodeKeyAnnouncement) (now : ℕ) where
  -- An older announcement that is still valid and of which `P` holds.
  pub record Older (e : NodeKeyAnnouncement) : Type 0 where
    pub older : e.serial < ann.serial
    pub alive : now < e.not_after_ms
    pub holds : P e

  abbrev alive_test : NodeKeyAnnouncement → Bool
  alive_test e = ltb now e.not_after_ms

  abbrev other_test : NodeKeyAnnouncement → Bool
  other_test e = not (e.serial == ann.serial)

  Older-entries :
      (slot : Slot)
      → any (λ e. ltb ann.serial e.serial) slot ≡ false
      → All P slot
      → All Older (retain alive_test (retain other_test slot))
  unfolding any retain
  Older-entries [] fresh h = tt
  Older-entries (e ∷ es) fresh h =
      let ih = Older-entries es (ground arith) h.1 in
      elim (Bool-cases (other_test e)) [
        | inr same ↦ rw same ih
        | inl other ↦ elim (Bool-cases (alive_test e)) [
          | inr dead ↦ rw (other, dead) ih
          | inl lives ↦
              rw (other, lives)
                (record { older = ground arith; alive = ground arith; holds = h.0 }, ih)
        ]
      ]

  -- A round of the loop finds an older announcement and takes it out.
  record Round (xs : Slot) : Type 0 where
    index : ℕ
    serial : ℕ
    found : oldest (xs ++ ann ∷ []) ≡ some (index, serial)
    less : serial < ann.serial
    left : Slot
    removed : remove_at index (xs ++ ann ∷ []) ≡ left ++ ann ∷ []
    olds : All Older left
    size : length left + 1 ≡ length xs

  round : (x : NodeKeyAnnouncement) (xs : Slot) → All Older (x ∷ xs) → Round (x ∷ xs)
  unfolding oldest remove_at
  round x [] h = record {
    index = 0;
    serial = x.serial;
    found = let lt = h.0.older in ground arith;
    less = h.0.older;
    left = [];
    removed = refl;
    olds = tt;
    size = refl;
  }
  round x (y ∷ ys) h =
      let r = round y ys h.1 in
      elim (Bool-cases (leb x.serial r.serial)) [
        | inl first ↦ record {
          index = 0;
          serial = x.serial;
          found = rw (r.found, first, oldest);
          less = h.0.older;
          left = y ∷ ys;
          removed = refl;
          olds = h.1;
          size = omega arith;
        }
        | inr later ↦ record {
          index = suc r.index;
          serial = r.serial;
          found = rw (r.found, later, oldest);
          less = r.less;
          left = x ∷ r.left;
          removed = ap (◌∷◌ x) r.removed;
          olds = (h.0, r.olds);
          size = omega (arith, r.size);
        }
      ]

  -- What the loop leaves: the new announcement last, and 32 in all at most.
  pub record Trimmed (slot : Slot) : Type 0 where
    pub before : Slot
    pub shape : slot ≡ before ++ ann ∷ []
    pub olds : All Older before
    pub size : length before + 1 ≤ max_announcements_per_identity

  trim_lem :
      (fuel : ℕ) (xs : Slot)
      → length xs ≤ fuel
      → All Older xs
      → Trimmed (trim fuel ann.serial (xs ++ ann ∷ []))
  unfolding trim
  trim_lem zero [] h o = record { before = []; shape = refl; olds = tt; size = omega arith }
  trim_lem zero (x ∷ xs) h o = absurd (omega arith)
  trim_lem (suc fuel) [] h o = record { before = []; shape = refl; olds = tt; size = omega arith }
  trim_lem (suc fuel) (x ∷ xs) h o =
      let all = (x ∷ xs) ++ ann ∷ [] in
      elim (Bool-cases (ltb max_announcements_per_identity (length all))) [
        | inr small ↦
            rw (small, trim)
              (record {
                before = x ∷ xs;
                shape = refl;
                olds = o;
                size = ground (arith, length-append (x ∷ xs) (ann ∷ []));
              })
        | inl over ↦
            let r = round x xs o in
            rw (over, r.found, lt→ltb r.serial ann.serial r.less, r.removed, trim)
              (trim_lem fuel r.left (omega (arith, r.size)) r.olds)
      ]

  retain-append :
      (p : NodeKeyAnnouncement → Bool) (xs : Slot)
      → p ann ≡ true
      → retain p (xs ++ ann ∷ []) ≡ retain p xs ++ ann ∷ []
  unfolding retain
  retain-append p [] h = rw h
  retain-append p (x ∷ xs) h = elim (Bool-cases (p x)) [
    | inl kept ↦ rw kept (ap (◌∷◌ x) (retain-append p xs h))
    | inr gone ↦ rw gone (retain-append p xs h)
  ]

  -- A new announcement takes its place behind older, valid ones; whatever held of the whole slot
  -- holds of those, and there are never more than 32.
  pub update_slot_fresh :
      (slot : Slot)
      → any (λ e. ltb ann.serial e.serial) slot ≡ false
      → now < ann.not_after_ms
      → All P slot
      → Trimmed (update_slot ann now slot)
  unfolding update_slot
  update_slot_fresh slot fresh alive h =
      let olds = Older-entries slot fresh h in
      let xs = retain alive_test (retain other_test slot) in
      rw
        (
          fresh,
          retain-append alive_test (retain other_test slot) (lt→ltb now ann.not_after_ms alive),
        )
        (trim_lem (length (xs ++ ann ∷ [])) xs (omega (arith, length-append xs (ann ∷ []))) olds)

  pub update_slot_stale :
      (slot : Slot)
      → any (λ e. ltb ann.serial e.serial) slot ≡ true
      → update_slot ann now slot ≡ slot
  unfolding update_slot
  update_slot_stale slot stale = rw stale
