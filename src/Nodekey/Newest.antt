-- ===== src/Nodekey/Newest.antt =====
-- nodekey.rs, `NodeKeyRing::current`: the greatest serial of a slot.
use mesui.Prelude.{
  ℕ, ◌≤◌, ◌≡◌, refl, ◌⊎◌, true, none, some, [], ◌∷◌, ◌++◌, All, retain, arith, ltb, Bool-cases,
  Option-cases, inl, inr, subst,
}
use mesui.Nodekey.{NodeKeyAnnouncement, Slot, is_active, newest}
use mesui.Nodekey.Ring.{Older}

pub newest-append :
    (P : NodeKeyAnnouncement → Type 0) (ann : NodeKeyAnnouncement) (now : ℕ) (xs : Slot)
    → All (Older P ann now) xs
    → is_active now ann ≡ true
    → newest (retain (is_active now) (xs ++ ann ∷ [])) ≡ some ann
unfolding newest retain
newest-append P ann now [] h active = rw active
newest-append P ann now (x ∷ xs) h active =
    let ih = newest-append P ann now xs h.1 active in
    let lt = h.0.older in
    elim (Bool-cases (is_active now x)) [
      | inl kept ↦ rw (kept, newest) (rw (ih, newest) (ground arith))
      | inr gone ↦ rw gone ih
    ]

-- Either the head is the newest, or the newest of the rest is, and the head is no newer.
newest_choice :
    (x : NodeKeyAnnouncement) (xs : Slot) (e : NodeKeyAnnouncement)
    → newest (x ∷ xs) ≡ some e
    → ((x ≡ e)
        × ((newest xs ≡ none)
            ⊎ ((f : NodeKeyAnnouncement) × (newest xs ≡ some f) × (f.serial ≤ e.serial))))
      ⊎ ((newest xs ≡ some e) × (x.serial ≤ e.serial))
unfolding newest
newest_choice x xs e h = elim (Option-cases (newest xs)) [
  | inl nothing ↦ inl (ground arith, inl nothing)
  | inr (f, found) ↦ elim (Bool-cases (ltb f.serial x.serial)) [
    | inl newer ↦ inl (ground arith, inr (f, found, ground arith))
    | inr older ↦ inr (ground arith, ground arith)
  ]
]

newest-none : (xs : Slot) → newest xs ≡ none → xs ≡ []
unfolding newest
newest-none [] h = refl
newest-none (x ∷ xs) h = ground arith

-- The newest is one of the entries, and none has a greater serial.
abbrev pub NoneNewer : NodeKeyAnnouncement → Slot → Type 0
NoneNewer e = All (λ f. f.serial ≤ e.serial)

NoneNewer-mono :
    (e f : NodeKeyAnnouncement) (xs : Slot) → f.serial ≤ e.serial → NoneNewer f xs → NoneNewer e xs
NoneNewer-mono e f [] h a = tt
NoneNewer-mono e f (x ∷ xs) h a = (omega arith, NoneNewer-mono e f xs h a.1)

pub record Newest (P : NodeKeyAnnouncement → Type 0) (xs : Slot) (e : NodeKeyAnnouncement)
    : Type 0 where
  pub holds : P e
  pub greatest : NoneNewer e xs

pub newest_lem :
    (P : NodeKeyAnnouncement → Type 0) (xs : Slot) (e : NodeKeyAnnouncement)
    → newest xs ≡ some e
    → All P xs
    → Newest P xs e
unfolding newest
newest_lem P [] e h a = cc
newest_lem P (x ∷ xs) e h a =
    choose (newest_choice x xs e h)
      (λ (f : NodeKeyAnnouncement) (q : newest xs ≡ some f). newest_lem P xs f q a.1)
  where
    choose :
        ((x ≡ e)
            × ((newest xs ≡ none)
                ⊎ ((f : NodeKeyAnnouncement) × (newest xs ≡ some f) × (f.serial ≤ e.serial))))
          ⊎ ((newest xs ≡ some e) × (x.serial ≤ e.serial))
        → ((f : NodeKeyAnnouncement) → newest xs ≡ some f → Newest P xs f)
        → Newest P (x ∷ xs) e
    choose (inl (same, inl nothing)) ih = record {
      holds = subst P same a.0;
      greatest = rw (newest-none xs nothing) (ground arith);
    }
    choose (inl (same, inr (f, found, le))) ih = record {
      holds = subst P same a.0;
      greatest = (ground arith, NoneNewer-mono e f xs le (ih f found).greatest);
    }
    choose (inr (found, le)) ih = record {
      holds = (ih e found).holds;
      greatest = (le, (ih e found).greatest);
    }
