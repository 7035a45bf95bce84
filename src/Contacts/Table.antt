-- ===== src/Contacts/Table.antt =====
-- contacts.rs: what updates and insertions do to the table of contacts.
use mesui.Prelude.{
  ◌≡◌, refl, ◌∙◌, ◌⊎◌, inl, inr, Bool, true, false, List, [], ◌∷◌, ◌++◌, Bytes, bytes_eq_iff,
  bytes_eq_refl, arith, length, any, All, ok, Bool-cases,
}
use mesui.Contacts.{ContactInfo, ContactStore, has_name, update, check_sizes}

-- The sizes that every stored contact has.
pub record IsSized (c : ContactInfo) : Type 0 where
  pub identity : (length c.identity ≡ 32) ⊎ (length c.identity ≡ 33)
  pub bucket : length c.bucket ≡ 32
  pub link_secret : length c.link_secret ≡ 32

-- No name stands twice.
abbrev pub Distinct : List ContactInfo → Type 0
Distinct [] = Unit
Distinct (c ∷ cs) = (any (has_name c.name) cs ≡ false) × Distinct cs

pub record IsValid (s : ContactStore) : Type 0 where
  pub sized : All IsSized s.contacts
  pub distinct : Distinct s.contacts

pub check_sizes-IsSized : (c : ContactInfo) → check_sizes c ≡ ok tt → IsSized c
unfolding check_sizes
check_sizes-IsSized c h = record {
  identity = ground arith;
  bucket = ground arith;
  link_secret = ground arith;
}

module _ (f : ContactInfo → ContactInfo) (other : Bytes)
    (same : (c : ContactInfo) → has_name other c ≡ true → (f c).name ≡ c.name) where
  any-update :
      (name : Bytes) (cs : List ContactInfo)
      → any (has_name name) (update other f cs) ≡ any (has_name name) cs
  unfolding any update
  any-update name [] = refl
  any-update name (c ∷ cs) = elim (Bool-cases (has_name other c)) [
    | inl t ↦ rw (t, update, any, same c t, any-update name cs) refl
    | inr n ↦ rw (n, update, any, any-update name cs) refl
  ]

  pub update-Distinct : (cs : List ContactInfo) → Distinct cs → Distinct (update other f cs)
  unfolding update
  update-Distinct [] d = tt
  update-Distinct (c ∷ cs) d = elim (Bool-cases (has_name other c)) [
    | inl t ↦ rw (t, update) (rw (same c t) (any-update c.name cs ∙ d.0), update-Distinct cs d.1)
    | inr n ↦ rw (n, update) (any-update c.name cs ∙ d.0, update-Distinct cs d.1)
  ]

pub update-All :
    (f : ContactInfo → ContactInfo) (other : Bytes) (cs : List ContactInfo)
    → ((c : ContactInfo) → IsSized c → IsSized (f c))
    → All IsSized cs
    → All IsSized (update other f cs)
unfolding update
update-All f other [] g a = tt
update-All f other (c ∷ cs) g a = elim (Bool-cases (has_name other c)) [
  | inl t ↦ rw (t, update) (g c a.0, update-All f other cs g a.1)
  | inr n ↦ rw (n, update) (a.0, update-All f other cs g a.1)
]

any-append :
    (p : ContactInfo → Bool) (cs : List ContactInfo) (c : ContactInfo)
    → any p cs ≡ false
    → p c ≡ false
    → any p (cs ++ c ∷ []) ≡ false
unfolding any
any-append p [] c h k = ground arith
any-append p (d ∷ cs) c h k = ground (arith, any-append p cs c)

pub append-Distinct :
    (cs : List ContactInfo) (c : ContactInfo)
    → any (has_name c.name) cs ≡ false
    → Distinct cs
    → Distinct (cs ++ c ∷ [])
unfolding any
append-Distinct [] c h d = (refl, tt)
append-Distinct (e ∷ cs) c h d = (
  any-append (has_name e.name) cs c d.0 (
      ground (arith, bytes_eq_iff c.name e.name, bytes_eq_iff e.name c.name, bytes_eq_refl e.name)),
  append-Distinct cs c (ground arith) d.1,
)
