-- ===== src/Contacts/Calls.antt =====
-- contacts.rs: the store stays lawful through any calls.
use Prim.Native.String.{String}
use mesui.Prelude.{
  ◌≡◌, refl, sym, subst, inl, inr, Bool, false, not, Option, none, some, List, [], ◌∷◌, ◌++◌, Bytes,
  bytes_eq_iff, arith, retain, any, All-append, All-retain, Result, ok, err, Bool-cases,
}
use mesui.Contacts.{
  ContactInfo, ContactStore, ChatMsg, execute, has_name, update, overwrite, put, check_sizes,
  upsert, set_verified, delete, append_message,
}
use mesui.Contacts.Table.{
  IsSized, Distinct, IsValid, check_sizes-IsSized, update-Distinct, update-All, append-Distinct,
}

-- What a statement keeps, its execution keeps.
execute-keeps :
    {A : Type 0} (P : ContactStore → Type 0) (fault : Option String)
    (run : ContactStore → ContactStore × A) (s : ContactStore)
    → P s
    → P (run s).0
    → P (execute fault run s).0
execute-keeps P (some e) run s p q = p
execute-keeps P none run s p q = q

overwrite-IsValid :
    (c : ContactInfo) (s : ContactStore)
    → IsSized c
    → IsValid s
    → IsValid (record s { contacts = update c.name (overwrite c) s.contacts })
overwrite-IsValid c s z v = record {
  sized =
      update-All (overwrite c) c.name s.contacts
        (λ d y. record { identity = z.identity; bucket = z.bucket; link_secret = z.link_secret })
        v.sized;
  distinct =
      update-Distinct (overwrite c) c.name (λ d t. sym ((bytes_eq_iff d.name c.name).0 t))
        s.contacts v.distinct;
}

append-IsValid :
    (c : ContactInfo) (s : ContactStore)
    → IsSized c
    → any (has_name c.name) s.contacts ≡ false
    → IsValid s
    → IsValid (record s { contacts = s.contacts ++ c ∷ [] })
append-IsValid c s z n v = record {
  sized = All-append IsSized s.contacts (c ∷ []) v.sized (z, tt);
  distinct = append-Distinct s.contacts c n v.distinct;
}

put-IsValid :
    (c : ContactInfo) (s : ContactStore)
    → IsSized c
    → IsValid s
    → IsValid (record s { contacts = put c s.contacts })
put-IsValid c s z v = elim (Bool-cases (any (has_name c.name) s.contacts)) [
  | inl t ↦
      let rows : put c s.contacts ≡ update c.name (overwrite c) s.contacts = rw (t, put) refl in
      subst (λ cs. IsValid (record s { contacts = cs })) (sym rows) (overwrite-IsValid c s z v)
  | inr n ↦
      let rows : put c s.contacts ≡ s.contacts ++ c ∷ [] = rw (n, put) refl in
      subst (λ cs. IsValid (record s { contacts = cs })) (sym rows) (append-IsValid c s z n v)
]

upsert-IsValid :
    (c : ContactInfo) (fault : Option String) (s : ContactStore)
    → IsValid s
    → IsValid (upsert c fault s).0
unfolding upsert
upsert-IsValid c fault s v = go (check_sizes c) refl
  where
    go :
        (r : Result (Unit {0}))
        → check_sizes c ≡ r
        → IsValid
            (elim r as (λ r. ContactStore × Result (Unit {0})) [
              | err e ↦ (s, err e)
              | ok _ ↦ execute fault (λ s. (record s { contacts = put c s.contacts }, tt)) s
            ]).0
    go (err e) h = v
    go (ok u) h =
        execute-keeps IsValid fault (λ s. (record s { contacts = put c s.contacts }, tt)) s v
          (put-IsValid c s (check_sizes-IsSized c h) v)

set_verified-IsValid :
    (name : Bytes) (verified : Bool) (fault : Option String) (s : ContactStore)
    → IsValid s
    → IsValid (set_verified name verified fault s).0
unfolding set_verified
set_verified-IsValid name verified fault s v =
    execute-keeps IsValid fault
      (λ s. (
        record s { contacts = update name (λ c. record c { verified = verified }) s.contacts },
        tt,
      ))
      s v
      (record {
        sized =
            update-All (λ c. record c { verified = verified }) name s.contacts
              (λ c y. record {
                identity = y.identity;
                bucket = y.bucket;
                link_secret = y.link_secret;
              })
              v.sized;
        distinct =
            update-Distinct (λ c. record c { verified = verified }) name (λ c t. refl) s.contacts
              v.distinct;
      })

any-retain :
    (p q : ContactInfo → Bool) (cs : List ContactInfo)
    → any p cs ≡ false
    → any p (retain q cs) ≡ false
unfolding any retain
any-retain p q [] h = h
any-retain p q (c ∷ cs) h = ground (arith, any-retain p q cs)

retain-Distinct :
    (q : ContactInfo → Bool) (cs : List ContactInfo) → Distinct cs → Distinct (retain q cs)
unfolding retain
retain-Distinct q [] d = tt
retain-Distinct q (c ∷ cs) d = elim (Bool-cases (q c)) [
  | inl t ↦ rw (t, retain) (any-retain (has_name c.name) q cs d.0, retain-Distinct q cs d.1)
  | inr n ↦ rw (n, retain) (retain-Distinct q cs d.1)
]

delete-IsValid :
    (name : Bytes) (fault : Option String) (s : ContactStore)
    → IsValid s
    → IsValid (delete name fault s).0
unfolding delete
delete-IsValid name fault s v =
    execute-keeps IsValid fault
      (λ s. (record s { contacts = retain (λ c. not (has_name name c)) s.contacts }, tt)) s v
      (record {
        sized = All-retain IsSized (λ c. not (has_name name c)) s.contacts v.sized;
        distinct = retain-Distinct (λ c. not (has_name name c)) s.contacts v.distinct;
      })

append_message-IsValid :
    (msg : ChatMsg) (fault : Option String) (s : ContactStore)
    → IsValid s
    → IsValid (append_message msg fault s).0
unfolding append_message
append_message-IsValid msg (some e) s v = v
append_message-IsValid msg none s v = record { sized = v.sized; distinct = v.distinct }

-- The calls that write.
pub data StoreCall : Type 0 where
  upserts : ContactInfo → StoreCall
  verifies : Bytes → Bool → StoreCall
  deletes : Bytes → StoreCall
  appends : ChatMsg → StoreCall

-- A call with what the engine makes of it.
pub step : StoreCall × Option String → ContactStore → ContactStore
step (upserts c, fault) s = (upsert c fault s).0
step (verifies name verified, fault) s = (set_verified name verified fault s).0
step (deletes name, fault) s = (delete name fault s).0
step (appends msg, fault) s = (append_message msg fault s).0

step-IsValid : (k : StoreCall × Option String) (s : ContactStore) → IsValid s → IsValid (step k s)
unfolding step
step-IsValid (upserts c, fault) s v = upsert-IsValid c fault s v
step-IsValid (verifies name verified, fault) s v = set_verified-IsValid name verified fault s v
step-IsValid (deletes name, fault) s v = delete-IsValid name fault s v
step-IsValid (appends msg, fault) s v = append_message-IsValid msg fault s v

pub run : List (StoreCall × Option String) → ContactStore → ContactStore
run [] s = s
run (k ∷ ks) s = run ks (step k s)

-- From a valid store, through any calls, whichever of them the engine refuses, no name stands twice
-- among the contacts, and each has an identity of 32 or 33 bytes and a bucket and a link secret of
-- 32.
pub store_calls-IsValid :
    (ks : List (StoreCall × Option String)) (s : ContactStore) → IsValid s → IsValid (run ks s)
unfolding run
store_calls-IsValid [] s v = v
store_calls-IsValid (k ∷ ks) s v = store_calls-IsValid ks (step k s) (step-IsValid k s v)
