-- ===== src/Signal/Trust.antt =====
-- signal_store.rs: trust on first use. The key that was pinned first for an address is the only one
-- that is trusted or pinned again.
use mesui.Prelude.{
  ◌≡◌, refl, sym, ap, ◌∙◌, ◌↔◌, Bool, true, List, Option, none, some, Bytes, ◌∷◌, [], arith,
  bytes_eq_iff,
}
use mesui.Prelude.Table.{find, replace, find-replace}
use mesui.Signal.Engine.{
  ProtocolAddress, address_key, address_same_iff, SignalResult, rejected, succeeded, Fault,
  poisoned, refused, SqlSignalStore, after, with_faults, with_conn, lift,
}
use mesui.Signal.Identities.{
  save_identity, select_identity, insert_identity, check_existing, trust, is_trusted_identity,
  IdentityChange, new_or_unchanged,
}
use mesui.Signal.Records.{RecordCodec}
use mesui.Signal.Calls.{StoreCall, run}
use mesui.Signal.Pinned.{Pinned, select_identity_lem, check_existing_same, run-Pinned}

insert_identity_done :
    (a : ProtocolAddress) (k : Bytes) (s : SqlSignalStore)
    → (insert_identity a k s).1 ≡ succeeded tt
    → Pinned a k (insert_identity a k s).0
unfolding insert_identity with_conn
insert_identity_done a k s = go s.faults
  where
    here : find a (replace a k s.trusted_identities) ≡ some k
    here = rw (find-replace a a k s.trusted_identities, (address_same_iff a a).1 refl) refl

    go :
        (faults : List (Option Fault))
        → (insert_identity a k (with_faults faults s)).1 ≡ succeeded tt
        → Pinned a k (insert_identity a k (with_faults faults s)).0
    go [] h = here
    go (none ∷ fs) h = here
    go (some poisoned ∷ fs) h = cc
    go (some (refused debug display) ∷ fs) h = cc

module _ (decode : Bytes → SignalResult Bytes) where
  -- A save that was successful has written the row.
  pub save_identity-Pinned_done :
      (a : ProtocolAddress) (k : Bytes) (s : SqlSignalStore) {c : IdentityChange}
      → (save_identity decode a k s).1 ≡ succeeded c
      → Pinned a k (save_identity decode a k s).0
  unfolding save_identity
  save_identity-Pinned_done a k s {c} =
      read (select_identity "save_identity" a s).0 (select_identity "save_identity" a s).1
    where
      write :
          (s' : SqlSignalStore) (r : SignalResult (Unit {0}))
          → r ≡ (insert_identity a k s').1
          → (after (λ v t. (t, succeeded new_or_unchanged)) ((insert_identity a k s').0, r)).1
            ≡ succeeded c
          → Pinned a k
              (after (λ v t. (t, succeeded new_or_unchanged)) ((insert_identity a k s').0, r)).0
      write s' (rejected e) h through = cc
      write s' (succeeded tt) h through = insert_identity_done a k s' (sym h)

      check :
          (s' : SqlSignalStore) (r : SignalResult (Unit {0}))
          → (after
              (λ u t. after (λ v t. (t, succeeded new_or_unchanged)) (insert_identity a k t))
              (s', r)).1
            ≡ succeeded c
          → Pinned a k
              (after
                (λ u t. after (λ v t. (t, succeeded new_or_unchanged)) (insert_identity a k t))
                (s', r)).0
      check s' (rejected e) through = cc
      check s' (succeeded u) through = write s' (insert_identity a k s').1 refl through

      read :
          (s' : SqlSignalStore) (r : SignalResult (Option Bytes))
          → (after
              (λ existing t.
                after
                  (λ u t. after (λ v t. (t, succeeded new_or_unchanged)) (insert_identity a k t))
                  (t, check_existing decode existing k))
              (s', r)).1
            ≡ succeeded c
          → Pinned a k
              (after
                (λ existing t.
                  after
                    (λ u t. after (λ v t. (t, succeeded new_or_unchanged)) (insert_identity a k t))
                    (t, check_existing decode existing k))
                (s', r)).0
      read s' (rejected e) through = cc
      read s' (succeeded o) through = check s' (check_existing decode o k) through

after_inv :
    {A B : Type 0} (f : A → SqlSignalStore → SqlSignalStore × SignalResult B) (s : SqlSignalStore)
    (r : SignalResult A) {b : B}
    → (after f (s, r)).1 ≡ succeeded b
    → (a : A) × (r ≡ succeeded a) × ((f a s).1 ≡ succeeded b)
after_inv f s (rejected e) h = cc
after_inv f s (succeeded a) h = (a, refl, h)

module _ (decode : Bytes → SignalResult Bytes) (address : ProtocolAddress) (identity : Bytes)
    (reads_back : decode identity ≡ succeeded identity) where
  trust_iff :
      (k : Bytes) {b : Bool}
      → trust decode (some identity) k ≡ succeeded b
      → (b ≡ true) ↔ (k ≡ identity)
  trust_iff k h =
      (λ t. ground (arith, bytes_eq_iff identity k), λ e. ground (arith, bytes_eq_iff identity k))

  pub is_trusted_iff :
      (k : Bytes) (s : SqlSignalStore) {b : Bool}
      → Pinned address identity s
      → (is_trusted_identity decode address k s).1 ≡ succeeded b
      → (b ≡ true) ↔ (k ≡ identity)
  unfolding is_trusted_identity
  is_trusted_iff k s p h =
      let sel = select_identity_lem "is_trusted_identity" address s in
      let (o, e, through) =
        after_inv (λ existing. lift (trust decode existing k))
          (select_identity "is_trusted_identity" address s).0
          (select_identity "is_trusted_identity" address s).1 h in
      trust_iff k (sym (ap (λ o. trust decode o k) (sel.row o e ∙ p)) ∙ through)

  pub save_identity_only :
      (k : Bytes) (s : SqlSignalStore) {c : IdentityChange}
      → Pinned address identity s
      → (save_identity decode address k s).1 ≡ succeeded c
      → k ≡ identity
  unfolding save_identity
  save_identity_only k s p h =
      let sel = select_identity_lem "save_identity" address s in
      let (o, e, through) =
        after_inv
          (λ existing t.
            after
              (λ u t. after (λ v t. (t, succeeded new_or_unchanged)) (insert_identity address k t))
              (t, check_existing decode existing k))
          (select_identity "save_identity" address s).0
          (select_identity "save_identity" address s).1 h in
      let (u, checked, rest) =
        after_inv
          (λ u t. after (λ v t. (t, succeeded new_or_unchanged)) (insert_identity address k t))
          (select_identity "save_identity" address s).0 (check_existing decode o k) through in
      check_existing_same decode address identity reads_back k
        (sym (ap (λ o. check_existing decode o k) (sel.row o e ∙ p)) ∙ checked)

  module _ {R : Type 0} (codec : RecordCodec R) (s : SqlSignalStore) (first : IdentityChange)
      (saved : (save_identity decode address identity s).1 ≡ succeeded first)
      (cs : List (StoreCall R)) (k : Bytes) where
    later_Pinned :
        Pinned address identity (run decode codec cs (save_identity decode address identity s).0)
    later_Pinned =
        run-Pinned decode address identity reads_back codec cs
          (save_identity decode address identity s).0
          (save_identity-Pinned_done decode address identity s saved)

    -- Once a key was saved for an address, then after whatever calls, whichever of them the engine
    -- refuses, a query for the address that gives an answer trusts exactly that key. The library reads
    -- the key back as it was written.
    pub trusted_after_save :
        (b : Bool)
        → (is_trusted_identity decode address k
            (run decode codec cs (save_identity decode address identity s).0)).1
          ≡ succeeded b
        → (b ≡ true) ↔ (k ≡ identity)
    trusted_after_save b =
        is_trusted_iff k (run decode codec cs (save_identity decode address identity s).0)
          later_Pinned

    -- Once a key was saved for an address, then after whatever calls, whichever of them the engine
    -- refuses, another save for the address succeeds only with that key. The library reads the key back
    -- as it was written.
    pub save_after_save :
        (change : IdentityChange)
        → (save_identity decode address k
            (run decode codec cs (save_identity decode address identity s).0)).1
          ≡ succeeded change
        → k ≡ identity
    save_after_save change =
        save_identity_only k (run decode codec cs (save_identity decode address identity s).0)
          later_Pinned
