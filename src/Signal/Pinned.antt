-- ===== src/Signal/Pinned.antt =====
-- signal_store.rs: the identity that was pinned for an address stays.
use Prim.Native.String.{String}
use mesui.Prelude.{
  ◌≡◌, refl, sym, ap, ◌∙◌, inl, inr, List, [], ◌∷◌, Option, none, some, Bytes, arith, Bool-cases,
  bytes_eq_iff,
}
use mesui.Prelude.Table.{find, replace, find-replace}
use mesui.Signal.Engine.{
  ProtocolAddress, address_key, address_same, address_same_iff, SignalResult, rejected, succeeded,
  Fault, poisoned, refused, SqlSignalStore, after, ◌>>=◌, lift, with_faults, Statement, with_conn,
}
use mesui.Signal.Identities.{
  save_identity, save_local_identity, select_identity, insert_identity, check_existing,
  new_or_unchanged, put_local, row_of, put_identity,
}
use mesui.Signal.Records.{
  RecordCodec, store_session, save_pre_key, save_signed_pre_key, save_kyber_pre_key, remove_pre_key,
  mark_kyber_pre_key_used, put_session, put_pre_key, put_signed, put_kyber, delete_pre_key,
  delete_kyber,
}
use mesui.Signal.Calls.{
  StoreCall, saves_identity, stores_session, saves_pre_key, removes_pre_key, saves_signed,
  saves_kyber, uses_kyber, saves_local, reads, step, run,
}
use mesui.Signal.Keeps.{
  with_conn_post, with_conn-Keeps, with_db-Keeps, after-Keeps, record_call-Keeps,
}

-- The identity on record for an address.
abbrev pub Pinned : ProtocolAddress → Bytes → SqlSignalStore → Type 0
Pinned address identity s = find address s.trusted_identities ≡ some identity

-- What the query found, with the table unchanged.
pub record Selected (address : ProtocolAddress) (s : SqlSignalStore)
    (r : SqlSignalStore × SignalResult (Option Bytes)) : Type 0 where
  pub unchanged : r.0.trusted_identities ≡ s.trusted_identities
  pub row : (o : Option Bytes) → r.1 ≡ succeeded o → o ≡ find address s.trusted_identities

pub select_identity_lem :
    (method : String) (address : ProtocolAddress) (s : SqlSignalStore)
    → Selected address s (select_identity method address s)
unfolding select_identity with_conn
select_identity_lem method address s = go s.faults
  where
    go :
        (faults : List (Option Fault))
        → Selected address s (select_identity method address (with_faults faults s))
    go [] = record { unchanged = refl; row = λ o e. cc }
    go (none ∷ fs) = record { unchanged = refl; row = λ o e. cc }
    go (some poisoned ∷ fs) = record { unchanged = refl; row = λ o e. cc }
    go (some (refused debug display) ∷ fs) = record { unchanged = refl; row = λ o e. cc }

module _ (decode : Bytes → SignalResult Bytes) (address : ProtocolAddress) (identity : Bytes)
    (reads_back : decode identity ≡ succeeded identity) where
  pub check_existing_same :
      (k : Bytes) → check_existing decode (some identity) k ≡ succeeded tt → k ≡ identity
  check_existing_same k h = ground (arith, bytes_eq_iff identity k)

  -- A row for the address is written only with the key that is there.
  replace-Pinned :
      (a : ProtocolAddress) (k : Bytes) (s : SqlSignalStore)
      → check_existing decode (find a s.trusted_identities) k ≡ succeeded tt
      → Pinned address identity s
      → find address (replace a k s.trusted_identities) ≡ some identity
  replace-Pinned a k s checked p = elim (Bool-cases (address_same a address)) [
    | inl t ↦
        let here : find a s.trusted_identities ≡ some identity =
          ap (λ x. find x s.trusted_identities) ((address_same_iff a address).0 t) ∙ p in
        let same : k ≡ identity =
          check_existing_same k (sym (ap (λ o. check_existing decode o k) here) ∙ checked) in
        rw (find-replace address a k s.trusted_identities, t) (ap some same)
    | inr n ↦ rw (find-replace address a k s.trusted_identities, n) p
  ]

  insert_identity-Pinned :
      (a : ProtocolAddress) (k : Bytes) (s : SqlSignalStore)
      → check_existing decode (find a s.trusted_identities) k ≡ succeeded tt
      → Pinned address identity s
      → Pinned address identity (insert_identity a k s).0
  unfolding insert_identity
  insert_identity-Pinned a k s checked p =
      with_conn_post (Pinned address identity) s (λ fs. p) "save_identity" (put_identity a k)
        (λ fs. replace-Pinned a k s checked p)

  pub save_identity-Pinned :
      (a : ProtocolAddress) (k : Bytes) (s : SqlSignalStore)
      → Pinned address identity s
      → Pinned address identity (save_identity decode a k s).0
  unfolding save_identity
  save_identity-Pinned a k s p =
      let sel = select_identity_lem "save_identity" a s in
      go (select_identity "save_identity" a s).1 (sel.row)
    where
      s' : SqlSignalStore
      s' = (select_identity "save_identity" a s).0

      kept : Pinned address identity s'
      kept = ap (find address) (select_identity_lem "save_identity" a s).unchanged ∙ p

      insert :
          (o : Option Bytes) (c : SignalResult (Unit {0}))
          → o ≡ find a s.trusted_identities
          → check_existing decode o k ≡ c
          → Pinned address identity
              (after
                (λ u t. after (λ v t. (t, succeeded new_or_unchanged)) (insert_identity a k t))
                (s', c)).0
      insert o (rejected e) h c = kept
      insert o (succeeded u) h c =
          after-Keeps (Pinned address identity) (λ v t. (t, succeeded new_or_unchanged))
            (λ v t q. q) (insert_identity a k s').0 (insert_identity a k s').1
            (insert_identity-Pinned a k s'
              (ap (λ o. check_existing decode o k)
                  (ap (find a) (select_identity_lem "save_identity" a s).unchanged ∙ sym h)
                ∙ c)
              kept)

      go :
          (r : SignalResult (Option Bytes))
          → ((o : Option Bytes) → r ≡ succeeded o → o ≡ find a s.trusted_identities)
          → Pinned address identity
              (after
                (λ existing t.
                  after
                    (λ u t. after (λ v t. (t, succeeded new_or_unchanged)) (insert_identity a k t))
                    (t, check_existing decode existing k))
                (s', r)).0
      go (rejected e) h = kept
      go (succeeded o) h = insert o (check_existing decode o k) (h o refl) refl

  module _ {R : Type 0} (codec : RecordCodec R) where
    pub step-Pinned :
        (c : StoreCall R) (s : SqlSignalStore)
        → Pinned address identity s
        → Pinned address identity (step decode codec c s)
    unfolding step store_session save_pre_key remove_pre_key save_signed_pre_key save_kyber_pre_key
        mark_kyber_pre_key_used save_local_identity select_identity
    step-Pinned c s p = call c
      where
        record_call :
            (method : String) (r : R) (put : Bytes → Statement (Unit {0}))
            → ((b : Bytes) (s : SqlSignalStore)
                → Pinned address identity s
                → Pinned address identity (put b s).0)
            → Pinned address identity
                ((lift (codec.serialize r) >>= λ b. with_conn method (put b)) s).0
        record_call method r put k =
            record_call-Keeps (Pinned address identity) (λ fs s p. p) codec method r put k s p

        direct :
            (method : String) (put : Statement (Unit {0}))
            → ((s : SqlSignalStore) → Pinned address identity s → Pinned address identity (put s).0)
            → Pinned address identity (with_conn method put s).0
        direct method put k =
            with_conn-Keeps (Pinned address identity) (λ fs s p. p) method put k s p

        call : (c : StoreCall R) → Pinned address identity (step decode codec c s)
        call (saves_identity a k) = save_identity-Pinned a k s p
        call (stores_session a r) = record_call "store_session" r (put_session a) (λ b s p. p)
        call (saves_pre_key id r) = record_call "save_pre_key" r (put_pre_key id) (λ b s p. p)
        call (removes_pre_key id) = direct "remove_pre_key" (delete_pre_key id) (λ s p. p)
        call (saves_signed id r) = record_call "save_signed_pre_key" r (put_signed id) (λ b s p. p)
        call (saves_kyber id r) = record_call "save_kyber_pre_key" r (put_kyber id) (λ b s p. p)
        call (uses_kyber id) = direct "mark_kyber_pre_key_used" (delete_kyber id) (λ s p. p)
        call (saves_local pair reg) =
            with_db-Keeps (Pinned address identity) (λ fs s p. p) (put_local pair reg) (λ s p. p) s
              p
        call (reads a) =
            with_conn-Keeps (Pinned address identity) (λ fs s p. p) "get_identity" (row_of a)
              (λ s p. p) s p

    pub run-Pinned :
        (cs : List (StoreCall R)) (s : SqlSignalStore)
        → Pinned address identity s
        → Pinned address identity (run decode codec cs s)
    unfolding run
    run-Pinned [] s p = p
    run-Pinned (c ∷ cs) s p = run-Pinned cs (step decode codec c s) (step-Pinned c s p)
