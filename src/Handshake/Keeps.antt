-- ===== src/Handshake/Keeps.antt =====
-- handshake.rs: what a chain of calls on the store leaves true.
use mesui.Prelude.{◌≡◌, refl, config, Option, none, some, Bytes, ℕ, Result, ok, err, codes}
use mesui.Prelude.Table.{Table}
use mesui.Signal.Engine.{SqlSignalStore, SignalResult, with_conn, with_db, lift}
use mesui.Signal.Identities.{
  next_prekey_id, next_id, prekey_table, get_identity_key_pair, get_local_registration_id, pair_of,
  registration_of,
}
use mesui.Signal.Records.{
  save_pre_key, save_signed_pre_key, save_kyber_pre_key, put_pre_key, put_signed, put_kyber,
}
use mesui.Signal.Keeps.{
  Faultless, Keeps, with_conn-Keeps, with_db-Keeps, bind-Keeps, lift-Keeps, record_call-Keeps,
}
use mesui.Handshake.Library.{Moment, Libsignal}
use mesui.Handshake.Device.{
  one_time_key, signed_key, kyber_key, assemble, register, save_kyber, save_signed, save_keys,
  sign_keys, sign_and_save, draw_kyber_id, draw_signed_id, draw_ids, StoreAction, continue_with,
  ◌>>=◌, give, block, prekey_bundle_store,
}

abbrev pub KeepsIt : (SqlSignalStore → Type 0) → {A : Type 0} → StoreAction A → Type 0
KeepsIt P m = (s : SqlSignalStore) → P s → P (m s).0

module _ (P : SqlSignalStore → Type 0) where
  continue-Keeps :
      {A B : Type 0} (f : A → StoreAction B)
      → ((a : A) → KeepsIt P (f a))
      → (s : SqlSignalStore) (r : Result A) → P s
      → P (continue_with f (s, r)).0
  continue-Keeps f k s (ok a) p = k a s p
  continue-Keeps f k s (err e) p = p

  pub chain-Keeps :
      {A B : Type 0} (m : StoreAction A) (f : A → StoreAction B)
      → KeepsIt P m
      → ((a : A) → KeepsIt P (f a))
      → KeepsIt P (m >>= f)
  chain-Keeps m f h k s p = continue-Keeps f k (m s).0 (m s).1 (h s p)

-- A chain whose first call keeps `P`, and the rest of which leads to `After`; what is known of the value
-- goes along.
pub chain_with :
    (P After : SqlSignalStore → Type 0)
    → ((s : SqlSignalStore) → P s → After s)
    → {A B : Type 0} (m : StoreAction A) (f : A → StoreAction B) (Q : A → Type 0) → KeepsIt P m
    → ((s : SqlSignalStore) (a : A) → P s → (m s).1 ≡ ok a → Q a)
    → ((a : A) → Q a → (s : SqlSignalStore) → P s → After (f a s).0)
    → (s : SqlSignalStore) → P s
    → After ((m >>= f) s).0
chain_with P After weaken {A} {B} m f Q h q k s p = go (m s).1 (λ a e. q s a p e)
  where
    go : (r : Result A) → ((a : A) → r ≡ ok a → Q a) → After (continue_with f ((m s).0, r)).0
    go (ok a) q' = k a (q' a refl) (m s).0 (h s p)
    go (err e) q' = weaken (m s).0 (h s p)

module _ (P : SqlSignalStore → Type 0) (faultless : Faultless P) where
  pub next_prekey_id-Keeps : (table : Bytes) → KeepsIt P (next_prekey_id table)
  unfolding next_prekey_id
  next_prekey_id-Keeps table s p = pick (prekey_table table s)
    where
      pick :
          (o : Option (Table ℕ Bytes))
          → P
              (elim o as (λ o. SqlSignalStore × Result ℕ) [
                | none ↦ (s, err (config "unknown prekey table"))
                | some rows ↦ with_db (λ s. (s, next_id rows)) s
              ]).0
      pick none = p
      pick (some rows) = with_db-Keeps P faultless (λ s. (s, next_id rows)) (λ s p. p) s p

  pub get_identity_key_pair-Keeps :
      (decode_pair : Bytes → SignalResult Bytes) → Keeps P (get_identity_key_pair decode_pair)
  unfolding get_identity_key_pair
  get_identity_key_pair-Keeps decode_pair =
      bind-Keeps P (with_conn "get_identity_key_pair" pair_of) (λ row. lift (decode_pair row))
        (with_conn-Keeps P faultless "get_identity_key_pair" pair_of (λ s p. p))
        (λ row. lift-Keeps P (decode_pair row))

  pub get_local_registration_id-Keeps : Keeps P get_local_registration_id
  unfolding get_local_registration_id
  get_local_registration_id-Keeps =
      with_conn-Keeps P faultless "get_local_registration_id" registration_of (λ s p. p)

-- What is known of the ids that `prekey_bundle` draws while `P` holds, and what the rows that it writes
-- keep.
pub record Draws (P After : SqlSignalStore → Type 0) : Type 1 where
  pub One : ℕ → Type 0
  pub Signed : ℕ → Type 0
  pub Kyber : ℕ → Type 0
  pub weaken : (s : SqlSignalStore) → P s → After s
  pub one :
      (s : SqlSignalStore) (id : ℕ) → P s → (next_prekey_id (codes "pre_keys") s).1 ≡ ok id → One id
  pub signed :
      (s : SqlSignalStore) (id : ℕ)
      → P s
      → (next_prekey_id (codes "signed_pre_keys") s).1 ≡ ok id
      → Signed id
  pub kyber :
      (s : SqlSignalStore) (id : ℕ)
      → P s
      → (next_prekey_id (codes "kyber_pre_keys") s).1 ≡ ok id
      → Kyber id
  pub put_one :
      (id : ℕ) (b : Bytes) (s : SqlSignalStore) → One id → After s → After (put_pre_key id b s).0
  pub put_signed_row :
      (id : ℕ) (b : Bytes) (s : SqlSignalStore) → Signed id → After s → After (put_signed id b s).0
  pub put_kyber_row :
      (id : ℕ) (b : Bytes) (s : SqlSignalStore) → Kyber id → After s → After (put_kyber id b s).0

module _ {R M : Type 0} (lib : Libsignal R M) (P After : SqlSignalStore → Type 0)
    (faultless : Faultless P) (faultless_after : Faultless After) (d : Draws P After)
    (moments : ℕ → Moment) (pair : Bytes) where
  module _ (ids : ℕ × ℕ × ℕ) (o : d.One ids.0) (n : d.Signed ids.1) (k : d.Kyber ids.2) where
    save_keys-Keeps : (sigs : Bytes × Bytes) → KeepsIt After (save_keys lib moments pair ids sigs)
    unfolding save_pre_key save_signed_pre_key save_kyber_pre_key
    save_keys-Keeps sigs =
        chain-Keeps After
          (block lib
            (save_pre_key lib.codec ids.0 (lib.new_pre_key ids.0 (one_time_key lib moments))))
          (λ _. save_signed lib moments pair ids sigs)
          (record_call-Keeps After faultless_after lib.codec "save_pre_key"
            (lib.new_pre_key ids.0 (one_time_key lib moments)) (put_pre_key ids.0)
            (λ b s p. d.put_one ids.0 b s o p))
          λ _.
            chain-Keeps After
              (block lib (
                save_signed_pre_key lib.codec ids.1
                  (lib.new_signed_pre_key ids.1 (moments 5) (signed_key lib moments) sigs.0)))
              (λ _. save_kyber lib moments pair ids sigs)
              (record_call-Keeps After faultless_after lib.codec "save_signed_pre_key"
                (lib.new_signed_pre_key ids.1 (moments 5) (signed_key lib moments) sigs.0)
                (put_signed ids.1) (λ b s p. d.put_signed_row ids.1 b s n p))
              λ _.
                chain-Keeps After
                  (block lib (
                    save_kyber_pre_key lib.codec ids.2
                      (lib.new_signed_pre_key ids.2 (moments 6) (kyber_key lib moments) sigs.1)))
                  (λ _. register lib moments pair ids sigs)
                  (record_call-Keeps After faultless_after lib.codec "save_kyber_pre_key"
                    (lib.new_signed_pre_key ids.2 (moments 6) (kyber_key lib moments) sigs.1)
                    (put_kyber ids.2) (λ b s p. d.put_kyber_row ids.2 b s k p))
                  λ _.
                    chain-Keeps After (block lib get_local_registration_id)
                      (λ reg. give (assemble lib moments pair ids sigs reg))
                      (get_local_registration_id-Keeps After faultless_after) (λ reg s p. p)

    sign_and_save-Keeps : KeepsIt After (sign_and_save lib moments pair ids)
    sign_and_save-Keeps s p =
        continue-Keeps After (save_keys lib moments pair ids) save_keys-Keeps s
          (sign_keys lib moments pair) p

  draw_ids_lead : (s : SqlSignalStore) → P s → After (draw_ids lib moments pair s).0
  draw_ids_lead =
      chain_with P After d.weaken (next_prekey_id (codes "pre_keys"))
        (draw_signed_id lib moments pair) d.One
        (next_prekey_id-Keeps P faultless (codes "pre_keys")) d.one
        λ pk o.
          chain_with P After d.weaken (next_prekey_id (codes "signed_pre_keys"))
            (draw_kyber_id lib moments pair pk) d.Signed
            (next_prekey_id-Keeps P faultless (codes "signed_pre_keys")) d.signed
            λ spk n.
              chain_with P After d.weaken (next_prekey_id (codes "kyber_pre_keys"))
                (λ kpk. sign_and_save lib moments pair (pk, spk, kpk)) d.Kyber
                (next_prekey_id-Keeps P faultless (codes "kyber_pre_keys")) d.kyber
                λ kpk k s p. sign_and_save-Keeps (pk, spk, kpk) o n k s (d.weaken s p)

module _ {R M : Type 0} (lib : Libsignal R M) (P After : SqlSignalStore → Type 0)
    (faultless : Faultless P) (faultless_after : Faultless After) (d : Draws P After) where
  pub prekey_bundle_store_leads :
      (moments : ℕ → Moment) (s : SqlSignalStore)
      → P s
      → After (prekey_bundle_store lib moments s).0
  unfolding prekey_bundle_store
  prekey_bundle_store_leads moments =
      chain_with P After d.weaken (block lib (get_identity_key_pair lib.decode_pair))
        (draw_ids lib moments) (λ pair. Unit {0})
        (get_identity_key_pair-Keeps P faultless lib.decode_pair) (λ s pair p e. tt)
        (λ pair u. draw_ids_lead lib P After faultless faultless_after d moments pair)
