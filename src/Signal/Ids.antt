-- ===== src/Signal/Ids.antt =====
-- signal_store.rs, `next_prekey_id`: the id is free, and it is not always a new one.
use mesui.Prelude.{
  ◌≡◌, refl, ◌<◌, ◌≤◌, ℕ, suc, Option, none, some, List, [], ◌∷◌, Bytes, codes, Result, ok, err,
  config, bytes_dec, subst, arith, u32_max,
}
use mesui.Prelude.Table.{nat_key, Table, find, replace, erase, max_id, find-above}
use mesui.Signal.Engine.{
  SqlSignalStore, succeeded, with_faults, Fault, poisoned, refused, with_db, with_conn,
}
use mesui.Signal.Records.{RecordCodec, put_pre_key, save_pre_key, remove_pre_key}
use mesui.Signal.Identities.{next_prekey_id, next_id, prekey_table}

some_injective : {a b : Table ℕ Bytes} → some a ≡ some b → a ≡ b
some_injective e = cc

pub next_prekey_id_inv :
    (table : Bytes) (s : SqlSignalStore) {rows : Table ℕ Bytes} {id : ℕ}
    → prekey_table table s ≡ some rows
    → (next_prekey_id table s).1 ≡ ok id
    → id ≡ next_id rows
unfolding next_prekey_id with_db
next_prekey_id_inv table s {rows} {id} t h = pick (prekey_table table s) t h
  where
    served :
        (faults : List (Option Fault))
        → (with_db (λ s. (s, next_id rows)) (with_faults faults s)).1 ≡ ok id
        → id ≡ next_id rows
    served [] k = cc
    served (none ∷ fs) k = cc
    served (some poisoned ∷ fs) k = cc
    served (some (refused debug display) ∷ fs) k = cc

    pick :
        (o : Option (Table ℕ Bytes))
        → o ≡ some rows
        → (elim o as (λ o. SqlSignalStore × Result ℕ) [
          | none ↦ (s, err (config "unknown prekey table"))
          | some rows ↦ with_db (λ s. (s, next_id rows)) s
        ]).1
          ≡ ok id
        → id ≡ next_id rows
    pick none e k = cc
    pick (some rows') e k =
        served s.faults
          (subst (λ rs. (with_db (λ s. (s, next_id rs)) s).1 ≡ ok id) (some_injective e) k)

-- While the greatest id of the table is below the greatest u32, the id that is given out is free.
pub next_prekey_id_free :
    (table : Bytes) (s : SqlSignalStore) (rows : Table ℕ Bytes) (id : ℕ)
    → prekey_table table s ≡ some rows
    → max_id rows < u32_max
    → (next_prekey_id table s).1 ≡ ok id
    → (find id rows ≡ none) × (0 < id) × (id ≤ u32_max)
next_prekey_id_free table s rows id t small h =
    let e = next_prekey_id_inv table s t h in
    let n : id ≡ suc (max_id rows) = ground (arith, e) in
    (find-above id rows (omega arith), omega arith, omega arith)

-- Replacing the row of a new id and deleting it again leaves the greatest id as it was.
max_id-erase-replace :
    (id : ℕ) (b : Bytes) (rows : Table ℕ Bytes)
    → max_id rows < id
    → max_id (erase id (replace id b rows)) ≡ max_id rows
unfolding max_id erase replace
max_id-erase-replace id b [] h = ground arith
max_id-erase-replace id b ((j, w) ∷ rows) h = ground (arith, max_id-erase-replace id b rows)

module _ {R : Type 0} (codec : RecordCodec R) where
  save_pre_key_quiet :
      (s : SqlSignalStore) (r : R) (b : Bytes) (id : ℕ)
      → codec.serialize r ≡ succeeded b
      → (save_pre_key codec id r (with_faults [] s)).0 ≡ (put_pre_key id b (with_faults [] s)).0
  unfolding save_pre_key with_conn
  save_pre_key_quiet s r b id written = rw written refl

  -- If an engine refuses nothing, an id that was given out for a one-time prekey, and whose prekey was
  -- saved and then removed, is given out once more. The greatest id is below the greatest u32.
  pub prekey_id_again :
      (s : SqlSignalStore) (r : R) (b : Bytes) (id : ℕ)
      → codec.serialize r ≡ succeeded b
      → max_id s.pre_keys < u32_max
      → (next_prekey_id (codes "pre_keys") (with_faults [] s)).1 ≡ ok id
      → (next_prekey_id
          (codes "pre_keys")
          (remove_pre_key id (save_pre_key codec id r (with_faults [] s)).0).0).1
        ≡ ok id
  unfolding next_prekey_id remove_pre_key with_db with_conn codes bytes_dec
  prekey_id_again s r b id written small h =
      let e = next_prekey_id_inv (codes "pre_keys") (with_faults [] s) refl h in
      let above : max_id s.pre_keys < id = ground (arith, e) in
      let same = max_id-erase-replace id b s.pre_keys above in
      rw (save_pre_key_quiet s r b id written) (rw same (ground (arith, e)))
