-- ===== src/Handshake/Pending.antt =====
-- handshake.rs, `prekey_bundle`: the prekeys of earlier bundles that still wait for their message are
-- not overwritten.
use mesui.Prelude.{
  ◌≡◌, ◌≢◌, refl, sym, ◌∙◌, ◌<◌, ◌≤◌, ℕ, some, Bytes, codes, bytes_dec, ok, arith, u32_max, dec_lt,
}
use mesui.Prelude.Table.{nat_key, Table, find, replace, max_id, find-above, find-replace}
use mesui.Signal.Engine.{SqlSignalStore}
use mesui.Signal.Identities.{next_prekey_id, next_id, prekey_table}
use mesui.Signal.Keeps.{Faultless}
use mesui.Signal.Ids.{next_prekey_id_inv}
use mesui.Handshake.Library.{Moment, Libsignal}
use mesui.Handshake.Device.{Device, prekey_bundle}
use mesui.Handshake.Keeps.{Draws, prekey_bundle_store_leads}

pub data PrekeyKind : Type 0 where
  one_time signed_one kyber_one : PrekeyKind

abbrev pub rows_of : PrekeyKind → SqlSignalStore → Table ℕ Bytes
rows_of one_time s = s.pre_keys
rows_of signed_one s = s.signed_pre_keys
rows_of kyber_one s = s.kyber_pre_keys

find-le-max : (i : ℕ) (a : Bytes) (rows : Table ℕ Bytes) → find i rows ≡ some a → i ≤ max_id rows
find-le-max i a rows h = elim (dec_lt (max_id rows) i) [
  | yes above ↦ cc (find-above i rows above)
  | no within ↦ omega arith
]

next_id-ne :
    (i : ℕ) (a : Bytes) (rows : Table ℕ Bytes)
    → find i rows ≡ some a
    → max_id rows < u32_max
    → next_id rows ≢ i
next_id-ne i a rows h small e = ground (arith, find-le-max i a rows h)

find-replace_other :
    (i id : ℕ) (a b : Bytes) (rows : Table ℕ Bytes)
    → id ≢ i
    → find i rows ≡ some a
    → find i (replace id b rows) ≡ some a
find-replace_other i id a b rows apart h = ground (arith, find-replace i id b rows)

module _ (i : ℕ) (a : Bytes) where
  abbrev IsPending : PrekeyKind → SqlSignalStore → Type 0
  IsPending kind s = find i (rows_of kind s) ≡ some a

  abbrev HasRoom : PrekeyKind → SqlSignalStore → Type 0
  HasRoom kind s = IsPending kind s × (max_id (rows_of kind s) < u32_max)

  drawn_apart :
      (table : Bytes) (rows : Table ℕ Bytes) (s : SqlSignalStore) (id : ℕ)
      → prekey_table table s ≡ some rows
      → find i rows ≡ some a
      → max_id rows < u32_max
      → (next_prekey_id table s).1 ≡ ok id
      → id ≢ i
  drawn_apart table rows s id t h small e =
      λ same. next_id-ne i a rows h small (sym (next_prekey_id_inv table s t e) ∙ same)

  draws : (kind : PrekeyKind) → Draws (HasRoom kind) (IsPending kind)
  unfolding codes bytes_dec
  draws one_time = record {
    One = λ id. id ≢ i;
    Signed = λ id. Unit {0};
    Kyber = λ id. Unit {0};
    weaken = λ s p. p.0;
    one = λ s id p e. drawn_apart (codes "pre_keys") s.pre_keys s id refl p.0 p.1 e;
    signed = λ s id p e. tt;
    kyber = λ s id p e. tt;
    put_one = λ id b s u p. find-replace_other i id a b s.pre_keys u p;
    put_signed_row = λ id b s u p. p;
    put_kyber_row = λ id b s u p. p;
  }
  draws signed_one = record {
    One = λ id. Unit {0};
    Signed = λ id. id ≢ i;
    Kyber = λ id. Unit {0};
    weaken = λ s p. p.0;
    one = λ s id p e. tt;
    signed =
        λ s id p e. drawn_apart (codes "signed_pre_keys") s.signed_pre_keys s id refl p.0 p.1 e;
    kyber = λ s id p e. tt;
    put_one = λ id b s u p. p;
    put_signed_row = λ id b s u p. find-replace_other i id a b s.signed_pre_keys u p;
    put_kyber_row = λ id b s u p. p;
  }
  draws kyber_one = record {
    One = λ id. Unit {0};
    Signed = λ id. Unit {0};
    Kyber = λ id. id ≢ i;
    weaken = λ s p. p.0;
    one = λ s id p e. tt;
    signed = λ s id p e. tt;
    kyber = λ s id p e. drawn_apart (codes "kyber_pre_keys") s.kyber_pre_keys s id refl p.0 p.1 e;
    put_one = λ id b s u p. p;
    put_signed_row = λ id b s u p. p;
    put_kyber_row = λ id b s u p. find-replace_other i id a b s.kyber_pre_keys u p;
  }

faultless_room : (i : ℕ) (a : Bytes) (kind : PrekeyKind) → Faultless (HasRoom i a kind)
faultless_room i a one_time fs s p = p
faultless_room i a signed_one fs s p = p
faultless_room i a kyber_one fs s p = p

faultless_pending : (i : ℕ) (a : Bytes) (kind : PrekeyKind) → Faultless (IsPending i a kind)
faultless_pending i a one_time fs s p = p
faultless_pending i a signed_one fs s p = p
faultless_pending i a kyber_one fs s p = p

-- Showing a bundle overwrites no one-time, signed or Kyber prekey that is on record, whatever is drawn
-- and whichever calls the engine refuses. The greatest id of that kind is below the greatest u32.
pub pending_stays :
    {R M : Type 0} (lib : Libsignal R M) (kind : PrekeyKind) (i : ℕ) (a : Bytes)
    (moments : ℕ → Moment) (d : Device)
    → find i (rows_of kind d.store) ≡ some a
    → max_id (rows_of kind d.store) < u32_max
    → find i (rows_of kind (prekey_bundle lib moments d).0.store) ≡ some a
unfolding prekey_bundle
pending_stays lib kind i a moments d h small =
    prekey_bundle_store_leads lib (HasRoom i a kind) (IsPending i a kind) (faultless_room i a kind)
      (faultless_pending i a kind) (draws i a kind) moments d.store (h, small)
