-- ===== src/Sqlcipher.antt =====
-- The opening of the encrypted databases, which `Db::open` of crates/core/src/queue.rs,
-- `ContactStore::open` of contacts.rs and `SqlSignalStore::open` of signal_store.rs share.
use Prim.Native.String.{String}
use mesui.Prelude.{
  ◌≡◌, refl, arith, Bool, true, false, Option, none, some, Bytes, bytes_eq, codes, Result, ok, db,
  Outcome, done, map_err, fail_if, ◌&&◌, not, ◌>>=◌, ◌>>◌,
}
use mesui.Contacts.{pragma_key}

abbrev pub is_none {ℓ} : {A : Type ℓ} → Option A → Bool
is_none none = true
is_none (some a) = false

-- The batches that the three execute; the last adds a column to an old file.
pub data Batch : Type 0 where
  set_key : Bytes → Batch
  schema : Batch
  add_column : Bytes → Batch

abbrev pub keyed_batch : (Batch → Outcome (Unit {0})) → Option Bytes → Result (Unit {0})
keyed_batch execute_batch none = ok tt
keyed_batch execute_batch (some k) = map_err db (execute_batch (set_key (pragma_key k)))

-- What the three begin with. `connect` opens the file, or the memory at the path `:memory:`, with what
-- is in its tables; `refusal` is the text of the error.
unfoldable pub open_encrypted :
    {S : Type 0}
    → String
    → (Bytes → Outcome S)
    → (Batch → Outcome (Unit {0}))
    → Bytes
    → Option Bytes
    → Result S
unfolding pragma_key codes
open_encrypted refusal connect execute_batch path key = do
  fail_if (is_none key && not (bytes_eq path (codes ":memory:"))) (db refusal)
  conn ← map_err db (connect path)
  keyed_batch execute_batch key
  ok conn

-- A file that was opened had a key, and the statement that sets it was executed.
pub open_encrypted_keyed :
    {S : Type 0} (refusal : String) (connect : Bytes → Outcome S)
    (execute_batch : Batch → Outcome (Unit {0})) (path : Bytes) (key : Option Bytes) (s : S)
    → open_encrypted refusal connect execute_batch path key ≡ ok s
    → bytes_eq path (codes ":memory:") ≡ false
    → (k : Bytes) × (key ≡ some k) × (execute_batch (set_key (pragma_key k)) ≡ done tt)
unfolding open_encrypted
open_encrypted_keyed refusal connect execute_batch path none s h file =
    absurd (ground (arith, h, file))
open_encrypted_keyed refusal connect execute_batch path (some k) s h file = (
  k,
  refl,
  let executed : execute_batch (set_key (pragma_key k)) ≡ done tt = ground (arith, h) in executed,
)
