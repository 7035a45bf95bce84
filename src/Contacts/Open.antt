-- ===== src/Contacts/Open.antt =====
-- contacts.rs, `ContactStore::open`.
use mesui.Prelude.{
  Option, List, [], ◌∷◌, Bytes, codes, Result, ok, db, Outcome, map_err, ◌>>=◌, ◌>>◌,
}
use mesui.Contacts.{ContactStore}
use mesui.Sqlcipher.{Batch, schema, add_column, open_encrypted}

-- The columns that a file of an earlier version lacks; what comes back of adding them is not looked at.
abbrev pub migrations : List Batch
migrations = add_column (codes "node_id") ∷ add_column (codes "node_naddr") ∷ []

-- `busy_timeout` sets the five seconds; `migrate` is what the migrations make of the file.
unfoldable pub open_contacts :
    (Bytes → Outcome ContactStore)
    → (Batch → Outcome (Unit {0}))
    → Outcome (Unit {0})
    → (List Batch → ContactStore → ContactStore)
    → Bytes
    → Option Bytes
    → Result ContactStore
unfolding open_encrypted codes
open_contacts connect execute_batch busy_timeout migrate path key = do
  conn ←
      open_encrypted "refusing to create unencrypted contact store: key required (strict mode)"
        connect execute_batch path key
  map_err db busy_timeout
  map_err db (execute_batch schema)
  ok (migrate migrations conn)
