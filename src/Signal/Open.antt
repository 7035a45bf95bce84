-- ===== src/Signal/Open.antt =====
-- signal_store.rs, `SqlSignalStore::open`.
use mesui.Prelude.{Option, Bytes, Result, ok, db, Outcome, map_err, ◌>>=◌, ◌>>◌}
use mesui.Sqlcipher.{Batch, schema, open_encrypted}
use mesui.Signal.Engine.{SqlSignalStore}

unfoldable pub open_store :
    (Bytes → Outcome SqlSignalStore)
    → (Batch → Outcome (Unit {0}))
    → Bytes
    → Option Bytes
    → Result SqlSignalStore
unfolding open_encrypted
open_store connect execute_batch path key = do
  conn ←
      open_encrypted "refusing to create unencrypted signal store: key required (strict mode)"
        connect execute_batch path key
  map_err db (execute_batch schema)
  ok conn
