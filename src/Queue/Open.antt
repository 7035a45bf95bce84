-- ===== src/Queue/Open.antt =====
-- queue.rs, `Db::open`.
use mesui.Prelude.{Option, Bytes, Result, ok, db, Outcome, map_err, ◌>>=◌, ◌>>◌}
use mesui.Sqlcipher.{Batch, schema, open_encrypted}
use mesui.Queue.{Db}

unfoldable pub open_db :
    (Bytes → Outcome Db) → (Batch → Outcome (Unit {0})) → Bytes → Option Bytes → Result Db
unfolding open_encrypted
open_db connect execute_batch path key = do
  conn ←
      open_encrypted "refusing to create unencrypted database: key required (strict mode)" connect
        execute_batch path key
  map_err db (execute_batch schema)
  ok conn
