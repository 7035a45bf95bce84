-- ===== src/Queue/Rows.antt =====
-- queue.rs: the rows of the outbox, and their reading back with its checks.
use mesui.Prelude.{
  ℕ, ◌%◌, ◌^◌, not, Option, none, some, List, [], ◌∷◌, Bytes, ◌==◌, length, Result, ok, err, db,
  ◌>>=◌, ◌>>◌, fail_if, CoreError, if◌then◌else◌,
}

pub data RowState : Type 0 where
  pending sent dead : RowState

-- A row of `outbox`. The two time columns are never negative: every value is clamped before it is
-- written.
pub record Row : Type 0 where
  pub msg_id : Bytes
  pub recipient : Option Bytes
  pub group_id : Option Bytes
  pub kind : ℕ
  pub body : Bytes
  pub state : RowState
  pub attempts : ℕ
  pub next_attempt_ms : ℕ
  pub created_ms : ℕ

pub record PendingRow : Type 0 where
  pub msg_id : Bytes
  pub recipient : Option Bytes
  pub group_id : Option Bytes
  pub kind : ℕ
  pub body : Bytes
  pub attempts : ℕ

-- `Option<Vec<u8>>` to `Option<[u8; 32]>`.
unfoldable pub sized32 : Option Bytes → CoreError → Result (Option Bytes)
sized32 none e = ok none
sized32 (some v) e = if length v == 32 then ok (some v) else err e

unfoldable pub row_to_pending : Row → Result PendingRow
unfolding sized32
row_to_pending r = do
  fail_if (not (length r.msg_id == 16)) (db "Invalid column type msg_id")
  recipient ← sized32 r.recipient (db "Invalid column type recipient")
  group_id ← sized32 r.group_id (db "Invalid column type group_id")
  ok (record {
    msg_id = r.msg_id;
    recipient = recipient;
    group_id = group_id;
    kind = r.kind % 256;
    body = r.body;
    attempts = r.attempts % 2 ^ 32;
  })

-- `collect` into a `Result`: the first error ends it.
unfoldable pub collect : List Row → Result (List PendingRow)
unfolding row_to_pending
collect [] = ok []
collect (r ∷ rs) = do ok ((← row_to_pending r) ∷ (← collect rs))
