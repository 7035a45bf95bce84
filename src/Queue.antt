-- ===== src/Queue.antt =====
-- crates/core/src/queue.rs: the outbox and the ledger of received ids, in an encrypted SQLite database.
-- The tables are lists of rows in order of insertion, and a statement does what its SQL says, in one
-- step or not at all. Whether the engine carries out a call is an input: `faults` holds, call after
-- call, the text of its error or `none`; past its end every call succeeds.
mod Rows
pub mod Calls
pub mod Seen
pub mod Reschedule
pub mod Backoff
pub mod Settled
pub mod Outbox
pub mod Open
mod Tests
use Prim.Native.String.{String}
use mesui.Prelude.{
  ℕ, suc, ◌+◌, ◌%◌, ◌^◌, Bool, true, false, not, Option, none, some, List, [], ◌∷◌, ◌++◌, Bytes,
  bytes_eq, ltb, leb, ◌==◌, if◌then◌else◌, ◌&&◌, length, take, retain, any, i64_max, saturating_add,
  Result, ok, err, db, Outcome, ◌-◌, min, CoreError, map,
}
use mesui.Prelude.Map.{Map, contains_key, insert}
use mesui.Prelude.Sort.{sort}
use mesui.Envelope.{Envelope, kind_byte}
pub use Rows.{RowState, pending, sent, dead, Row, PendingRow}
unfoldable pub use Rows.{sized32, row_to_pending, collect}
use mesui.Retry.{RetryPolicy, next_delay_ms, exhausted}

pub record Db : Type 0 where
  pub outbox : List Row
  pub inbox_seen : Map ℕ
  pub faults : List (Option String)

-- An action on the database, with its result.
abbrev pub Action : Type 0 → Type 0
Action A = Db → Db × Result A

abbrev pub after : {A B : Type 0} → (A → Action B) → Db × Result A → Db × Result B
after f (d, ok a) = f a d
after f (d, err e) = (d, err e)

infixl 5 ◌>>=◌ ◌>>◌
abbrev pub ◌>>=◌ : {A B : Type 0} → Action A → (A → Action B) → Action B
◌>>=◌ m f d = after f (m d)

abbrev pub ◌>>◌ : {A B : Type 0} → Action A → Action B → Action B
m >> k = m >>= λ _. k

abbrev pub pure : {A : Type 0} → A → Action A
pure a d = (d, ok a)

abbrev pub lift : {A : Type 0} → Result A → Action A
lift r d = (d, r)

-- A call of the engine: on a fault nothing but the fault list changes.
unfoldable pub call : {A : Type 0} → Action A → Action A
call run d = elim d.faults [
  | [] ↦ run d
  | f ∷ fs ↦ elim f [
    | none ↦ run (record d { faults = fs })
    | some e ↦ (record d { faults = fs }, err (db e))
  ]
]

unfoldable pub clamp_ms : ℕ → ℕ
clamp_ms v = min v i64_max

-- `column <= (v as i64)` and `column < (v as i64)`: from 2^63 on the cast is negative.
abbrev pub le_cast : ℕ → ℕ → Bool
le_cast column v = leb v i64_max && leb column v

abbrev pub lt_cast : ℕ → ℕ → Bool
lt_cast column v = leb v i64_max && ltb column v

abbrev pub has_id : Bytes → Row → Bool
has_id id r = bytes_eq r.msg_id id

unfoldable pub new_row : Envelope → Row
unfolding clamp_ms kind_byte
new_row env = record {
  msg_id = env.msg_id;
  recipient = env.recipient;
  group_id = env.group;
  kind = kind_byte env.kind;
  body = env.body;
  state = pending;
  attempts = 0;
  next_attempt_ms = 0;
  created_ms = clamp_ms env.sent_at_ms;
}

-- INSERT OR IGNORE
unfoldable pub enqueue : Envelope → Action (Unit {0})
unfolding call
enqueue env = call λ d. (
  if any (has_id env.msg_id) d.outbox
      then d
      else record d { outbox = d.outbox ++ new_row env ∷ [] },
  ok tt,
)

abbrev pub is_pending : Row → Bool
is_pending r = elim r.state [ pending ↦ true | _ ↦ false ]

abbrev pub is_dead : Row → Bool
is_dead r = elim r.state [ dead ↦ true | _ ↦ false ]

abbrev pub by_creation : Row → Row → Bool
by_creation r s = leb r.created_ms s.created_ms

unfoldable pub pending_rows : ℕ → Action (List PendingRow)
unfolding call
pending_rows limit =
    call λ d. (d, collect (take limit (sort by_creation (retain is_pending d.outbox))))

-- UPDATE … WHERE msg_id=?1
unfoldable pub update : Bytes → (Row → Row) → List Row → List Row
update id f [] = []
update id f (r ∷ rs) = (if has_id id r then f r else r) ∷ update id f rs

unfoldable pub mark_sent : Bytes → Action (Unit {0})
unfolding call update
mark_sent id =
    call λ d. (record d { outbox = update id (λ r. record r { state = sent }) d.outbox }, ok tt)

-- SELECT attempts … WHERE msg_id=?1
unfoldable pub attempts_of : Bytes → List Row → Result ℕ
attempts_of id [] = err (db "Query returned no rows")
attempts_of id (r ∷ rs) = if has_id id r then ok r.attempts else attempts_of id rs

abbrev pub bury : ℕ → Row → Row
bury n r = record r { state = dead; attempts = n }

abbrev pub postpone : ℕ → ℕ → Row → Row
postpone n at r = record r { attempts = n; next_attempt_ms = at }

-- What follows the SELECT. The last argument is what `getrandom::fill` makes of the buffer for the
-- jitter.
abbrev pub give_up_or_wait : Bytes → RetryPolicy → ℕ → Outcome Bytes → ℕ → Action Bool
give_up_or_wait id policy now_ms filled attempts =
    if exhausted policy attempts
    then call (λ d. (record d { outbox = update id (bury attempts) d.outbox }, ok true))
    else do
      delay ← lift (next_delay_ms policy attempts filled)
      let next_attempt = clamp_ms (saturating_add now_ms delay)
      call (λ d.
          (record d { outbox = update id (postpone attempts next_attempt) d.outbox }, ok false))

unfoldable pub fail_and_reschedule : Bytes → RetryPolicy → ℕ → Outcome Bytes → Action Bool
fail_and_reschedule id policy now_ms filled = do
  stored ← call (λ d. (d, attempts_of id d.outbox))
  give_up_or_wait id policy now_ms filled ((stored % 2 ^ 32 + 1) % 2 ^ 32)

abbrev pub is_due : ℕ → Row → Bool
is_due now_ms r = is_pending r && le_cast r.next_attempt_ms now_ms

unfoldable pub due : ℕ → ℕ → Action (List PendingRow)
unfolding call
due now_ms limit =
    call λ d. (d, collect (take limit (sort by_creation (retain (is_due now_ms) d.outbox))))

unfoldable pub revive : Bytes → Action (Unit {0})
unfolding call update
revive id = call λ d. (
  record d {
    outbox =
        update id (λ r. record r { state = pending; attempts = 0; next_attempt_ms = 0 }) d.outbox;
  },
  ok tt,
)

unfoldable pub record_seen : Bytes → ℕ → Action Bool
unfolding call clamp_ms
record_seen id now_ms = call λ d.
    if contains_key id d.inbox_seen
    then (d, ok false)
    else (record d { inbox_seen = insert id (clamp_ms now_ms) d.inbox_seen }, ok true)

-- The test of the DELETE, for the rows that stay.
abbrev pub stays : ℕ → Bytes × ℕ → Bool
stays before_ms e = not (lt_cast e.1 before_ms)

unfoldable pub prune_seen : ℕ → Action ℕ
unfolding call
prune_seen before_ms = call λ d.
    let kept = retain (stays before_ms) d.inbox_seen in
    (record d { inbox_seen = kept }, ok (length d.inbox_seen - length kept))

unfoldable pub stats : Action (ℕ × ℕ × ℕ)
unfolding call
stats = do
  p ← call (λ d. (d, ok (length (retain is_pending d.outbox))))
  q ← call (λ d. (d, ok (length (retain is_dead d.outbox))))
  s ← call (λ d. (d, ok (length d.inbox_seen)))
  pure (p % 2 ^ 32, q % 2 ^ 32, s % 2 ^ 32)
