-- ===== src/Queue/Tests.antt =====
-- The theorems on the queue at a concrete database.
use mesui.Prelude.{
  ◌+◌, ◌≤◌, ◌<◌, ◌≡◌, ◌≢◌, refl, true, false, none, some, List, [], ◌∷◌, Bytes, replicate, All,
  arith, ok, bytes_dec, retain, any, from_be, done,
}
use mesui.Prelude.Map.{get, insert}
use mesui.Prelude.Sort.{sort, insert_sorted}
use mesui.Retry.{default_policy, next_delay_ms, delay_cap, exhausted}
use mesui.Queue.{
  Db, Row, PendingRow, pending, call, clamp_ms, has_id, update, mark_sent, attempts_of,
  fail_and_reschedule, due, record_seen, row_to_pending, sized32, collect,
}
use mesui.Queue.Seen.{SeenCall, records, prunes, seen_once}
use mesui.Queue.Seen
use mesui.Queue.Backoff.{NotFor, backoff_respected}
use mesui.Queue.Outbox.{OutboxCall, enqueues, fails, marks_sent, sent_not_due, dead_not_due}
use mesui.Queue.Outbox

abbrev id : Bytes
id = replicate 16 1

abbrev other : Bytes
other = replicate 16 2

abbrev row : Row
row = record {
  msg_id = id;
  recipient = some (replicate 32 3);
  group_id = none;
  kind = 1;
  body = 104 ∷ [];
  state = pending;
  attempts = 0;
  next_attempt_ms = 0;
  created_ms = 500;
}

-- The second of the calls to come is refused.
abbrev empty : Db
empty = record { outbox = []; inbox_seen = []; faults = none ∷ some "disk I/O error" ∷ [] }

abbrev stocked : Db
stocked = record { outbox = row ∷ record row { msg_id = other } ∷ []; inbox_seen = []; faults = [] }

first_seen : (record_seen id 1_000 empty).1 ≡ ok true
unfolding record_seen call clamp_ms insert get bytes_dec
first_seen = refl

spared : 900 ≤ clamp_ms 1_000
unfolding clamp_ms
spared = omega arith

seen_once_example :
    (record_seen id 9_000
      (Seen.run (records other 2_000 ∷ prunes 900 ∷ []) (record_seen id 1_000 empty).0)).1
    ≢ ok true
seen_once_example =
    seen_once id 1_000 9_000 (records other 2_000 ∷ prunes 900 ∷ []) empty first_seen (spared, tt)

rescheduled :
    (fail_and_reschedule id default_policy 10_000 (done (replicate 8 0)) stocked).1 ≡ ok false
unfolding fail_and_reschedule call update clamp_ms attempts_of next_delay_ms delay_cap exhausted
    from_be bytes_dec
rescheduled = refl

abbrev other_pending : PendingRow
other_pending = record {
  msg_id = other;
  recipient = some (replicate 32 3);
  group_id = none;
  kind = 1;
  body = 104 ∷ [];
  attempts = 0;
}

due_meanwhile :
    (due 11_000 10
      (fail_and_reschedule id default_policy 10_000 (done (replicate 8 0)) stocked).0).1
    ≡ ok (other_pending ∷ [])
unfolding fail_and_reschedule call update clamp_ms attempts_of next_delay_ms delay_cap exhausted
    from_be due sort insert_sorted retain collect row_to_pending sized32 bytes_dec
due_meanwhile = refl

soon : 11_000 < clamp_ms (10_000 + 2_000)
unfolding clamp_ms
soon = omega arith

backoff_respected_example : All (NotFor id) (other_pending ∷ [])
backoff_respected_example =
    backoff_respected id default_policy 10_000 11_000 10 (done (replicate 8 0)) stocked rescheduled
      soon due_meanwhile

there : any (has_id id) stocked.outbox ≡ true
unfolding any bytes_dec
there = refl

marked : (mark_sent id stocked).1 ≡ ok tt
unfolding mark_sent call
marked = refl

abbrev calls : List OutboxCall
calls = fails id default_policy 20_000 (done (replicate 8 0)) ∷ marks_sent other ∷ []

due_after_sent : (due 99_000 10 (Outbox.run calls (mark_sent id stocked).0)).1 ≡ ok []
unfolding mark_sent Outbox.run Outbox.step fail_and_reschedule call update clamp_ms attempts_of
    next_delay_ms delay_cap exhausted from_be due sort insert_sorted retain collect row_to_pending
    sized32 bytes_dec
due_after_sent = refl

sent_not_due_example : All (NotFor id) []
sent_not_due_example = sent_not_due id calls 99_000 10 stocked there marked tt due_after_sent

abbrev worn : Db
worn = record stocked { outbox = record row { attempts = 7 } ∷ [] }

died : (fail_and_reschedule id default_policy 10_000 (done []) worn).1 ≡ ok true
unfolding fail_and_reschedule call update clamp_ms attempts_of exhausted bytes_dec
died = refl

due_after_death :
    (due 99_000 10
      (Outbox.run calls (fail_and_reschedule id default_policy 10_000 (done []) worn).0)).1
    ≡ ok []
unfolding mark_sent Outbox.run Outbox.step fail_and_reschedule call update clamp_ms attempts_of
    next_delay_ms delay_cap exhausted from_be due sort insert_sorted retain collect row_to_pending
    sized32 bytes_dec
due_after_death = refl
