-- ===== src/Queue/Outbox.antt =====
-- queue.rs: the life of a message in the outbox, over any sequence of calls.
use mesui.Prelude.{
  ℕ, ◌≡◌, refl, ap, ◌∙◌, ◌≢◌, true, false, List, [], ◌∷◌, Bytes, arith, any, All, ok, Outcome, inl,
  inr,
}
use mesui.Envelope.{Envelope}
use mesui.Retry.{RetryPolicy}
use mesui.Queue.Calls.{call_ok}
use mesui.Queue.Backoff.{due-NotFor, NotFor}
use mesui.Queue.{
  Db, Action, Row, PendingRow, sent, has_id, update, attempts_of, bury, fail_and_reschedule,
  is_pending, is_due, due, enqueue, mark_sent, revive,
}
use mesui.Queue.Reschedule.{next_attempt, fail_and_reschedule-Effect}
use mesui.Queue.Settled.{
  Finished, mark_sent-Finished, revive-Finished, enqueue-Finished, fail_and_reschedule-Finished,
  update_settles,
}

-- The calls that write to the outbox.
pub data OutboxCall : Type 0 where
  enqueues : Envelope → OutboxCall
  marks_sent : Bytes → OutboxCall
  fails : Bytes → RetryPolicy → ℕ → Outcome Bytes → OutboxCall
  revives : Bytes → OutboxCall

unfoldable pub step : OutboxCall → Db → Db
step (enqueues env) d = (enqueue env d).0
step (marks_sent id) d = (mark_sent id d).0
step (fails id policy now_ms filled) d = (fail_and_reschedule id policy now_ms filled d).0
step (revives id) d = (revive id d).0

unfoldable pub run : List OutboxCall → Db → Db
run [] d = d
run (c ∷ cs) d = run cs (step c d)

-- No call revives the message.
abbrev pub Leaves : Bytes → List OutboxCall → Type 0
Leaves id [] = Unit
Leaves id (revives other ∷ cs) = (other ≢ id) × Leaves id cs
Leaves id (_ ∷ cs) = Leaves id cs

run-Finished :
    (id : Bytes) (cs : List OutboxCall) (d : Db)
    → Leaves id cs
    → Finished id d.outbox
    → Finished id (run cs d).outbox
unfolding run step
run-Finished id [] d l fin = fin
run-Finished id (enqueues env ∷ cs) d l fin =
    run-Finished id cs (step (enqueues env) d) l (enqueue-Finished id env d fin)
run-Finished id (marks_sent other ∷ cs) d l fin =
    run-Finished id cs (step (marks_sent other) d) l (mark_sent-Finished id other d fin)
run-Finished id (fails other policy now_ms filled ∷ cs) d l fin =
    run-Finished id cs (step (fails other policy now_ms filled) d) l
      (fail_and_reschedule-Finished id other policy now_ms filled d fin)
run-Finished id (revives other ∷ cs) d l fin =
    run-Finished id cs (step (revives other) d) l.1 (revive-Finished id other d l.0 fin)

settled_not_due :
    (id : Bytes) (now_ms : ℕ) (rows : List Row)
    → All (λ (r : Row). r.msg_id ≡ id → is_pending r ≡ false) rows
    → All (λ (r : Row). r.msg_id ≡ id → is_due now_ms r ≡ false) rows
settled_not_due id now_ms [] a = tt
settled_not_due id now_ms (r ∷ rs) a = ((λ e. rw (a.0 e) refl), settled_not_due id now_ms rs a.1)

due_after :
    (id : Bytes) (cs : List OutboxCall) (later limit : ℕ) (d : Db) {qs : List PendingRow}
    → Finished id d.outbox
    → Leaves id cs
    → (due later limit (run cs d)).1 ≡ ok qs
    → All (NotFor id) qs
due_after id cs later limit d {qs} fin leaves due_now =
    due-NotFor id later limit (run cs d) {qs = qs}
      (settled_not_due id later (run cs d).outbox (run-Finished id cs d leaves fin).settled) due_now

attempts_of-any :
    (id : Bytes) (rows : List Row) {n : ℕ}
    → attempts_of id rows ≡ ok n
    → any (has_id id) rows ≡ true
unfolding attempts_of any
attempts_of-any id [] h = cc
attempts_of-any id (r ∷ rs) {n} h = ground (arith, attempts_of-any id rs {n = n})

-- Once a message of the outbox was marked as sent, no call of `due` returns it, whatever calls come
-- between and whichever of them the engine refuses, as long as none revives it.
pub sent_not_due :
    (id : Bytes) (cs : List OutboxCall) (later limit : ℕ) (d : Db) {qs : List PendingRow}
    → any (has_id id) d.outbox ≡ true
    → (mark_sent id d).1 ≡ ok tt
    → Leaves id cs
    → (due later limit (run cs (mark_sent id d).0)).1 ≡ ok qs
    → All (NotFor id) qs
unfolding mark_sent
sent_not_due id cs later limit d {qs} there marked leaves due_now =
    let mark : Action (Unit {0}) =
      λ d'. (record d' { outbox = update id (λ r. record r { state = sent }) d'.outbox }, ok tt) in
    let (d', same, runs) = call_ok mark d marked in
    let settled : Finished id (update id (λ r. record r { state = sent }) d.outbox) =
      update_settles id (λ r. record r { state = sent }) d.outbox (λ r. refl) (λ r. refl) there in
    let rows : (mark_sent id d).0.outbox ≡ update id (λ r. record r { state = sent }) d.outbox =
      ap (λ r. r.0.outbox) runs ∙ ap (update id (λ r. record r { state = sent })) same.outbox in
    due_after id cs later limit (mark_sent id d).0 {qs = qs} (rw rows settled) leaves due_now

-- Once a failure was final, no call of `due` returns the message, whatever calls come between and
-- whichever of them the engine refuses, as long as none revives it.
pub dead_not_due :
    (id : Bytes) (policy : RetryPolicy) (now_ms : ℕ) (filled : Outcome Bytes) (cs : List OutboxCall)
    (later limit : ℕ) (d : Db) {qs : List PendingRow}
    → (fail_and_reschedule id policy now_ms filled d).1 ≡ ok true
    → Leaves id cs
    → (due later limit (run cs (fail_and_reschedule id policy now_ms filled d).0)).1 ≡ ok qs
    → All (NotFor id) qs
dead_not_due id policy now_ms filled cs later limit d {qs} h leaves due_now =
    let (stored, found, wrote) = fail_and_reschedule-Effect id policy now_ms filled d h in
    elim wrote [
      | inl (t, e, rows) ↦
          due_after id cs later limit (fail_and_reschedule id policy now_ms filled d).0 {qs = qs}
            (rw rows (
              update_settles id (bury (next_attempt stored)) d.outbox (λ r. refl) (λ r. refl)
                (attempts_of-any id d.outbox found)))
            leaves due_now
      | inr (t, e, delay, drawn, rows) ↦ cc
    ]
