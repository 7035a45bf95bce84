-- ===== src/Queue/Backoff.antt =====
-- queue.rs, `fail_and_reschedule` and `due`: a failed message waits, and a dead one is not sent.
use mesui.Prelude.{
  ℕ, zero, suc, ◌≤◌, ◌<◌, ◌≡◌, sym, ap, ◌∙◌, ◌≢◌, inl, inr, false, List, [], ◌∷◌, Bytes,
  bytes_eq_iff, arith, ok, retain, take, All, Bool-cases, saturating_add, Outcome, >>=-eq-ok,
}
use mesui.Prelude.Sort.{sort, sort-All}
use mesui.Retry.{RetryPolicy}
use mesui.Retry.Bounds.{next_delay_ms_ge}
use mesui.Queue.Calls.{call_ok}
use mesui.Queue.{
  Db, clamp_ms, Row, PendingRow, has_id, update, postpone, fail_and_reschedule, is_due, due,
  by_creation, row_to_pending, sized32, collect,
}
use mesui.Queue.Reschedule.{next_attempt, fail_and_reschedule-Effect}

All-take : {A : Type 0} (P : A → Type 0) (n : ℕ) (xs : List A) → All P xs → All P (take n xs)
All-take P zero xs a = tt
All-take P (suc n) [] a = tt
All-take P (suc n) (x ∷ xs) a = (a.0, All-take P n xs a.1)

row_to_pending-id : (r : Row) {q : PendingRow} → row_to_pending r ≡ ok q → q.msg_id ≡ r.msg_id
unfolding row_to_pending sized32
row_to_pending-id r {q} h = ground arith

abbrev pub NotFor : Bytes → PendingRow → Type 0
NotFor id q = q.msg_id ≢ id

collect-NotFor :
    (id : Bytes) (rs : List Row) {qs : List PendingRow}
    → All (λ (r : Row). r.msg_id ≢ id) rs
    → collect rs ≡ ok qs
    → All (NotFor id) qs
unfolding collect
collect-NotFor id [] {qs} a h = let eq : qs ≡ [] = cc in rw eq tt
collect-NotFor id (r ∷ rs) {qs} a h =
    let (q, here, more) = >>=-eq-ok (row_to_pending r) _ h in
    let (rest, there, same) = >>=-eq-ok (collect rs) _ more in
    let ih = collect-NotFor id rs {qs = rest} a.1 there in
    let eq : qs ≡ q ∷ rest = cc in rw eq ((λ e. a.0 (sym (row_to_pending-id r here) ∙ e)), ih)

-- The rows that `due` passes over.
collect_due-NotFor :
    (id : Bytes) (later limit : ℕ) (rows : List Row) {qs : List PendingRow}
    → All (λ (r : Row). r.msg_id ≡ id → is_due later r ≡ false) rows
    → collect (take limit (sort by_creation (retain (is_due later) rows))) ≡ ok qs
    → All (NotFor id) qs
unfolding retain
collect_due-NotFor id later limit rows {qs} a h =
    collect-NotFor id (take limit (sort by_creation (retain (is_due later) rows)))
      (All-take (λ (r : Row). r.msg_id ≢ id) limit (sort by_creation (retain (is_due later) rows))
        (sort-All by_creation (λ (r : Row). r.msg_id ≢ id) (retain (is_due later) rows)
          (passed rows a)))
      h
  where
    passed :
        (rs : List Row)
        → All (λ (r : Row). r.msg_id ≡ id → is_due later r ≡ false) rs
        → All (λ (r : Row). r.msg_id ≢ id) (retain (is_due later) rs)
    passed [] a = tt
    passed (r ∷ rs) a = elim (Bool-cases (is_due later r)) [
      | inl t ↦ rw (t, retain) ((λ e. ground (arith, a.0)), passed rs a.1)
      | inr f ↦ rw (f, retain) (passed rs a.1)
    ]

-- `due` passes over the messages that are not due.
pub due-NotFor :
    (id : Bytes) (later limit : ℕ) (d : Db) {qs : List PendingRow}
    → All (λ (r : Row). r.msg_id ≡ id → is_due later r ≡ false) d.outbox
    → (due later limit d).1 ≡ ok qs
    → All (NotFor id) qs
unfolding due
due-NotFor id later limit d {qs} a h =
    let (d', same, runs) =
      call_ok (λ d. (d, collect (take limit (sort by_creation (retain (is_due later) d.outbox))))) d
        h in
    collect_due-NotFor id later limit d.outbox a (
      ap (λ rows. collect (take limit (sort by_creation (retain (is_due later) rows))))
        (sym same.outbox)
      ∙ (ap (λ r. r.1) (sym runs) ∙ h))

update_not_due :
    (id : Bytes) (later : ℕ) (f : Row → Row) (rows : List Row)
    → ((r : Row) → is_due later (f r) ≡ false)
    → All (λ (r : Row). r.msg_id ≡ id → is_due later r ≡ false) (update id f rows)
unfolding update
update_not_due id later f [] g = tt
update_not_due id later f (r ∷ rs) g = elim (Bool-cases (has_id id r)) [
  | inl t ↦ rw (t, update) ((λ e. g r), update_not_due id later f rs g)
  | inr k ↦
      rw (k, update)
        ((λ e. ground (arith, bytes_eq_iff r.msg_id id)), update_not_due id later f rs g)
]

postponed_not_due :
    (now_ms base delay later n : ℕ) (r : Row)
    → base ≤ delay
    → later < clamp_ms (saturating_add now_ms base)
    → is_due later (postpone n (clamp_ms (saturating_add now_ms delay)) r) ≡ false
unfolding clamp_ms
postponed_not_due now_ms base delay later n r le less = ground arith

-- After a failure that is not final, no message with the id is due before the base delay has
-- passed, whichever jitter is drawn.
pub backoff_respected :
    (id : Bytes) (policy : RetryPolicy) (now_ms later limit : ℕ) (filled : Outcome Bytes) (d : Db)
    {qs : List PendingRow}
    → (fail_and_reschedule id policy now_ms filled d).1 ≡ ok false
    → later < clamp_ms (saturating_add now_ms policy.base_delay_ms)
    → (due later limit (fail_and_reschedule id policy now_ms filled d).0).1 ≡ ok qs
    → All (NotFor id) qs
backoff_respected id policy now_ms later limit filled d {qs} h less due_now =
    let (stored, found, wrote) = fail_and_reschedule-Effect id policy now_ms filled d h in
    elim wrote [
      | inl (t, e, same) ↦ cc
      | inr (t, e, delay, drawn, same) ↦
          due-NotFor id later limit (fail_and_reschedule id policy now_ms filled d).0
            (rw same (
              update_not_due id later
                (postpone (next_attempt stored) (clamp_ms (saturating_add now_ms delay))) d.outbox
                (λ r.
                  postponed_not_due now_ms policy.base_delay_ms delay later (next_attempt stored) r
                    (next_delay_ms_ge policy (next_attempt stored) filled drawn) less)))
            due_now
    ]
