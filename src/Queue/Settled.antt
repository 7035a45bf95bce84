-- ===== src/Queue/Settled.antt =====
-- queue.rs: a message that is no longer pending stays so through the calls that do not revive it.
use mesui.Prelude.{
  ℕ, ◌≡◌, refl, sym, ap, ◌∙◌, ◌≢◌, Bool, true, false, List, [], ◌∷◌, ◌++◌, Bytes, bytes_eq_iff,
  arith, any, All, All-append, Bool-cases, ok, Outcome, inl, inr, saturating_add, if◌then◌else◌,
  ◌%◌, ◌^◌, ◌+◌,
}
use mesui.Envelope.{Envelope}
use mesui.Retry.{RetryPolicy, next_delay_ms, exhausted}
use mesui.Queue.Calls.{call_cases, >>=-keeps}
use mesui.Queue.{
  Db, Action, call, lift, clamp_ms, Row, pending, sent, has_id, update, attempts_of, bury, postpone,
  give_up_or_wait, fail_and_reschedule, is_pending, enqueue, new_row, mark_sent, revive,
}

-- A message that is in the outbox and no longer waits there.
pub record Finished (id : Bytes) (rows : List Row) : Type 0 where
  pub present : any (has_id id) rows ≡ true
  pub settled : All (λ (r : Row). r.msg_id ≡ id → is_pending r ≡ false) rows

abbrev KeepsId : (Row → Row) → Type 0
KeepsId f = (r : Row) → (f r).msg_id ≡ r.msg_id

any-update :
    (id other : Bytes) (f : Row → Row) (rows : List Row)
    → KeepsId f
    → any (has_id id) (update other f rows) ≡ any (has_id id) rows
unfolding any update
any-update id other f [] k = refl
any-update id other f (r ∷ rs) k = elim (Bool-cases (has_id other r)) [
  | inl t ↦ rw (t, update, any, k r, any-update id other f rs k) refl
  | inr n ↦ rw (n, update, any, any-update id other f rs k) refl
]

settled-update :
    (id other : Bytes) (f : Row → Row) (rows : List Row)
    → KeepsId f
    → ((r : Row)
        → r.msg_id ≡ other
        → r.msg_id ≡ id
        → is_pending r ≡ false
        → is_pending (f r) ≡ false)
    → All (λ (r : Row). r.msg_id ≡ id → is_pending r ≡ false) rows
    → All (λ (r : Row). r.msg_id ≡ id → is_pending r ≡ false) (update other f rows)
unfolding update
settled-update id other f [] k g a = tt
settled-update id other f (r ∷ rs) k g a = elim (Bool-cases (has_id other r)) [
  | inl t ↦
      rw (t, update)
        (
          (λ e.
              let same : r.msg_id ≡ id = sym (k r) ∙ e in
              g r ((bytes_eq_iff r.msg_id other).0 t) same (a.0 same)),
          settled-update id other f rs k g a.1,
        )
  | inr n ↦ rw (n, update) (a.0, settled-update id other f rs k g a.1)
]

update-Finished :
    (id other : Bytes) (f : Row → Row) (rows : List Row)
    → KeepsId f
    → ((r : Row)
        → r.msg_id ≡ other
        → r.msg_id ≡ id
        → is_pending r ≡ false
        → is_pending (f r) ≡ false)
    → Finished id rows
    → Finished id (update other f rows)
update-Finished id other f rows k g fin = record {
  present = any-update id other f rows k ∙ fin.present;
  settled = settled-update id other f rows k g fin.settled;
}

postpone-Finished :
    (id other : Bytes) (n at : ℕ) (rows : List Row)
    → Finished id rows
    → Finished id (update other (postpone n at) rows)
postpone-Finished id other n at rows =
    update-Finished id other (postpone n at) rows (λ r. refl) (λ r o e p. p)

bury-Finished :
    (id other : Bytes) (n : ℕ) (rows : List Row)
    → Finished id rows
    → Finished id (update other (bury n) rows)
bury-Finished id other n rows = update-Finished id other (bury n) rows (λ r. refl) (λ r o e p. refl)

-- Whatever a run does to the tables it keeps, a call of it keeps.
call-Finished :
    {A : Type 0} (id : Bytes) (run : Action A) (d : Db)
    → ((d' : Db) → Finished id d'.outbox → Finished id (run d').0.outbox)
    → Finished id d.outbox
    → Finished id (call run d).0.outbox
call-Finished id run d keeps fin =
    call_cases (λ r. Finished id r.0.outbox) run d (λ d' e s. rw s.outbox fin)
      (λ d' s. keeps d' (rw s.outbox fin))

pub mark_sent-Finished :
    (id other : Bytes) (d : Db) → Finished id d.outbox → Finished id (mark_sent other d).0.outbox
unfolding mark_sent
mark_sent-Finished id other d =
    call-Finished id
      (λ d. (record d { outbox = update other (λ r. record r { state = sent }) d.outbox }, ok tt)) d
      (λ d'.
        update-Finished id other (λ r. record r { state = sent }) d'.outbox (λ r. refl)
          (λ r o e p. refl))

pub revive-Finished :
    (id other : Bytes) (d : Db)
    → other ≢ id
    → Finished id d.outbox
    → Finished id (revive other d).0.outbox
unfolding revive
revive-Finished id other d ne =
    call-Finished id
      (λ d. (
        record d {
          outbox =
              update other (λ r. record r { state = pending; attempts = 0; next_attempt_ms = 0 })
                d.outbox;
        },
        ok tt,
      ))
      d
      (λ d'.
        update-Finished id other
          (λ r. record r { state = pending; attempts = 0; next_attempt_ms = 0 }) d'.outbox
          (λ r. refl) (λ r o e p. absurd (ne (sym o ∙ e))))

any-append : (p : Row → Bool) (xs ys : List Row) → any p xs ≡ true → any p (xs ++ ys) ≡ true
unfolding any
any-append p [] ys h = cc
any-append p (x ∷ xs) ys h = ground (arith, any-append p xs ys)

abbrev enqueued : Envelope → Action (Unit {0})
enqueued env d = (
  if any (has_id env.msg_id) d.outbox
      then d
      else record d { outbox = d.outbox ++ new_row env ∷ [] },
  ok tt,
)

enqueued-Finished :
    (id : Bytes) (env : Envelope) (d : Db)
    → Finished id d.outbox
    → Finished id (enqueued env d).0.outbox
unfolding new_row
enqueued-Finished id env d fin = elim (Bool-cases (any (has_id env.msg_id) d.outbox)) [
  | inl t ↦ rw (t, enqueued) fin
  | inr n ↦
      rw (n, enqueued)
        (record {
          present = any-append (has_id id) d.outbox (new_row env ∷ []) fin.present;
          settled =
              All-append (λ (r : Row). r.msg_id ≡ id → is_pending r ≡ false) d.outbox
                (new_row env ∷ []) fin.settled ((λ e. absurd (other e n)), tt);
        })
]
  where
    other : env.msg_id ≡ id → any (has_id env.msg_id) d.outbox ≢ false
    other e n = ground (arith, fin.present, ap (λ i. any (has_id i) d.outbox) e)

pub enqueue-Finished :
    (id : Bytes) (env : Envelope) (d : Db)
    → Finished id d.outbox
    → Finished id (enqueue env d).0.outbox
unfolding enqueue
enqueue-Finished id env d = call-Finished id (enqueued env) d (λ d'. enqueued-Finished id env d')

give_up_or_wait-Finished :
    (id other : Bytes) (policy : RetryPolicy) (now_ms : ℕ) (filled : Outcome Bytes) (n : ℕ) (d : Db)
    → Finished id d.outbox
    → Finished id (give_up_or_wait other policy now_ms filled n d).0.outbox
give_up_or_wait-Finished id other policy now_ms filled n d fin =
    elim (Bool-cases (exhausted policy n)) [
      | inl t ↦
          rw (t, give_up_or_wait)
            (call-Finished id
              (λ d'. (record d' { outbox = update other (bury n) d'.outbox }, ok true)) d
              (λ d'. bury-Finished id other n d'.outbox) fin)
      | inr f ↦
          rw (f, give_up_or_wait)
            (>>=-keeps (λ d'. Finished id d'.outbox) (lift (next_delay_ms policy n filled))
              (waiting n) d fin
              (λ delay d'. call-Finished id (postponed n delay) d' (λ d''.
                postpone-Finished id other n (clamp_ms (saturating_add now_ms delay)) d''.outbox)))
    ]
  where
    postponed : ℕ → ℕ → Action Bool
    postponed n delay d =
        let at = clamp_ms (saturating_add now_ms delay) in
        (record d { outbox = update other (postpone n at) d.outbox }, ok false)

    waiting : ℕ → ℕ → Action Bool
    waiting n delay = call (postponed n delay)

pub fail_and_reschedule-Finished :
    (id other : Bytes) (policy : RetryPolicy) (now_ms : ℕ) (filled : Outcome Bytes) (d : Db)
    → Finished id d.outbox
    → Finished id (fail_and_reschedule other policy now_ms filled d).0.outbox
unfolding fail_and_reschedule
fail_and_reschedule-Finished id other policy now_ms filled d fin =
    >>=-keeps (λ d'. Finished id d'.outbox) (call (λ d'. (d', attempts_of other d'.outbox)))
      (λ stored. give_up_or_wait other policy now_ms filled ((stored % 2 ^ 32 + 1) % 2 ^ 32)) d
      (call-Finished id (λ d'. (d', attempts_of other d'.outbox)) d (λ d' f. f) fin)
      (λ stored.
        give_up_or_wait-Finished id other policy now_ms filled ((stored % 2 ^ 32 + 1) % 2 ^ 32))

-- An update that leaves nothing pending settles the message.
pub update_settles :
    (id : Bytes) (f : Row → Row) (rows : List Row)
    → KeepsId f
    → ((r : Row) → is_pending (f r) ≡ false)
    → any (has_id id) rows ≡ true
    → Finished id (update id f rows)
unfolding update
update_settles id f rows k g h = record {
  present = any-update id id f rows k ∙ h;
  settled = all_settled rows;
}
  where
    all_settled :
        (rs : List Row) → All (λ (r : Row). r.msg_id ≡ id → is_pending r ≡ false) (update id f rs)
    all_settled [] = tt
    all_settled (r ∷ rs) = elim (Bool-cases (has_id id r)) [
      | inl t ↦ rw (t, update) ((λ e. g r), all_settled rs)
      | inr n ↦ rw (n, update) ((λ e. ground (arith, bytes_eq_iff r.msg_id id)), all_settled rs)
    ]
