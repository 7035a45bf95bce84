-- ===== src/Queue/Reschedule.antt =====
-- queue.rs, `fail_and_reschedule`: what it does to the outbox when the engine carries it out.
use mesui.Prelude.{
  ℕ, ◌+◌, ◌%◌, ◌^◌, ◌≡◌, refl, sym, ap, subst, ◌∙◌, ◌⊎◌, inl, inr, Bool, true, false, List, Bytes,
  arith, Result, ok, err, Bool-cases, Result-cases, saturating_add, Outcome,
}
use mesui.Retry.{RetryPolicy, next_delay_ms, exhausted}
use mesui.Queue.Calls.{call_cases, call_ok, >>=-ok}
use mesui.Queue.{
  Db, Action, call, after, lift, ◌>>=◌, clamp_ms, Row, update, attempts_of, bury, postpone,
  give_up_or_wait, fail_and_reschedule,
}

module _ (id : Bytes) (policy : RetryPolicy) (now_ms : ℕ) (filled : Outcome Bytes) (n : ℕ) where
  -- What a success at the `n`-th attempt did to the outbox: the message is dead, or it waits.
  abbrev pub Effect : List Row → List Row → Bool → Type 0
  Effect rows rows' b =
      (b ≡ true) × (exhausted policy n ≡ true) × (rows' ≡ update id (bury n) rows)
      ⊎ (b ≡ false)
        × (exhausted policy n ≡ false)
        × (delay : ℕ) × (next_delay_ms policy n filled ≡ ok delay)
        × (rows' ≡ update id (postpone n (clamp_ms (saturating_add now_ms delay))) rows)

  abbrev Wrote : Db → Bool → Db × Result Bool → Type 0
  Wrote d b r = r.1 ≡ ok b → Effect d.outbox r.0.outbox b

  buried :
      (d : Db) (b : Bool)
      → exhausted policy n ≡ true
      → Wrote d b (call (λ d'. (record d' { outbox = update id (bury n) d'.outbox }, ok true)) d)
  buried d b e =
      call_cases (Wrote d b) _ d (λ d' m s h. cc)
        (λ d' s h. inl (ground arith, e, rw s.outbox refl))

  abbrev postponed : ℕ → Action Bool
  postponed at d = (record d { outbox = update id (postpone n at) d.outbox }, ok false)

  waits :
      (d : Db) (b : Bool) (delay : ℕ)
      → exhausted policy n ≡ false
      → next_delay_ms policy n filled ≡ ok delay
      → Wrote d b (call (postponed (clamp_ms (saturating_add now_ms delay))) d)
  waits d b delay e f =
      call_cases (Wrote d b) _ d (λ d' m s h. cc)
        (λ d' s h. inr (ground arith, e, delay, f, rw s.outbox refl))

  give_up_or_wait-Effect :
      (d : Db) (b : Bool) → Wrote d b (give_up_or_wait id policy now_ms filled n d)
  give_up_or_wait-Effect d b = elim (Bool-cases (exhausted policy n)) [
    | inl e ↦
        let gives_up : give_up_or_wait id policy now_ms filled n d
            ≡ call (λ d'. (record d' { outbox = update id (bury n) d'.outbox }, ok true)) d =
          rw (e, give_up_or_wait) refl in
        subst (Wrote d b) (sym gives_up) (buried d b e)
    | inr e ↦ elim (Result-cases (next_delay_ms policy n filled)) [
      | inl (delay, f) ↦
          let waiting : give_up_or_wait id policy now_ms filled n d
              ≡ call (postponed (clamp_ms (saturating_add now_ms delay))) d =
            rw (e, f, give_up_or_wait, lift, after, ◌>>=◌) refl in
          subst (Wrote d b) (sym waiting) (waits d b delay e f)
      | inr (x, f) ↦
          let fails : give_up_or_wait id policy now_ms filled n d ≡ (d, err x) =
            rw (e, f, give_up_or_wait, lift, after, ◌>>=◌) refl in
          subst (Wrote d b) (sym fails) (λ h. cc)
    ]
  ]

abbrev select : Bytes → Action ℕ
select id = call (λ d. (d, attempts_of id d.outbox))

abbrev pub next_attempt : ℕ → ℕ
next_attempt stored = (stored % 2 ^ 32 + 1) % 2 ^ 32

-- A success of `fail_and_reschedule` read the attempts, and its effect is that of the next attempt.
pub fail_and_reschedule-Effect :
    (id : Bytes) (policy : RetryPolicy) (now_ms : ℕ) (filled : Outcome Bytes) (d : Db) {b : Bool}
    → (fail_and_reschedule id policy now_ms filled d).1 ≡ ok b
    → (stored : ℕ) × (attempts_of id d.outbox ≡ ok stored)
      × Effect id policy now_ms filled
          (next_attempt stored)
          d.outbox
          (fail_and_reschedule id policy now_ms filled d).0.outbox
          b
unfolding fail_and_reschedule
fail_and_reschedule-Effect id policy now_ms filled d {b} h =
    let write : ℕ → Action Bool =
      λ stored. give_up_or_wait id policy now_ms filled (next_attempt stored) in
    let (stored, d1, read, rest) = >>=-ok (select id) write d h in
    let (d0, same, runs) = call_ok (λ d. (d, attempts_of id d.outbox)) d (ap (λ r. r.1) read) in
    let found : attempts_of id d.outbox ≡ ok stored =
      ap (attempts_of id) (sym same.outbox) ∙ ap (λ r. r.1) (sym runs ∙ read) in
    let tables : d1.outbox ≡ d.outbox = ap (λ r. r.0.outbox) (sym read ∙ runs) ∙ same.outbox in
    let wrote =
      give_up_or_wait-Effect id policy now_ms filled (next_attempt stored) d1 b
        (ap (λ r. r.1) (sym rest) ∙ h) in
    let Did : List Row → Db × Result Bool → Type 0 =
      λ rows r. Effect id policy now_ms filled (next_attempt stored) rows r.0.outbox b in
    (
      stored,
      found,
      subst (Did d.outbox) (sym rest) (
          subst
            (λ rows. Did rows (give_up_or_wait id policy now_ms filled (next_attempt stored) d1))
            tables wrote),
    )
