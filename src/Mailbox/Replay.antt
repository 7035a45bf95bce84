-- ===== src/Mailbox/Replay.antt =====
-- mailbox.rs, `verify_inbound`: a write that was let in is never let in again.
use mesui.Prelude.{
  dec_lt, ℕ, ◌+◌, ◌≤◌, ◌<◌, ◌≡◌, refl, inl, inr, true, some, List, [], ◌∷◌, Bytes, arith, Result,
  ok, err, is_err, u64_max, i64_max,
}
use mesui.Prelude.Map.{get, get-retain_kept}
use mesui.Mailbox.Verify.{verify-InWindow}
use mesui.Mailbox.{BucketWrite, NonceCache, is_live, check_and_insert, verify, verify_inbound}
use mesui.Mailbox.Ledger.{
  Guarded, check-Guarded, check_and_insert-records, check_and_insert-refuses, expiry_of,
}

-- An inbound write: the write, the secret chosen for it, the time.
abbrev pub Inbound : Type 0
Inbound = BucketWrite × Bytes × ℕ

module _ (keyed : Bytes → Bytes → Bytes) where
  pub run : NonceCache → List Inbound → NonceCache
  run c [] = c
  run c ((w, secret, now_ms) ∷ calls) = run (verify_inbound keyed w secret c now_ms).0 calls

  inbound-Guarded :
      (c : NonceCache) (w : BucketWrite) (secret id : Bytes) (ts now later : ℕ)
      → now ≤ later
      → Guarded c id ts now
      → Guarded (verify_inbound keyed w secret c later).0 id ts later
  unfolding verify_inbound
  inbound-Guarded c w secret id ts now later h g = go (verify keyed w secret later) refl
    where
      go :
          (r : Result (Unit {0}))
          → verify keyed w secret later ≡ r
          → Guarded (verify_inbound keyed w secret c later).0 id ts later
      go (ok u) e =
          rw (e, verify_inbound) (check-Guarded c id w.envelope.msg_id ts now later w.ts_ms h g)
      go (err x) e = rw (e, verify_inbound) (wait g)
        where
          wait : Guarded c id ts now → Guarded c id ts later
          wait (inl known) = inl known
          wait (inr past) = inr (omega arith)

  -- The clock never runs backwards between the calls, from `now` to `later`.
  abbrev pub Ascending : ℕ → List Inbound → ℕ → Type 0
  Ascending now [] later = now ≤ later
  Ascending now ((w, secret, t) ∷ calls) later = (now ≤ t) × Ascending t calls later

  run-Guarded :
      (calls : List Inbound) (c : NonceCache) (id : Bytes) (ts now later : ℕ)
      → Ascending now calls later
      → Guarded c id ts now
      → Guarded (run c calls) id ts later
  unfolding run
  run-Guarded [] c id ts now later h (inl known) = inl known
  run-Guarded [] c id ts now later h (inr past) = inr (omega arith)
  run-Guarded ((w, secret, t) ∷ calls) c id ts now later h g =
      run-Guarded calls (verify_inbound keyed w secret c t).0 id ts t later h.1
        (inbound-Guarded c w secret id ts now t h.0 g)

  inbound_ok :
      (c : NonceCache) (w : BucketWrite) (secret : Bytes) (now : ℕ)
      → (verify_inbound keyed w secret c now).1 ≡ ok tt
      → let r = check_and_insert c w.envelope.msg_id w.ts_ms now in
        (verify keyed w secret now ≡ ok tt)
        × (r.1 ≡ true)
        × ((verify_inbound keyed w secret c now).0 ≡ r.0)
  unfolding verify_inbound
  inbound_ok c w secret now h = ground arith

  accepted-Guarded :
      (c : NonceCache) (w : BucketWrite) (secret : Bytes) (now : ℕ)
      → w.ts_ms ≤ u64_max
      → now + 1_000_000 ≤ i64_max
      → (verify_inbound keyed w secret c now).1 ≡ ok tt
      → Guarded (verify_inbound keyed w secret c now).0 w.envelope.msg_id w.ts_ms now
  accepted-Guarded c w secret now typed small h =
      let (passed, fresh, state) = inbound_ok c w secret now h in
      let near = verify-InWindow keyed w secret now typed passed in
      rw state (
        inl (
          expiry_of w.ts_ms,
          check_and_insert-records c w.envelope.msg_id w.ts_ms now fresh,
          omega arith,
          omega arith,
        ))

  inbound_known :
      (c : NonceCache) (w : BucketWrite) (secret : Bytes) (now x : ℕ)
      → get w.envelope.msg_id c.entries ≡ some x
      → now < x + 120_000
      → x ≤ i64_max
      → is_err (verify_inbound keyed w secret c now).1 ≡ true
  unfolding verify_inbound
  inbound_known c w secret now x e live small =
      let kept = get-retain_kept (is_live now) w.envelope.msg_id c.entries x e (ground arith) in
      ground (arith, check_and_insert-refuses c w.envelope.msg_id w.ts_ms now x kept)

  inbound_outside :
      (c : NonceCache) (w : BucketWrite) (secret : Bytes) (now : ℕ)
      → (verify keyed w secret now ≡ ok tt → ⊥)
      → is_err (verify_inbound keyed w secret c now).1 ≡ true
  unfolding verify_inbound
  inbound_outside c w secret now no_pass = ground arith

  refused :
      (c : NonceCache) (w : BucketWrite) (secret : Bytes) (now : ℕ)
      → w.ts_ms ≤ u64_max
      → Guarded c w.envelope.msg_id w.ts_ms now
      → is_err (verify_inbound keyed w secret c now).1 ≡ true
  refused c w secret now typed (inr past) =
      inbound_outside c w secret now
        (λ v. let near = verify-InWindow keyed w secret now typed v in omega arith)
  refused c w secret now typed (inl (x, e, long, small)) = elim (dec_lt now (x + 120_000)) [
    | yes live ↦ inbound_known c w secret now x e live small
    | no over ↦
        inbound_outside c w secret now
          (λ v. let near = verify-InWindow keyed w secret now typed v in omega arith)
  ]

  Ascending-le : (calls : List Inbound) (now later : ℕ) → Ascending now calls later → now ≤ later
  Ascending-le [] now later h = h
  Ascending-le ((w, secret, t) ∷ calls) now later h = omega (arith, Ascending-le calls t later h.1)

  -- Once an inbound write was let through, the same write is an error at every later time, under
  -- whatever secret and whatever calls come between at ascending times. Its time stamp fits 64
  -- bits, and the later time is a thousand seconds short of 2^63.
  pub replay_rejected :
      (c : NonceCache) (w : BucketWrite) (secret secret' : Bytes) (calls : List Inbound)
      (now later : ℕ)
      → w.ts_ms ≤ u64_max
      → later + 1_000_000 ≤ i64_max
      → (verify_inbound keyed w secret c now).1 ≡ ok tt
      → Ascending now calls later
      → is_err
          (verify_inbound keyed w secret'
            (run (verify_inbound keyed w secret c now).0 calls)
            later).1
        ≡ true
  replay_rejected c w secret secret' calls now later typed small accepted order =
      let before = Ascending-le calls now later order in
      let g = accepted-Guarded c w secret now typed (omega arith) accepted in
      refused (run (verify_inbound keyed w secret c now).0 calls) w secret' later typed
        (run-Guarded calls _ w.envelope.msg_id w.ts_ms now later order g)
