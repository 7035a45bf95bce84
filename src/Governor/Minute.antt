-- ===== src/Governor/Minute.antt =====
-- governor.rs: what flows into a bucket within a minute.
use mesui.Prelude.{
  ℕ, zero, suc, ◌≤◌, Bool, true, false, some, List, [], ◌∷◌, Bytes, ◌≡◌, refl, ap, ◌∙◌, subst,
  arith, replicate, bytes_eq_refl,
}
use mesui.Prelude.Map.{get, get-insert}
use mesui.Prelude.Integers.{ℤ}
use mesui.Governor.{
  Double, Single, SenderQuota, RelayGovernor, price, elapsed_ms, refill, shrink, refill_all,
  take_token, tokens_of, spend, per_sender_cap,
}
use mesui.Governor.Price.{six_le_cap}
use mesui.Governor.First.{Counts, get-mapped, refilled}

-- What the code relies on of `f64` at small whole numbers. `filled` is that the price of a minute, which
-- is at least six, has flowed in after a minute: six sixty-thousandths, sixty thousand times, are six also
-- as they are rounded.
pub record Small {D : Type 0} (f64 : Double D) : Type 0 where
  pub some_time : (e : ℕ) → 1 ≤ e → f64.lt (f64.literal 0 0) (f64.of_nat e) ≡ true
  pub le_price :
      (k n : ℕ)
      → k ≤ 6
      → 6 ≤ n
      → f64.le (f64.of_nat k) (f64.mul (f64.of_nat n) (f64.literal 1 0)) ≡ true
  pub le_min :
      (k : ℕ) (x y : D)
      → f64.le (f64.of_nat k) x ≡ true
      → f64.le (f64.of_nat k) y ≡ true
      → f64.le (f64.of_nat k) (f64.min x y) ≡ true
  pub one_le :
      (k : ℕ) (x : D) → f64.le (f64.of_nat (suc k)) x ≡ true → f64.le (f64.literal 1 0) x ≡ true
  pub one_less :
      (k : ℕ) (x : D)
      → k ≤ 6
      → f64.le (f64.of_nat (suc k)) x ≡ true
      → f64.le (f64.of_nat k) (f64.sub x (f64.literal 1 0)) ≡ true
  pub filled :
      (n e : ℕ) (x : D)
      → 6 ≤ n
      → 60_000 ≤ e
      → f64.le (f64.literal 0 0) x ≡ true
      → f64.le (f64.of_nat 6) (
          f64.add x (
            f64.mul
              (f64.of_nat e)
              (f64.div (f64.mul (f64.of_nat n) (f64.literal 1 0)) (f64.of_nat 60_000))))
        ≡ true

module _ {S D : Type 0} (f64 : Double D) (f32 : Single S D) where
  -- So many requests of a sender, one after the other at one time, with their answers.
  unfoldable pub requests : ℕ → Bytes → ℤ → Bool → RelayGovernor S D → List Bool
  requests zero peer now_ms send g = []
  requests (suc k) peer now_ms send g =
      let (g', passed) = take_token f64 f32 peer now_ms send g in
      passed ∷ requests k peer now_ms send g'

  -- A bucket that holds so much at least.
  abbrev Holds : ℕ → Bool → SenderQuota D → Type 0
  Holds k send q = f64.le (f64.of_nat k) (tokens_of f64 f32 send q) ≡ true

  last-spend :
      (send : Bool) (q : SenderQuota D) → (spend f64 f32 send q).last_refill_ms ≡ q.last_refill_ms
  last-spend true q = refl
  last-spend false q = refl

  last-shrink :
      (top : D) (q : SenderQuota D) → (shrink f64 f32 top q).last_refill_ms ≡ q.last_refill_ms
  unfolding shrink
  last-shrink top q = refl

  module _ (c : Counts f64) (s : Small f64) (peer : Bytes) (now_ms : ℤ) (send : Bool) where
    le-price :
        (k : ℕ) (g : RelayGovernor S D) → k ≤ 6 → f64.le (f64.of_nat k) (price f64 f32 g) ≡ true
    le-price k g small = s.le_price k (per_sender_cap f64 f32 g) small (six_le_cap f64 f32 g)

    shrink-Holds :
        (k : ℕ) (top : D) (send : Bool) (q : SenderQuota D)
        → f64.le (f64.of_nat k) top ≡ true
        → Holds k send q
        → Holds k send (shrink f64 f32 top q)
    unfolding shrink
    shrink-Holds k top true q t h = s.le_min k q.send_tokens top h t
    shrink-Holds k top false q t h = s.le_min k q.recv_tokens top h t

    spend-Holds :
        (k : ℕ) (send : Bool) (q : SenderQuota D)
        → k ≤ 6
        → Holds (suc k) send q
        → Holds k send (spend f64 f32 send q)
    spend-Holds k true q small h = s.one_less k q.send_tokens small h
    spend-Holds k false q small h = s.one_less k q.recv_tokens small h

    -- A request that finds a token takes it.
    passes :
        (k : ℕ) (g : RelayGovernor S D) (q : SenderQuota D)
        → get peer (refill_all f64 f32 now_ms g).senders ≡ some q
        → Holds (suc k) send q
        → ((take_token f64 f32 peer now_ms send g).1 ≡ true)
          × (get peer (take_token f64 f32 peer now_ms send g).0.senders
              ≡ some (spend f64 f32 send q))
    unfolding take_token
    passes k g q e h =
        let enough = s.one_le k (tokens_of f64 f32 send q) h in
        (
          rw (e, take_token) (rw enough refl),
          rw (e, take_token)
              (rw enough (
                get-insert peer peer (spend f64 f32 send q) (refill_all f64 f32 now_ms g).senders
                ∙ rw (bytes_eq_refl peer) refl)),
        )

    -- What is true of the requests after one is true with it.
    one_more :
        (k : ℕ) (g : RelayGovernor S D) (q : SenderQuota D)
        → k ≤ 6
        → get peer (refill_all f64 f32 now_ms g).senders ≡ some q
        → q.last_refill_ms ≡ now_ms
        → Holds (suc k) send q
        → ((g : RelayGovernor S D) (q : SenderQuota D)
            → get peer g.senders ≡ some q
            → q.last_refill_ms ≡ now_ms
            → Holds k send q
            → requests k peer now_ms send g ≡ replicate k true)
        → requests (suc k) peer now_ms send g ≡ replicate (suc k) true
    unfolding requests
    one_more k g q small e last h rest =
        let (passed, left) = passes k g q e h in
        rw passed (
          ap (◌∷◌ true) (
            rest (take_token f64 f32 peer now_ms send g).0 (spend f64 f32 send q) left
              (last-spend send q ∙ last) (spend-Holds k send q small h)))

    drain :
        (k : ℕ)
        → k ≤ 6
        → (g : RelayGovernor S D) (q : SenderQuota D) → get peer g.senders ≡ some q
        → q.last_refill_ms ≡ now_ms
        → Holds k send q
        → requests k peer now_ms send g ≡ replicate k true
    unfolding requests
    drain zero small g q e last h = refl
    drain (suc k) small g q e last h =
        one_more k g (shrink f64 f32 (price f64 f32 g) q) (omega arith)
          (subst
            (λ t.
              get peer (refill_all f64 f32 t g).senders ≡ some (shrink f64 f32 (price f64 f32 g) q))
            last (refilled f64 f32 c peer g q e))
          (last-shrink (price f64 f32 g) q ∙ last)
          (shrink-Holds (suc k) (price f64 f32 g) send q (le-price (suc k) g small) h)
          (drain k (omega arith))

    refill-Holds :
        (send : Bool) (g : RelayGovernor S D) (q : SenderQuota D)
        → 60_000 ≤ elapsed_ms f64 f32 now_ms q.last_refill_ms
        → f64.le (f64.literal 0 0) (tokens_of f64 f32 send q) ≡ true
        → Holds 6 send (refill f64 f32 (price f64 f32 g) now_ms q)
          × ((refill f64 f32 (price f64 f32 g) now_ms q).last_refill_ms ≡ now_ms)
    unfolding refill
    refill-Holds true g q minute h =
        let some_time = s.some_time (elapsed_ms f64 f32 now_ms q.last_refill_ms) (omega arith) in
        rw some_time (
          s.le_min 6 _ (price f64 f32 g)
              (s.filled (per_sender_cap f64 f32 g) (elapsed_ms f64 f32 now_ms q.last_refill_ms)
                q.send_tokens (six_le_cap f64 f32 g) minute h)
              (le-price 6 g (omega arith)),
          refl,
        )
    refill-Holds false g q minute h =
        let some_time = s.some_time (elapsed_ms f64 f32 now_ms q.last_refill_ms) (omega arith) in
        rw some_time (
          s.le_min 6 _ (price f64 f32 g)
              (s.filled (per_sender_cap f64 f32 g) (elapsed_ms f64 f32 now_ms q.last_refill_ms)
                q.recv_tokens (six_le_cap f64 f32 g) minute h)
              (le-price 6 g (omega arith)),
          refl,
        )

    -- A minute or more after its buckets were last filled, a registered stranger has six messages in a
    -- row let through at once, in either direction, however little was left in the bucket, however many
    -- strangers are connected, and whatever the battery and the load. What is in the bucket is not
    -- negative. Whole numbers up to six are exact, and sixty thousand times the sixty-thousandth of six or
    -- more is six or more.
    pub six_a_minute :
        (g : RelayGovernor S D) (q : SenderQuota D)
        → get peer g.senders ≡ some q
        → 60_000 ≤ elapsed_ms f64 f32 now_ms q.last_refill_ms
        → f64.le (f64.literal 0 0) (tokens_of f64 f32 send q) ≡ true
        → requests 6 peer now_ms send g ≡ replicate 6 true
    unfolding refill_all
    six_a_minute g q e minute h =
        let top = price f64 f32 g in
        let q1 = refill f64 f32 top now_ms q in
        let (holds, last) = refill-Holds send g q minute h in
        one_more 5 g (shrink f64 f32 top q1) (omega arith)
          (get-mapped f64 f32 c (shrink f64 f32 top) peer _ q1
            (get-mapped f64 f32 c (refill f64 f32 top now_ms) peer g.senders q e))
          (last-shrink top q1 ∙ last)
          (shrink-Holds 6 top send q1 (le-price 6 g (omega arith)) holds) (drain 5 (omega arith))
