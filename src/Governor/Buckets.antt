-- ===== src/Governor/Buckets.antt =====
-- governor.rs: what a call leaves in the buckets.
use mesui.Prelude.{
  ℕ, Bool, true, false, Option, none, some, [], ◌∷◌, Bytes, ◌≡◌, refl, All, arith, if◌then◌else◌,
  Bool-cases, inl, inr, bytes_eq,
}
use mesui.Prelude.Map.{Map, get, insert, All-insert}
use mesui.Prelude.Integers.{ℤ}
use mesui.Governor.{
  per_sender_cap, Double, Single, SenderQuota, RelayGovernor, price, shrink, map_values, refill_all,
  take_token, tokens_of, spend,
}

-- What the order of `f64` promises: that a number is at most itself says that it is not NaN. The minimum
-- with a second argument that is not NaN is at most that one, also when the first is NaN.
pub record Ordered {D : Type 0} (f64 : Double D) : Type 0 where
  pub of_nat_le : (n : ℕ) → f64.le (f64.of_nat n) (f64.of_nat n) ≡ true
  pub times_one_le :
      (x : D)
      → f64.le x x ≡ true
      → f64.le (f64.mul x (f64.literal 1 0)) (f64.mul x (f64.literal 1 0)) ≡ true
  pub min_le : (x y : D) → f64.le y y ≡ true → f64.le (f64.min x y) y ≡ true
  pub sub_le : (x y : D) → f64.le x y ≡ true → f64.le (f64.sub x (f64.literal 1 0)) y ≡ true

module _ {S D : Type 0} (f64 : Double D) (f32 : Single S D) where
  -- No bucket holds more than a price.
  abbrev pub Within : D → Bytes × SenderQuota D → Type 0
  Within top e = (f64.le e.1.send_tokens top ≡ true) × (f64.le e.1.recv_tokens top ≡ true)

  pub get-map_values :
      (f : SenderQuota D → SenderQuota D) (k : Bytes) (m : Map (SenderQuota D))
      → get k (map_values f64 f32 f m) ≡ elim (get k m) [ none ↦ none | some q ↦ some (f q) ]
  unfolding get map_values
  get-map_values f k [] = refl
  get-map_values f k ((j, q) ∷ m) = elim (Bool-cases (bytes_eq j k)) [
    | inl t ↦ rw t refl
    | inr n ↦ rw n (get-map_values f k m)
  ]

  module _ (o : Ordered f64) where
    shrink-Within :
        (top : D) (k : Bytes) (q : SenderQuota D)
        → f64.le top top ≡ true
        → Within top (k, shrink f64 f32 top q)
    unfolding shrink
    shrink-Within top k q n = (o.min_le q.send_tokens top n, o.min_le q.recv_tokens top n)

    map_values-Within :
        (top : D) (m : Map (SenderQuota D))
        → f64.le top top ≡ true
        → All (Within top) (map_values f64 f32 (shrink f64 f32 top) m)
    unfolding map_values
    map_values-Within top [] n = tt
    map_values-Within top ((k, q) ∷ m) n = (shrink-Within top k q n, map_values-Within top m n)

    spend-Within :
        (top : D) (k : Bytes) (send : Bool) (q : SenderQuota D)
        → Within top (k, q)
        → Within top (k, spend f64 f32 send q)
    spend-Within top k true q w = (o.sub_le q.send_tokens top w.0, w.1)
    spend-Within top k false q w = (w.0, o.sub_le q.recv_tokens top w.1)

    get-All :
        (top : D) (k : Bytes) (m : Map (SenderQuota D)) {q : SenderQuota D}
        → All (Within top) m
        → get k m ≡ some q
        → Within top (k, q)
    unfolding get
    get-All top k [] a h = cc
    get-All top k ((j, p) ∷ m) {q} a h = elim (Bool-cases (bytes_eq j k)) [
      | inl t ↦ ground (arith, a.0)
      | inr n ↦ get-All top k m a.1 (let later : get k m ≡ some q = ground arith in later)
    ]

    refill_all-Within :
        (now_ms : ℤ) (g : RelayGovernor S D)
        → All (Within (price f64 f32 g)) (refill_all f64 f32 now_ms g).senders
    unfolding refill_all
    refill_all-Within now_ms g = map_values-Within (price f64 f32 g) _ (
        o.times_one_le (f64.of_nat (per_sender_cap f64 f32 g))
          (o.of_nat_le (per_sender_cap f64 f32 g)))

    -- After a request, let through or not, no bucket of any sender holds more than the price at that
    -- time, so that a price that fell takes effect at once. A whole number is at most itself, also after a
    -- multiplication by one, the minimum with a number that is at most itself is at most that number, and
    -- taking one away from a number leaves it at most what it was at most.
    pub take_token-Within :
        (peer : Bytes) (now_ms : ℤ) (send : Bool) (g : RelayGovernor S D)
        → All (Within (price f64 f32 g)) (take_token f64 f32 peer now_ms send g).0.senders
    unfolding take_token
    take_token-Within peer now_ms send g = decide (get peer g'.senders) refl
      where
        g' : RelayGovernor S D
        g' = refill_all f64 f32 now_ms g

        refilled : All (Within (price f64 f32 g)) g'.senders
        refilled = refill_all-Within now_ms g

        decide :
            (r : Option (SenderQuota D))
            → get peer g'.senders ≡ r
            → All
                (Within (price f64 f32 g))
                (elim r as (λ r. RelayGovernor S D × Bool) [
                  | none ↦ (g', false)
                  | some q ↦
                      if f64.le (f64.literal 1 0) (tokens_of f64 f32 send q)
                      then (
                        record g' { senders = insert peer (spend f64 f32 send q) g'.senders },
                        true,
                      )
                      else (g', false)
                ]).0.senders
        decide none h = refilled
        decide (some q) h =
            elim (Bool-cases (f64.le (f64.literal 1 0) (tokens_of f64 f32 send q))) [
              | inl enough ↦ rw enough (
                  All-insert (Within (price f64 f32 g)) peer (spend f64 f32 send q) g'.senders
                    (spend-Within (price f64 f32 g) peer send q
                      (get-All (price f64 f32 g) peer g'.senders refilled h))
                    refilled)
              | inr few ↦ rw few refilled
            ]
