-- ===== src/Governor/First.antt =====
-- governor.rs: a stranger that has just been registered gets its first message through.
use mesui.Prelude.{
  ℕ, zero, suc, ◌≤◌, Bool, true, false, none, some, Bytes, ◌≡◌, refl, ap, ◌∙◌, arith, bytes_eq_refl,
}
use mesui.Prelude.Map.{Map, get, get-insert, contains_key}
use mesui.Prelude.Integers.{ℤ, pos, negsuc, ◌-ℤ◌, ◌+ℤ◌, negate, wrap, max_int, lez}
use mesui.Governor.{
  Double, Single, SenderQuota, RelayGovernor, price, elapsed_ms, refill, shrink, map_values,
  refill_all, take_token, tokens_of, per_sender_cap, register_sender,
}
use mesui.Governor.Buckets.{get-map_values}
use mesui.Governor.Price.{six_le_cap}

-- What the code relies on of whole numbers as `f64`.
pub record Counts {D : Type 0} (f64 : Double D) : Type 0 where
  pub nothing : f64.lt (f64.literal 0 0) (f64.of_nat 0) ≡ false
  pub one_le : (n : ℕ) → 1 ≤ n → f64.le (f64.literal 1 0) (f64.of_nat n) ≡ true
  pub times_one :
      (x : D)
      → f64.le (f64.literal 1 0) x ≡ true
      → f64.le (f64.literal 1 0) (f64.mul x (f64.literal 1 0)) ≡ true
  pub le_min :
      (x y : D)
      → f64.le (f64.literal 1 0) x ≡ true
      → f64.le (f64.literal 1 0) y ≡ true
      → f64.le (f64.literal 1 0) (f64.min x y) ≡ true

sub_self : (x : ℤ) → x -ℤ x ≡ pos 0
unfolding ◌-ℤ◌ ◌+ℤ◌ negate
sub_self (pos zero) = refl
sub_self (pos (suc a)) = ground arith
sub_self (negsuc a) = ground arith

module _ {S D : Type 0} (f64 : Double D) (f32 : Single S D) where
  elapsed_self : (x : ℤ) → elapsed_ms f64 f32 x x ≡ 0
  unfolding wrap max_int lez
  elapsed_self x = rw (sub_self x, elapsed_ms) refl

  module _ (c : Counts f64) where
    price-ge-one : (g : RelayGovernor S D) → f64.le (f64.literal 1 0) (price f64 f32 g) ≡ true
    price-ge-one g =
        c.times_one (f64.of_nat (per_sender_cap f64 f32 g))
          (c.one_le (per_sender_cap f64 f32 g) (omega (arith, six_le_cap f64 f32 g)))

    refill_same_time : (cap_ : D) (q : SenderQuota D) → refill f64 f32 cap_ q.last_refill_ms q ≡ q
    unfolding refill
    refill_same_time cap_ q = rw (elapsed_self q.last_refill_ms) (rw c.nothing refl)

    tokens-shrink :
        (top : D) (q : SenderQuota D) (send : Bool)
        → f64.le (f64.literal 1 0) top ≡ true
        → f64.le (f64.literal 1 0) (tokens_of f64 f32 send q) ≡ true
        → f64.le (f64.literal 1 0) (tokens_of f64 f32 send (shrink f64 f32 top q)) ≡ true
    unfolding shrink
    tokens-shrink top q true t h = c.le_min q.send_tokens top h t
    tokens-shrink top q false t h = c.le_min q.recv_tokens top h t

    pub get-mapped :
        (f : SenderQuota D → SenderQuota D) (k : Bytes) (m : Map (SenderQuota D))
        (q : SenderQuota D)
        → get k m ≡ some q
        → get k (map_values f64 f32 f m) ≡ some (f q)
    get-mapped f k m q h = get-map_values f64 f32 f k m ∙ rw h refl

    -- What a refill at the time of the last one leaves in a bucket.
    pub refilled :
        (peer : Bytes) (g : RelayGovernor S D) (q : SenderQuota D)
        → get peer g.senders ≡ some q
        → get peer (refill_all f64 f32 q.last_refill_ms g).senders
          ≡ some (shrink f64 f32 (price f64 f32 g) q)
    unfolding refill_all
    refilled peer g q h =
        get-mapped (shrink f64 f32 (price f64 f32 g)) peer
          (map_values f64 f32 (refill f64 f32 (price f64 f32 g) q.last_refill_ms) g.senders) q
          (get-mapped (refill f64 f32 (price f64 f32 g) q.last_refill_ms) peer g.senders q h
            ∙ ap some (refill_same_time (price f64 f32 g) q))

    take_token-true :
        (peer : Bytes) (send : Bool) (g : RelayGovernor S D) (q : SenderQuota D)
        → get peer g.senders ≡ some q
        → f64.le (f64.literal 1 0) (tokens_of f64 f32 send q) ≡ true
        → (take_token f64 f32 peer q.last_refill_ms send g).1 ≡ true
    unfolding take_token
    take_token-true peer send g q h t =
        rw (refilled peer g q h, take_token)
          (rw (tokens-shrink (price f64 f32 g) q send (price-ge-one g) t) refl)

    -- The bucket that a registration gives.
    registered :
        (peer : Bytes) (now_ms : ℤ) (g : RelayGovernor S D)
        → get peer g.senders ≡ none
        → get peer (register_sender f64 f32 peer now_ms g).senders
          ≡ some (record {
            send_tokens = f64.of_nat (per_sender_cap f64 f32 g);
            recv_tokens = f64.of_nat (per_sender_cap f64 f32 g);
            last_refill_ms = now_ms;
          })
    unfolding register_sender
    registered peer now_ms g h =
        let fresh : contains_key peer g.senders ≡ false = rw (h, contains_key) refl in
        rw (fresh, register_sender)
          (get-insert peer peer _ g.senders ∙ rw (bytes_eq_refl peer) refl)

    -- A stranger that was not connected and registers has its first message let through at that time, in
    -- either direction, however many are connected and whatever the battery and the load. One is at most
    -- each whole number from one on, also after a multiplication by one and in a minimum of two such.
    pub first_message_passes :
        (peer : Bytes) (now_ms : ℤ) (send : Bool) (g : RelayGovernor S D)
        → get peer g.senders ≡ none
        → (take_token f64 f32 peer now_ms send (register_sender f64 f32 peer now_ms g)).1 ≡ true
    first_message_passes peer now_ms send g h =
        take_token-true peer send (register_sender f64 f32 peer now_ms g) _
          (registered peer now_ms g h) (enough send)
      where
        one : f64.le (f64.literal 1 0) (f64.of_nat (per_sender_cap f64 f32 g)) ≡ true
        one = c.one_le (per_sender_cap f64 f32 g) (omega (arith, six_le_cap f64 f32 g))

        enough :
            (send : Bool)
            → f64.le (f64.literal 1 0) (
                tokens_of f64 f32 send (record {
                  send_tokens = f64.of_nat (per_sender_cap f64 f32 g);
                  recv_tokens = f64.of_nat (per_sender_cap f64 f32 g);
                  last_refill_ms = now_ms;
                }))
              ≡ true
        enough true = one
        enough false = one
