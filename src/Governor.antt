-- ===== src/Governor.antt =====
-- crates/core/src/governor.rs: how much of a node's capacity strangers may use, and the token buckets of
-- the strangers that are connected. `f64` and `f32` are types with the operations that the code uses of
-- them. Each method that changes the governor returns the new one.
mod Share
pub mod Price
pub mod Buckets
pub mod First
pub mod Minute
mod Tests
use mesui.Prelude.{
  ℕ, ◌+◌, ◌*◌, ◌/◌, ◌%◌, ◌^◌, Bool, true, false, not, Option, none, some, List, [], ◌∷◌, Bytes,
  if◌then◌else◌, ◌==◌, length, max, ◌&&◌,
}
use mesui.Prelude.Map.{Map, get, insert, remove, contains_key}
use mesui.Prelude.Integers.{ℤ, pos, negsuc, ◌-ℤ◌, max_int, wrap, lez}
pub use Share.{
  Double, Single, SenderQuota, RelayGovernor, floor_per_sender, refill_interval_ms, share_full,
  share_floor, battery_start, battery_end, load_start, load_end, on_curve, battery_level,
}
unfoldable pub use Share.{smoothstep, new, set_battery, set_load, battery_share, load_share, share}

module _ {S D : Type 0} (f64 : Double D) (f32 : Single S D) where
  unfoldable pub budget_per_min : RelayGovernor S D → ℕ
  unfolding share
  budget_per_min g = f64.round_u32 (f64.mul (f64.of_nat g.capacity_per_min) (share f64 f32 g))

  unfoldable pub connected_strangers : RelayGovernor S D → ℕ
  connected_strangers g = length g.senders

  -- The divisor is zero only at a multiple of 2^32 entries, which no memory holds.
  unfoldable pub per_sender_cap : RelayGovernor S D → ℕ
  per_sender_cap g =
      if length g.senders == 0
      then max (budget_per_min g) floor_per_sender
      else max (budget_per_min g / (length g.senders % 2 ^ 32)) floor_per_sender

  -- `entry(peer).or_insert(…)`.
  unfoldable pub register_sender : Bytes → ℤ → RelayGovernor S D → RelayGovernor S D
  register_sender peer now_ms g = if contains_key peer g.senders then g else record g {
    senders =
        insert peer
          (record {
            send_tokens = f64.of_nat (per_sender_cap g);
            recv_tokens = f64.of_nat (per_sender_cap g);
            last_refill_ms = now_ms;
          })
          g.senders;
  }

  unfoldable pub drop_sender : Bytes → RelayGovernor S D → RelayGovernor S D
  unfolding remove
  drop_sender peer g = record g { senders = remove peer g.senders }

  -- The milliseconds since the last refill.
  abbrev pub elapsed_ms : ℤ → ℤ → ℕ
  elapsed_ms now_ms last_ms = elim (max_int (wrap (now_ms -ℤ last_ms)) (pos 0)) [
    | pos n ↦ n
    | negsuc n ↦ 0
  ]

  -- One bucket: what has flowed in since, up to the price.
  abbrev pub top_up : D → ℕ → D → D
  top_up cap elapsed tokens =
      f64.min
        (f64.add tokens
          (f64.mul (f64.of_nat elapsed) (f64.div cap (f64.of_nat refill_interval_ms))))
        cap

  -- The first loop of a refill.
  unfoldable pub refill : D → ℤ → SenderQuota D → SenderQuota D
  refill cap now_ms q =
      let elapsed = elapsed_ms now_ms q.last_refill_ms in
      if f64.lt (f64.literal 0 0) (f64.of_nat elapsed)
      then record {
        send_tokens = top_up cap elapsed q.send_tokens;
        recv_tokens = top_up cap elapsed q.recv_tokens;
        last_refill_ms = now_ms;
      }
      else q

  -- The second loop: no bucket holds more than the price.
  unfoldable pub shrink : D → SenderQuota D → SenderQuota D
  shrink cap q = record q {
    send_tokens = f64.min q.send_tokens cap;
    recv_tokens = f64.min q.recv_tokens cap;
  }

  unfoldable pub map_values :
      (SenderQuota D → SenderQuota D) → Map (SenderQuota D) → Map (SenderQuota D)
  map_values f [] = []
  map_values f ((k, q) ∷ m) = (k, f q) ∷ map_values f m

  abbrev pub price : RelayGovernor S D → D
  price g = f64.mul (f64.of_nat (per_sender_cap g)) (f64.literal 1 0)

  unfoldable pub refill_all : ℤ → RelayGovernor S D → RelayGovernor S D
  refill_all now_ms g = record g {
    senders = map_values (shrink (price g)) (map_values (refill (price g) now_ms) g.senders);
  }

  -- The bucket of a direction.
  abbrev pub tokens_of : Bool → SenderQuota D → D
  tokens_of send q = if send then q.send_tokens else q.recv_tokens

  abbrev pub spend : Bool → SenderQuota D → SenderQuota D
  spend send q =
      if send
      then record q { send_tokens = f64.sub q.send_tokens (f64.literal 1 0) }
      else record q { recv_tokens = f64.sub q.recv_tokens (f64.literal 1 0) }

  unfoldable pub take_token : Bytes → ℤ → Bool → RelayGovernor S D → RelayGovernor S D × Bool
  take_token peer now_ms send g =
      let g' = refill_all now_ms g in
      elim (get peer g'.senders) [
        | none ↦ (g', false)
        | some q ↦
            if f64.le (f64.literal 1 0) (tokens_of send q)
            then (record g' { senders = insert peer (spend send q) g'.senders }, true)
            else (g', false)
      ]

  unfoldable pub allow_send : Bytes → ℤ → RelayGovernor S D → RelayGovernor S D × Bool
  unfolding take_token
  allow_send peer now_ms g = take_token peer now_ms true g

  unfoldable pub allow_recv : Bytes → ℤ → RelayGovernor S D → RelayGovernor S D × Bool
  unfolding take_token
  allow_recv peer now_ms g = take_token peer now_ms false g
