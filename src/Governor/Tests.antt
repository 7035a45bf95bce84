-- ===== src/Governor/Tests.antt =====
-- The theorems on the governor at a concrete governor, with whole numbers for floating-point numbers.
use mesui.Prelude.{
  replicate, ◌^◌, ◌≤◌, ℕ, ◌+◌, ◌-◌, ◌*◌, ◌/◌, ◌≤◌, ◌≡◌, refl, true, false, none, some, [], ◌∷◌,
  bytes_dec, All, leb, ltb, min, max, arith, if◌then◌else◌,
}
use mesui.Prelude.Map.{get}
use mesui.Prelude.Integers.{pos, max_int, wrap, ◌-ℤ◌}
use native.Mathlib.Nat.{mul-le-mul, mul_right_comm}
use mesui.Governor.{
  SenderQuota, elapsed_ms, Double, Single, RelayGovernor, per_sender_cap, budget_per_min, price,
  take_token, register_sender, refill_all, map_values, shrink, refill,
}
use mesui.Governor.Buckets.{Ordered, Within, take_token-Within}
use mesui.Governor.Minute.{Small, requests, six_a_minute}
use mesui.Governor.First.{Counts, first_message_passes}

-- A constant is rounded up.
abbrev whole : ℕ → ℕ → ℕ
whole m e = if leb m 0 then 0 else if leb e 0 then m else 1

abbrev f64 : Double ℕ
f64 = record {
  literal = whole;
  add = λ x y. x + y;
  sub = λ x y. x - y;
  mul = λ x y. x * y;
  div = λ x y. x / y;
  min = λ x y. min x y;
  clamp = λ a b x. max a (min x b);
  le = λ x y. leb x y;
  lt = λ x y. ltb x y;
  of_nat = λ n. n;
  round_u32 = λ x. x;
}

abbrev f32 : Single ℕ ℕ
f32 = record {
  literal = whole;
  sub = λ x y. x - y;
  div = λ x y. x / y;
  clamp = λ a b x. max a (min x b);
  le = λ x y. leb x y;
  is_finite = λ x. true;
  as_f64 = λ x. x;
}

abbrev governor : RelayGovernor ℕ ℕ
governor = record {
  capacity_per_min = 120;
  battery_percent = some 80;
  charging = false;
  load = 0;
  senders =
      (1 ∷ [], record { send_tokens = 3; recv_tokens = 200; last_refill_ms = pos 1_000 })
      ∷ (2 ∷ [], record { send_tokens = 0; recv_tokens = 5; last_refill_ms = pos 2_000 })
      ∷ [];
}

ordered : Ordered f64
ordered = record {
  of_nat_le = λ n. ground arith;
  times_one_le = λ x h. ground arith;
  min_le = λ x y h. ground arith;
  sub_le = λ x y h. ground arith;
}

counts : Counts f64
counts = record {
  nothing = refl;
  one_le = λ n h. ground arith;
  times_one = λ x h. ground arith;
  le_min = λ x y h k. ground arith;
}

take_token-Within_example :
    All
      (Within f64 f32 (price f64 f32 governor))
      (take_token f64 f32 (1 ∷ []) (pos 61_000) true governor).0.senders
take_token-Within_example = take_token-Within f64 f32 ordered (1 ∷ []) (pos 61_000) true governor

stranger : get (3 ∷ []) governor.senders ≡ none
unfolding get bytes_dec
stranger = refl

first_message_passes_example :
    (take_token f64 f32
      (3 ∷ [])
      (pos 3_000)
      true
      (register_sender f64 f32 (3 ∷ []) (pos 3_000) governor)).1
    ≡ true
first_message_passes_example =
    first_message_passes f64 f32 counts (3 ∷ []) (pos 3_000) true governor stranger

empty_bucket : (take_token f64 f32 (2 ∷ []) (pos 2_000) true governor).1 ≡ false
unfolding take_token get bytes_dec refill_all map_values shrink refill max_int wrap ◌-ℤ◌
    per_sender_cap budget_per_min
empty_bucket = refl

-- Fixed-point numbers, in sixty-thousandths.
abbrev fixed : Double ℕ
fixed = record {
  literal = λ m e. m * 60_000 / 10 ^ e;
  add = λ x y. x + y;
  sub = λ x y. x - y;
  mul = λ x y. x * y / 60_000;
  div = λ x y. x * 60_000 / y;
  min = λ x y. min x y;
  clamp = λ a b x. max a (min x b);
  le = λ x y. leb x y;
  lt = λ x y. ltb x y;
  of_nat = λ n. n * 60_000;
  round_u32 = λ x. x / 60_000;
}

fixed-Counts : Counts fixed
fixed-Counts = record {
  nothing = refl;
  one_le = λ n h. ground arith;
  times_one = λ x h. ground arith;
  le_min = λ x y h k. ground arith;
}

fixed_filled :
    (n e x : ℕ)
    → 6 ≤ n
    → 60_000 ≤ e
    → leb
        (6 * 60_000)
        (x + e * 60_000 * (n * 60_000 * 60_000 / 60_000 * 60_000 / (60_000 * 60_000)) / 60_000)
      ≡ true
fixed_filled n e x h k =
    let same : n * 60_000 * 60_000 / 60_000 * 60_000 / (60_000 * 60_000) ≡ n = omega arith in
    let least : 60_000 * 6 ≤ e * n = mul-le-mul k h in
    rw (same, mul_right_comm e 60_000 n) (ground arith)

fixed-Small : Small fixed
fixed-Small = record {
  some_time = λ e h. ground arith;
  le_price = λ k n h m. ground arith;
  le_min = λ k x y h m. ground arith;
  one_le = λ k x h. ground arith;
  one_less = λ k x h m. ground arith;
  filled = λ n e x h k z. fixed_filled n e x h k;
}

-- The second stranger has nothing left to send with.
abbrev empty : SenderQuota ℕ
empty = record { send_tokens = 0; recv_tokens = 5; last_refill_ms = pos 2_000 }

abbrev crowd : RelayGovernor ℕ ℕ
crowd = record governor { senders = (1 ∷ [], empty) ∷ (2 ∷ [], empty) ∷ [] }

has_bucket : get (2 ∷ []) crowd.senders ≡ some empty
unfolding get bytes_dec
has_bucket = refl

minute : 60_000 ≤ elapsed_ms fixed f32 (pos 62_000) empty.last_refill_ms
unfolding max_int wrap ◌-ℤ◌
minute = omega arith

six_a_minute_example : requests fixed f32 6 (2 ∷ []) (pos 62_000) true crowd ≡ replicate 6 true
six_a_minute_example =
    six_a_minute fixed f32 fixed-Counts fixed-Small (2 ∷ []) (pos 62_000) true crowd empty
      has_bucket minute refl
