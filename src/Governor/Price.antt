-- ===== src/Governor/Price.antt =====
-- governor.rs: the price that a stranger is charged at.
use native.Mathlib.Nat.{div-mul-le_self}
use mesui.Prelude.{
  zero, suc, dec_lt, ℕ, ◌*◌, ◌/◌, ◌%◌, ◌^◌, ◌≤◌, ◌<◌, ◌⊎◌, inl, inr, ◌≡◌, max, length, arith, false,
  ◌==◌, if◌then◌else◌,
}
use mesui.Governor.{Double, Single, RelayGovernor, per_sender_cap, budget_per_min}

-- The price of `n` senders: six, or more with all of them within the budget.
fair :
    (b n : ℕ)
    → n < 2 ^ 32
    → (6 ≤ (if n == 0 then max b 6 else max (b / (n % 2 ^ 32)) 6))
      × (((if n == 0 then max b 6 else max (b / (n % 2 ^ 32)) 6) ≡ 6)
          ⊎ ((if n == 0 then max b 6 else max (b / (n % 2 ^ 32)) 6) * n ≤ b))
fair b zero h = (omega arith, inr (omega arith))
fair b (suc n) h =
    let whole : suc n % 2 ^ 32 ≡ suc n = omega arith in
    let some_one : (suc n == 0) ≡ false = ground arith in
    rw whole (
      rw some_one (elim (dec_lt 6 (b / suc n)) [
        | yes more ↦ (
          omega arith,
          inr (
              let e : max (b / suc n) 6 ≡ b / suc n = omega arith in
              rw e (div-mul-le_self b (suc n))),
        )
        | no few ↦ (omega arith, inl (omega arith))
      ]))

module _ {S D : Type 0} (f64 : Double D) (f32 : Single S D) where
  -- The price of a stranger is six at least, however many are connected and however little the battery
  -- or the load leave. Beyond the six, the prices of all the connected strangers together are within the
  -- budget. There are fewer than 2^32 of them.
  pub per_sender_cap_fair :
      (g : RelayGovernor S D)
      → length g.senders < 2 ^ 32
      → (6 ≤ per_sender_cap f64 f32 g)
        × ((per_sender_cap f64 f32 g ≡ 6)
            ⊎ (per_sender_cap f64 f32 g * length g.senders ≤ budget_per_min f64 f32 g))
  unfolding per_sender_cap
  per_sender_cap_fair g h = fair (budget_per_min f64 f32 g) (length g.senders) h

  pub six_le_cap : (g : RelayGovernor S D) → 6 ≤ per_sender_cap f64 f32 g
  unfolding per_sender_cap
  six_le_cap g = ground arith
