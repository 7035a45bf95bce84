-- ===== src/Governor/Share.antt =====
-- governor.rs: the governor, and the share of the capacity that the battery and the load leave.
use mesui.Prelude.{ℕ, Bool, false, Option, none, some, [], if◌then◌else◌}
use mesui.Prelude.Map.{Map}
use mesui.Prelude.Integers.{ℤ}

-- `f64`; `literal m e` is the constant m / 10^e.
pub record Double (D : Type 0) : Type 0 where
  pub literal : ℕ → ℕ → D
  pub add : D → D → D
  pub sub : D → D → D
  pub mul : D → D → D
  pub div : D → D → D
  pub min : D → D → D
  pub clamp : D → D → D → D
  pub le : D → D → Bool
  pub lt : D → D → Bool
  pub of_nat : ℕ → D
  pub round_u32 : D → ℕ

-- `f32`, and its conversion.
pub record Single (S D : Type 0) : Type 0 where
  pub literal : ℕ → ℕ → S
  pub sub : S → S → S
  pub div : S → S → S
  pub clamp : S → S → S → S
  pub le : S → S → Bool
  pub is_finite : S → Bool
  pub as_f64 : S → D

pub record SenderQuota (D : Type 0) : Type 0 where
  pub send_tokens : D
  pub recv_tokens : D
  pub last_refill_ms : ℤ

pub record RelayGovernor (S D : Type 0) : Type 0 where
  pub capacity_per_min : ℕ
  pub battery_percent : Option ℕ
  pub charging : Bool
  pub load : S
  pub senders : Map (SenderQuota D)

abbrev pub floor_per_sender : ℕ
floor_per_sender = 6

abbrev pub refill_interval_ms : ℕ
refill_interval_ms = 60_000

module _ {S D : Type 0} (f64 : Double D) (f32 : Single S D) where
  abbrev pub share_full : D
  share_full = f64.literal 15 2

  abbrev pub share_floor : D
  share_floor = f64.literal 3 2

  abbrev pub battery_start : D
  battery_start = f64.literal 40 0

  abbrev pub battery_end : D
  battery_end = f64.literal 5 0

  abbrev pub load_start : S
  load_start = f32.literal 6 1

  abbrev pub load_end : S
  load_end = f32.literal 1 0

  unfoldable pub smoothstep : D → D
  smoothstep t =
      let t' = f64.clamp (f64.literal 0 0) (f64.literal 1 0) t in
      f64.mul (f64.mul t' t') (f64.sub (f64.literal 3 0) (f64.mul (f64.literal 2 0) t'))

  unfoldable pub new : ℕ → RelayGovernor S D
  new capacity_per_min = record {
    capacity_per_min = capacity_per_min;
    battery_percent = some 100;
    charging = false;
    load = f32.literal 0 0;
    senders = [];
  }

  unfoldable pub set_battery : Option ℕ → Bool → RelayGovernor S D → RelayGovernor S D
  set_battery percent charging g = record g { battery_percent = percent; charging = charging }

  unfoldable pub set_load : S → RelayGovernor S D → RelayGovernor S D
  set_load load g = record g {
    load =
        if f32.is_finite load
        then f32.clamp (f32.literal 0 0) (f32.literal 1 0) load
        else f32.literal 1 0;
  }

  -- Between the ends of a curve, at the part `t` of it.
  abbrev pub on_curve : D → D
  on_curve t = f64.add share_floor (f64.mul (f64.sub share_full share_floor) (smoothstep t))

  abbrev pub battery_level : ℕ → D
  battery_level p =
      if f64.le battery_start (f64.of_nat p)
      then share_full
      else if f64.le (f64.of_nat p) battery_end
      then share_floor
      else on_curve
          (f64.div (f64.sub (f64.of_nat p) battery_end) (f64.sub battery_start battery_end))

  unfoldable pub battery_share : RelayGovernor S D → D
  unfolding smoothstep
  battery_share g = elim g.battery_percent [
    | none ↦ share_full
    | some p ↦ if g.charging then share_full else battery_level p
  ]

  unfoldable pub load_share : RelayGovernor S D → D
  unfolding smoothstep
  load_share g =
      if f32.le g.load load_start
      then share_full
      else if f32.le load_end g.load
      then share_floor
      else on_curve (f32.as_f64 (f32.div (f32.sub g.load load_start) (f32.sub load_end load_start)))

  unfoldable pub share : RelayGovernor S D → D
  unfolding battery_share load_share
  share g = f64.min (battery_share g) (load_share g)
