-- ===== src/Adaptive.antt =====
-- crates/core/src/adaptive.rs: the tier of the transport policy, from the load that is observed. The
-- rates are floating-point numbers of a type `F` with the operations that the code uses of it.
pub mod Tiers
mod Tests
use mesui.Prelude.{
  ℕ, ◌+◌, ◌*◌, ◌%◌, ◌^◌, Bool, true, false, not, ◌||◌, Option, none, some, ltb, leb, if◌then◌else◌,
  min, u32_max,
}

-- What the code uses of `f32`.
pub record Float (F : Type 0) : Type 0 where
  pub is_finite : F → Bool
  pub infinity : F
  pub gt : F → F → Bool
  pub times_four : F → F

pub data Tier : Type 0 where
  light medium heavy : Tier

-- The place of a tier in the derived order.
abbrev pub rank : Tier → ℕ
rank light = 0
rank medium = 1
rank heavy = 2

pub record Thresholds (F : Type 0) : Type 0 where
  pub group_medium : ℕ
  pub rate_medium : F
  pub demote_samples : ℕ

pub record Metrics (F : Type 0) : Type 0 where
  pub group_size : ℕ
  pub msg_rate : F

pub record PolicyEngine (F : Type 0) : Type 0 where
  pub thresholds : Thresholds F
  pub locked : Option Tier
  pub tier : Tier
  pub below_count : ℕ

module _ {F : Type 0} where
  unfoldable pub new : Thresholds F → PolicyEngine F
  new thresholds = record { thresholds = thresholds; locked = none; tier = light; below_count = 0 }

  unfoldable pub current : PolicyEngine F → Tier
  current e = elim e.locked [ none ↦ e.tier | some t ↦ t ]

abbrev pub lower : Tier → Tier
lower heavy = medium
lower medium = light
lower light = light

module _ {F : Type 0} (float : Float F) where
  unfoldable pub demanded : Thresholds F → Metrics F → Tier
  demanded t m =
      let rate = if float.is_finite m.msg_rate then m.msg_rate else float.infinity in
      let high_load = ltb t.group_medium m.group_size || float.gt rate t.rate_medium in
      let extreme_load =
        ltb (min (t.group_medium * 4) u32_max) m.group_size
        || float.gt rate (float.times_four t.rate_medium) in
      if extreme_load then heavy else (if high_load then medium else light)

  -- The part of `observe` below the lock, with the tier that is wanted.
  abbrev pub adjust : Tier → PolicyEngine F → PolicyEngine F
  adjust want e =
      let count = (e.below_count + 1) % 2 ^ 32 in
      if ltb (rank e.tier) (rank want)
      then record e { tier = want; below_count = 0 }
      else (if ltb (rank want) (rank e.tier)
          then (if leb e.thresholds.demote_samples count
              then record e { tier = lower e.tier; below_count = 0 }
              else record e { below_count = count })
          else record e { below_count = 0 })

  -- `observe`, by the lock it finds.
  abbrev pub observe_with : Option Tier → Metrics F → PolicyEngine F → PolicyEngine F × Tier
  observe_with (some t) m e = (e, current e)
  observe_with none m e = let e' = adjust (demanded e.thresholds m) e in (e', e'.tier)

  unfoldable pub observe : Metrics F → PolicyEngine F → PolicyEngine F × Tier
  observe m e = observe_with e.locked m e
