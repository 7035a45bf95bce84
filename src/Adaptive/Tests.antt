-- ===== src/Adaptive/Tests.antt =====
-- The theorems on the tiers at concrete loads, with rates in whole messages.
use mesui.Prelude.{ℕ, ◌≤◌, ◌<◌, refl, none, arith, ◌*◌}
use mesui.Prelude.{ltb}
use mesui.Adaptive.{Float, heavy, rank, Metrics, PolicyEngine, demanded, observe}
use mesui.Adaptive.Tiers.{observe_covers}

abbrev whole : Float ℕ
whole = record {
  is_finite = λ r. ltb r 1_000_000;
  infinity = 1_000_000;
  gt = λ a b. ltb b a;
  times_four = λ a. a * 4;
}

abbrev engine : PolicyEngine ℕ
engine = record {
  thresholds = record { group_medium = 50; rate_medium = 20; demote_samples = 3 };
  locked = none;
  tier = heavy;
  below_count = 0;
}

abbrev idle : Metrics ℕ
idle = record { group_size = 10; msg_rate = 1 }

observe_covers_example :
    rank (demanded whole engine.thresholds idle) ≤ rank (observe whole idle engine).1
observe_covers_example = observe_covers whole idle engine refl

idle_calm : rank (demanded whole engine.thresholds idle) < rank engine.tier
unfolding demanded
idle_calm = omega arith
