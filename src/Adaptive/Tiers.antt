-- ===== src/Adaptive/Tiers.antt =====
-- adaptive.rs: load is met at once, and given up one tier at a time after a lasting calm.
use mesui.Prelude.{
  ◌+◌, ◌-◌, ◌^◌, ◌≤◌, ◌<◌, ◌≡◌, refl, ap, ◌∙◌, none, some, List, [], ◌∷◌, ◌++◌, arith, length, All,
  Option-cases, inl, inr,
}
use mesui.Adaptive.{
  Float, Tier, light, medium, heavy, rank, Metrics, PolicyEngine, current, lower, demanded, adjust,
  observe_with, observe,
}

lower-rank : (t : Tier) → rank (lower t) ≡ rank t - 1
lower-rank light = refl
lower-rank medium = refl
lower-rank heavy = refl

module _ {F : Type 0} (float : Float F) where
  adjust-covers : (want : Tier) (e : PolicyEngine F) → rank want ≤ rank (adjust float want e).tier
  adjust-covers want e = ground (arith, lower-rank e.tier)

  adjust-lowers :
      (want : Tier) (e : PolicyEngine F) → rank e.tier ≤ rank (adjust float want e).tier + 1
  adjust-lowers want e = ground (arith, lower-rank e.tier)

  adjust-calm :
      (want : Tier) (e : PolicyEngine F)
      → rank want < rank e.tier
      → e.below_count + 1 < e.thresholds.demote_samples
      → e.thresholds.demote_samples < 2 ^ 32
      → adjust float want e ≡ record e { below_count = e.below_count + 1 }
  adjust-calm want e calm less bound = ground arith

  adjust-full :
      (want : Tier) (e : PolicyEngine F)
      → rank want < rank e.tier
      → e.below_count + 1 ≡ e.thresholds.demote_samples
      → e.thresholds.demote_samples < 2 ^ 32
      → adjust float want e ≡ record e { tier = lower e.tier; below_count = 0 }
  adjust-full want e calm full bound = ground arith

  current_open : (e : PolicyEngine F) → e.locked ≡ none → current e ≡ e.tier
  unfolding current
  current_open e h = rw (h, current) refl

  -- The engine, fed one sample after the other.
  pub run : List (Metrics F) → PolicyEngine F → PolicyEngine F
  run [] e = e
  run (m ∷ ms) e = run ms (observe float m e).0

  run-append :
      (ms ns : List (Metrics F)) (e : PolicyEngine F) → run (ms ++ ns) e ≡ run ns (run ms e)
  unfolding run
  run-append [] ns e = refl
  run-append (m ∷ ms) ns e = run-append ms ns (observe float m e).0

  -- Unless the user locked a tier, the tier in force is never below what the sample demands.
  pub observe_covers :
      (m : Metrics F) (e : PolicyEngine F)
      → e.locked ≡ none
      → rank (demanded float e.thresholds m) ≤ rank (observe float m e).1
  unfolding observe
  observe_covers m e open_ =
      rw (ap (λ l. observe_with float l m e) open_)
        (adjust-covers (demanded float e.thresholds m) e)

  -- A sample lowers the tier by one at most.
  pub observe_lowers_by_one :
      (m : Metrics F) (e : PolicyEngine F) → rank (current e) ≤ rank (observe float m e).1 + 1
  unfolding observe current
  observe_lowers_by_one m e = elim (Option-cases e.locked) [
    | inl o ↦
        rw (ap (λ l. observe_with float l m e) o, current_open e o)
          (adjust-lowers (demanded float e.thresholds m) e)
    | inr (t, o) ↦ rw (ap (λ l. observe_with float l m e) o) (omega arith)
  ]

  -- A locked engine is unchanged by any samples and stays at the tier of the lock.
  pub locked_stays :
      (ms : List (Metrics F)) (e : PolicyEngine F) (t : Tier)
      → e.locked ≡ some t
      → (run ms e ≡ e) × (current (run ms e) ≡ t)
  unfolding observe current run
  locked_stays [] e t h = (refl, rw (h, current) refl)
  locked_stays (m ∷ ms) e t h =
      let same : (observe float m e).0 ≡ e = ap (λ l. (observe_with float l m e).0) h in
      rw (same, run) (locked_stays ms e t h)

  abbrev Calm : PolicyEngine F → Metrics F → Type 0
  Calm e m = rank (demanded float e.thresholds m) < rank e.tier

  -- Fewer samples below the tier than `demote_samples` only count up.
  pub Calm-waits :
      (ms : List (Metrics F)) (e : PolicyEngine F)
      → e.locked ≡ none
      → All (Calm e) ms
      → e.below_count + length ms < e.thresholds.demote_samples
      → e.thresholds.demote_samples < 2 ^ 32
      → run ms e ≡ record e { below_count = e.below_count + length ms }
  unfolding observe run
  Calm-waits [] e open_ calm less bound = ap (λ n. record e { below_count = n }) (omega arith)
  Calm-waits (m ∷ ms) e open_ calm less bound =
      let counted : PolicyEngine F = record e { below_count = e.below_count + 1 } in
      let once : (observe float m e).0 ≡ counted =
        ap (λ l. (observe_with float l m e).0) open_
        ∙ adjust-calm (demanded float e.thresholds m) e calm.0 (omega arith) bound in
      let ih = Calm-waits ms counted open_ calm.1 (omega arith) bound in
      ap (run ms) once ∙ (ih ∙ ap (λ n. record e { below_count = n }) (omega arith))

  -- Unless a tier is locked, with the sample that completes `demote_samples` consecutive ones below
  -- the tier, the tier goes down by one and the count starts anew.
  pub Calm-lowers :
      (ms : List (Metrics F)) (m : Metrics F) (e : PolicyEngine F)
      → e.locked ≡ none
      → All (Calm e) ms
      → Calm e m
      → e.below_count + length ms + 1 ≡ e.thresholds.demote_samples
      → e.thresholds.demote_samples < 2 ^ 32
      → run (ms ++ m ∷ []) e ≡ record e { tier = lower e.tier; below_count = 0 }
  unfolding observe run
  Calm-lowers ms m e open_ calm last full bound =
      let waiting : PolicyEngine F = record e { below_count = e.below_count + length ms } in
      let lowered : PolicyEngine F = record e { tier = lower e.tier; below_count = 0 } in
      let once : (observe float m waiting).0 ≡ lowered =
        ap (λ l. (observe_with float l m waiting).0) open_
        ∙ adjust-full (demanded float e.thresholds m) waiting last full bound in
      run-append ms (m ∷ []) e
      ∙ (ap (run (m ∷ [])) (Calm-waits ms e open_ calm (omega arith) bound) ∙ once)
