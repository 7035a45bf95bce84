-- ===== src/Clock/Network.antt =====
-- clock.rs, `on_network_sync`: an offset is adopted from two sources that agree, in small steps.
use mesui.Prelude.{
  ℕ, ◌≡◌, refl, ap, ◌∙◌, ◌≢◌, ◌⊎◌, inl, inr, true, Option, none, some, List, [], ◌∷◌, arith, ◌==◌,
  if◌then◌else◌, Bool-cases,
}
use mesui.Prelude.Integers.{ℤ, pos, lez, ◌-ℤ◌, ◌+ℤ◌, wrap, abs, half, saturating_minus}
use mesui.Clock.{
  InternalClock, cross_check_tolerance_ms, network_adoption_cap_ms, network_adoption_cooldown_ms,
  discard, adopt, cross_check, network_offset, on_second, on_network_sync,
}

abbrev pub mean : ℤ → ℤ → ℤ
mean p o = half (wrap (p +ℤ o))

-- The offsets agree, their mean is near the offset in force, and the last adoption is long ago.
pub record Agreed (local_ms p o : ℤ) (c : InternalClock) : Type 0 where
  pub agree : lez (abs (wrap (p -ℤ o))) (pos cross_check_tolerance_ms) ≡ true
  pub capped :
      lez (abs (saturating_minus (mean p o) c.last_offset_ms)) (pos network_adoption_cap_ms) ≡ true
  pub cooled :
      lez (pos network_adoption_cooldown_ms) (saturating_minus local_ms c.last_network_adopted_at)
      ≡ true

-- The second source's offset is adopted, or what there was is discarded.
pub cross_check-cases :
    (local_ms p o : ℤ) (c : InternalClock)
    → (cross_check local_ms p o c ≡ discard c)
      ⊎ (Agreed local_ms p o c × (cross_check local_ms p o c ≡ adopt local_ms (mean p o) c))
unfolding cross_check
cross_check-cases local_ms p o c =
    elim (Bool-cases (lez (abs (wrap (p -ℤ o))) (pos cross_check_tolerance_ms))) [
      | inr n ↦ inl (rw (n, cross_check) refl)
      | inl a ↦
          elim (Bool-cases (
            lez (abs (saturating_minus (mean p o) c.last_offset_ms))
              (pos network_adoption_cap_ms))) [
                | inr n ↦ inl (rw (a, n, cross_check) refl)
                | inl b ↦
                    elim (Bool-cases (
                      lez (pos network_adoption_cooldown_ms)
                        (saturating_minus local_ms c.last_network_adopted_at))) [
                          | inr n ↦ inl (rw (a, b, n, cross_check) refl)
                          | inl d ↦ inr (
                            record { agree = a; capped = b; cooled = d },
                            rw (a, b, d, cross_check) refl,
                          )
                        ]
              ]
    ]

-- The source and the offset of the pending first reading.
abbrev pub Checked : ℕ → ℤ → ℤ → InternalClock → ℤ → Type 0
Checked source_id local_ms network_ms c o =
    (first : ℕ) × (p : ℤ) × (c.pending_network ≡ some (first, p))
    × (first ≢ source_id)
    × Agreed local_ms p (network_offset local_ms network_ms) c
    × (o ≡ mean p (network_offset local_ms network_ms))

-- A network offset after a reading is the one before it, or the mean of the readings of two
-- different sources that lie within five seconds of each other; then the mean is within two minutes
-- of the offset in force and the last adoption ten minutes ago.
pub adoption-Checked :
    (source_id : ℕ) (local_ms network_ms o : ℤ) (c : InternalClock)
    → (on_network_sync source_id local_ms network_ms c).network_offset_ms ≡ some o
    → (c.network_offset_ms ≡ some o) ⊎ Checked source_id local_ms network_ms c o
unfolding on_network_sync
adoption-Checked source_id local_ms network_ms o c h = go c.pending_network refl h
  where
    taken : InternalClock
    taken = record c { pending_network = none }

    crossed :
        (first : ℕ) (p : ℤ)
        → c.pending_network ≡ some (first, p)
        → first ≢ source_id
        → (cross_check local_ms p (network_offset local_ms network_ms) taken).network_offset_ms
          ≡ some o
        → (c.network_offset_ms ≡ some o) ⊎ Checked source_id local_ms network_ms c o
    crossed first p e n h =
        elim (cross_check-cases local_ms p (network_offset local_ms network_ms) taken) [
          | inl gone ↦ absurd (cc)
          | inr (agreed, took) ↦ inr (
            first,
            p,
            e,
            n,
            record { agree = agreed.agree; capped = agreed.capped; cooled = agreed.cooled },
            cc,
          )
        ]

    go :
        (l : Option (ℕ × ℤ))
        → c.pending_network ≡ l
        → (on_second source_id local_ms
            (network_offset local_ms network_ms)
            l
            taken).network_offset_ms
          ≡ some o
        → (c.network_offset_ms ≡ some o) ⊎ Checked source_id local_ms network_ms c o
    go none e h = inl h
    go (some (first, p)) e h = elim (Bool-cases (first == source_id)) [
      | inl t ↦ inl (rw (t, on_second) at h)
      | inr f ↦ crossed first p e (ground arith) (rw (f, on_second) at h)
    ]

-- The readings of one source, one after the other.
pub run_source : ℕ → List (ℤ × ℤ) → InternalClock → InternalClock
run_source source_id [] c = c
run_source source_id ((local_ms, network_ms) ∷ rs) c =
    run_source source_id rs (on_network_sync source_id local_ms network_ms c)

sync_again :
    (source_id : ℕ) (local_ms network_ms : ℤ) (c : InternalClock)
    → ((s : ℕ) (p : ℤ) → c.pending_network ≡ some (s, p) → s ≡ source_id)
    → ((on_network_sync source_id local_ms network_ms c).network_offset_ms ≡ c.network_offset_ms)
      × ((on_network_sync source_id local_ms network_ms c).pending_network
          ≡ some (source_id, network_offset local_ms network_ms))
unfolding on_network_sync
sync_again source_id local_ms network_ms c own = go c.pending_network refl
  where
    after : Option (ℕ × ℤ) → InternalClock
    after l =
        on_second source_id local_ms (network_offset local_ms network_ms) l
          (record c { pending_network = none })

    go :
        (l : Option (ℕ × ℤ))
        → c.pending_network ≡ l
        → ((after l).network_offset_ms ≡ c.network_offset_ms)
          × ((after l).pending_network ≡ some (source_id, network_offset local_ms network_ms))
    go none e = (refl, refl)
    go (some (s, p)) e =
        let same : (s == source_id) ≡ true = ground (arith, own s p e) in
        (
          ap (λ b. (if b then taken else crossed p).network_offset_ms) same,
          ap (λ b. (if b then taken else crossed p).pending_network) same,
        )
      where
        taken : InternalClock
        taken = record c { pending_network = some (source_id, network_offset local_ms network_ms) }

        crossed : ℤ → InternalClock
        crossed p =
            cross_check local_ms p (network_offset local_ms network_ms)
              (record c { pending_network = none })

-- Readings of a single source, whatever they are, never change the network offset, if no reading of
-- another source is pending.
pub one_source_ignored :
    (source_id : ℕ) (rs : List (ℤ × ℤ)) (c : InternalClock)
    → ((s : ℕ) (p : ℤ) → c.pending_network ≡ some (s, p) → s ≡ source_id)
    → (run_source source_id rs c).network_offset_ms ≡ c.network_offset_ms
unfolding run_source
one_source_ignored source_id [] c own = refl
one_source_ignored source_id ((l, n) ∷ rs) c own =
    let once = sync_again source_id l n c own in
    one_source_ignored source_id rs (on_network_sync source_id l n c) (λ s p e. cc) ∙ once.0
