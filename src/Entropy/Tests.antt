-- ===== src/Entropy/Tests.antt =====
-- The theorem on the pool of entropy at a concrete harvester.
use mesui.Prelude.{arith, Result, ℕ, ◌≡◌, refl, [], ◌∷◌, Bytes, take, ok, done, wrapping_add}
use mesui.Entropy.{EntropyHarvester, draw}
use mesui.Entropy.Inputs.{draw_input-injective}

abbrev xof : Bytes → ℕ → Bytes
xof bytes n = take n bytes

abbrev harvester : EntropyHarvester
harvester = record { pool = 1 ∷ []; draws = 0 }

abbrev drawn : EntropyHarvester × Result Bytes
drawn = draw xof 8 (done (5 ∷ [])) harvester

draw_input-injective_example :
    (drawn.1 ≡ ok (xof drawn.0.pool 8))
    × (drawn.1 ≡ ok (xof drawn.0.pool 8))
    × (harvester.pool ≡ harvester.pool)
    × (◌≡◌ {A = Bytes} (5 ∷ []) (5 ∷ []))
    × (harvester.draws ≡ harvester.draws)
    × (drawn.0.draws ≡ wrapping_add 0 1)
draw_input-injective_example =
    draw_input-injective xof 8 8 (5 ∷ []) (5 ∷ []) harvester harvester refl (omega arith)
      (omega arith) refl

draw_runs : (draw xof 64 (done (5 ∷ [])) harvester).0.draws ≡ 1
unfolding draw
draw_runs = refl
