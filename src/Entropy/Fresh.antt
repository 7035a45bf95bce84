-- ===== src/Entropy/Fresh.antt =====
-- entropy.rs: no two draws hash the same bytes.
use mesui.Prelude.{
  ℕ, ◌+◌, ◌≤◌, ◌<◌, ◌≡◌, ◌≢◌, refl, ap, List, [], ◌∷◌, ◌++◌, Bytes, length, length-append, be_bytes,
  length-be_bytes, wrapping_add, ok, Outcome, done, failed, arith,
}
use mesui.Entropy.{EntropyHarvester, mix, count, draw}

-- What is done to a harvester.
pub data HarvesterCall : Type 0 where
  mixes : Bytes → HarvesterCall
  draws_bytes : ℕ → Outcome Bytes → HarvesterCall

module _ (xof : Bytes → ℕ → Bytes) where
  unfoldable pub run : List HarvesterCall → EntropyHarvester → EntropyHarvester
  run [] h = h
  run (mixes bytes ∷ cs) h = run cs (mix bytes h)
  run (draws_bytes n filled ∷ cs) h = run cs (draw xof n filled h).0

  mix-grows : (bytes : Bytes) (h : EntropyHarvester) → length h.pool + 8 ≤ length (mix bytes h).pool
  unfolding mix
  mix-grows bytes h = omega (
    arith,
    length-append h.pool (be_bytes 8 (length bytes) ++ bytes),
    length-append (be_bytes 8 (length bytes)) bytes,
    length-be_bytes 8 (length bytes),
  )

  count-grows : (h : EntropyHarvester) → length (count h).pool ≡ length h.pool + 8
  count-grows h = omega (
    arith,
    length-append h.pool (be_bytes 8 (wrapping_add h.draws 1)),
    length-be_bytes 8 (wrapping_add h.draws 1),
  )

  draw-grows :
      (n : ℕ) (filled : Outcome Bytes) (h : EntropyHarvester)
      → length h.pool ≤ length (draw xof n filled h).0.pool
  unfolding draw
  draw-grows n (failed e) h = omega arith
  draw-grows n (done fresh) h = omega (arith, mix-grows fresh h, count-grows (mix fresh h))

  run-grows :
      (cs : List HarvesterCall) (h : EntropyHarvester) → length h.pool ≤ length (run cs h).pool
  unfolding run
  run-grows [] h = omega arith
  run-grows (mixes bytes ∷ cs) h = omega (arith, mix-grows bytes h, run-grows cs (mix bytes h))
  run-grows (draws_bytes n filled ∷ cs) h =
      omega (arith, draw-grows n filled h, run-grows cs (draw xof n filled h).0)

  drawn :
      (n : ℕ) (fresh : Bytes) (h : EntropyHarvester)
      → (draw xof n (done fresh) h).1 ≡ ok (xof (draw xof n (done fresh) h).0.pool n)
  unfolding draw
  drawn n fresh h = refl

  draw-grows_done :
      (n : ℕ) (fresh : Bytes) (h : EntropyHarvester)
      → length h.pool < length (draw xof n (done fresh) h).0.pool
  unfolding draw
  draw-grows_done n fresh h = omega (arith, mix-grows fresh h, count-grows (mix fresh h))

  -- Two successful draws, with whatever comes between, give the output for what the pool then holds, and
  -- hold different byte strings, so that outputs of one length are the same only if the output function
  -- collides, whatever the sources give and whatever is mixed in.
  pub draw_inputs_differ :
      (n m : ℕ) (fresh fresh' : Bytes) (cs : List HarvesterCall) (h : EntropyHarvester)
      → let first = draw xof n (done fresh) h in
        let second = draw xof m (done fresh') (run cs first.0) in
        (first.1 ≡ ok (xof first.0.pool n))
        × (second.1 ≡ ok (xof second.0.pool m))
        × (first.0.pool ≢ second.0.pool)
  draw_inputs_differ n m fresh fresh' cs h =
      let h1 = (draw xof n (done fresh) h).0 in
      let h2 = run cs h1 in
      (
        drawn n fresh h,
        drawn m fresh' h2,
        λ e. absurd (omega (arith, ap length e, run-grows cs h1, draw-grows_done m fresh' h2)),
      )
