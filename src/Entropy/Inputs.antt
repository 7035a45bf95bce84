-- ===== src/Entropy/Inputs.antt =====
-- entropy.rs: what the bytes that a draw hashes are made of.
use mesui.Prelude.{
  ℕ, ◌<◌, ◌≡◌, ◌^◌, refl, sym, ap, ◌∙◌, ◌++◌, Bytes, length, length-append, be_bytes,
  length-be_bytes, be_bytes-injective, append-injective, wrapping_add, ok, done, arith,
}
use mesui.Entropy.{EntropyHarvester, mix, count, draw}

-- Two concatenations agree part by part when the last parts are as long.
suffix-injective :
    (us vs xs ys : Bytes) → length xs ≡ length ys → us ++ xs ≡ vs ++ ys → (us ≡ vs) × (xs ≡ ys)
suffix-injective us vs xs ys h e =
    append-injective us vs (omega (arith, h, ap length e, length-append us xs, length-append vs ys))
      e

mix-injective :
    (fresh fresh' : Bytes) (h h' : EntropyHarvester)
    → length fresh ≡ length fresh'
    → (mix fresh h).pool ≡ (mix fresh' h').pool
    → (h.pool ≡ h'.pool) × (fresh ≡ fresh')
unfolding mix
mix-injective fresh fresh' h h' l e =
    let (before, part) =
      suffix-injective h.pool h'.pool (be_bytes 8 (length fresh) ++ fresh)
        (be_bytes 8 (length fresh') ++ fresh')
        (omega (
          arith,
          l,
          length-append (be_bytes 8 (length fresh)) fresh,
          length-append (be_bytes 8 (length fresh')) fresh',
          length-be_bytes 8 (length fresh),
          length-be_bytes 8 (length fresh'),
        ))
        e in
    (
      before,
      (suffix-injective (be_bytes 8 (length fresh)) (be_bytes 8 (length fresh')) fresh fresh' l
          part).1,
    )

count-injective :
    (h h' : EntropyHarvester)
    → wrapping_add h.draws 1 < 256 ^ 8
    → wrapping_add h'.draws 1 < 256 ^ 8
    → (count h).pool ≡ (count h').pool
    → (h.pool ≡ h'.pool) × (wrapping_add h.draws 1 ≡ wrapping_add h'.draws 1)
count-injective h h' b b' e =
    let (before, part) =
      suffix-injective h.pool h'.pool (be_bytes 8 (wrapping_add h.draws 1))
        (be_bytes 8 (wrapping_add h'.draws 1)) (length-be_bytes 8 _ ∙ sym (length-be_bytes 8 _))
        e in
    (before, be_bytes-injective 8 _ _ b b' part)

wrapping_lt : (n : ℕ) → wrapping_add n 1 < 256 ^ 8
wrapping_lt n = omega arith

step_injective : (m n : ℕ) → m < 2 ^ 64 → n < 2 ^ 64 → wrapping_add m 1 ≡ wrapping_add n 1 → m ≡ n
step_injective m n h k e = omega arith

module _ (xof : Bytes → ℕ → Bytes) where
  -- A successful draw gives the output for the bytes that the pool then holds, and these determine what it
  -- was made of: two draws, of the same or of two harvesters, that hash the same bytes had the same pool
  -- before, were given the same bytes by the source and had the same counter, which a draw then raises by
  -- one. The source fills in as many bytes for both, and the counters fit 64 bits.
  pub draw_input-injective :
      (n n' : ℕ) (fresh fresh' : Bytes) (h h' : EntropyHarvester)
      → length fresh ≡ length fresh'
      → h.draws < 2 ^ 64
      → h'.draws < 2 ^ 64
      → let first = draw xof n (done fresh) h in
        let second = draw xof n' (done fresh') h' in
        first.0.pool ≡ second.0.pool
        → (first.1 ≡ ok (xof first.0.pool n))
          × (second.1 ≡ ok (xof first.0.pool n'))
          × (h.pool ≡ h'.pool)
          × (fresh ≡ fresh')
          × (h.draws ≡ h'.draws)
          × (first.0.draws ≡ wrapping_add h.draws 1)
  unfolding draw
  draw_input-injective n n' fresh fresh' h h' l b b' e =
      let (mixed, draws) =
        count-injective (mix fresh h) (mix fresh' h') (wrapping_lt _) (wrapping_lt _) e in
      let (before, same) = mix-injective fresh fresh' h h' l mixed in
      (
        refl,
        ap (λ p. ok (xof p n')) (sym e),
        before,
        same,
        step_injective h.draws h'.draws b b' draws,
        refl,
      )
