-- ===== src/Entropy.antt =====
-- crates/core/src/entropy.rs: the pool of entropy. A hasher is the bytes that it has read; the output
-- function of `blake3` and what `getrandom::fill` makes of a buffer are arguments.
pub mod Fresh
pub mod Inputs
mod Tests
use mesui.Prelude.{
  ℕ, ◌+◌, ◌++◌, Bytes, codes, length, be_bytes, wrapping_add, Result, ok, err, ◌>>=◌, entropy,
  Outcome, done, failed, map_err,
}

pub record EntropyHarvester : Type 0 where
  pub pool : Bytes
  pub draws : ℕ

unfoldable pub new : Outcome Bytes → Result EntropyHarvester
unfolding codes
new filled = do
  seed ← map_err entropy filled
  ok (record { pool = codes "dc-entropy-v1" ++ seed; draws = 0 })

unfoldable pub mix : Bytes → EntropyHarvester → EntropyHarvester
unfolding be_bytes
mix bytes h = record h { pool = h.pool ++ (be_bytes 8 (length bytes) ++ bytes) }

-- The counter goes into the pool after it was raised.
abbrev pub count : EntropyHarvester → EntropyHarvester
count h =
    let draws = wrapping_add h.draws 1 in
    record { pool = h.pool ++ be_bytes 8 draws; draws = draws }

-- `xof` gives so many bytes for what the hasher has read.
module _ (xof : Bytes → ℕ → Bytes) where
  unfoldable pub draw : ℕ → Outcome Bytes → EntropyHarvester → EntropyHarvester × Result Bytes
  unfolding mix
  draw n filled h = elim filled [
    | failed e ↦ (h, err (entropy e))
    | done fresh ↦ let h' = count (mix fresh h) in (h', ok (xof h'.pool n))
  ]

  unfoldable pub token512 : Outcome Bytes → EntropyHarvester → EntropyHarvester × Result Bytes
  unfolding draw
  token512 filled h = draw 64 filled h
