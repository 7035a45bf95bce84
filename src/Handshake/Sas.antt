-- ===== src/Handshake/Sas.antt =====
-- handshake.rs, `sas_code`: the safety code that the two ends compare. The fingerprint of the library and
-- the hash of `blake3` are arguments; a text is the list of its codes.
use mesui.Prelude.{
  ℕ, zero, suc, ◌+◌, ◌/◌, ◌%◌, [], ◌∷◌, ◌++◌, Bytes, codes, take, from_be, crypto, Result, ok,
  ◌>>=◌, Outcome, map_err,
}

-- `Fingerprint` with its versions and iterations already given.
pub record FingerprintApi (F : Type 0) : Type 0 where
  pub new : Bytes → Bytes → Bytes → Bytes → Outcome F
  pub display_string : F → Outcome Bytes

-- The last `w` decimal digits.
unfoldable pub decimals : ℕ → ℕ → Bytes
decimals zero n = []
decimals (suc w) n = decimals w (n / 10) ++ (48 + n % 10) ∷ []

-- The first four bytes of the digest as a number below a million.
unfoldable pub short_code : (Bytes → Bytes) → Bytes → ℕ
unfolding codes from_be
short_code hash full = from_be 0 (take 4 (hash (codes "dc-sas6-v1" ++ full))) % 1_000_000

module _ {F : Type 0} (api : FingerprintApi F) (hash : Bytes → Bytes) where
  unfoldable pub sas_code : Bytes → Bytes → Bytes → Bytes → Result (Bytes × Bytes)
  unfolding decimals short_code
  sas_code local_id local_key remote_id remote_key = do
    fp ← map_err crypto (api.new local_id local_key remote_id remote_key)
    full ← map_err crypto (api.display_string fp)
    ok (full, decimals 6 (short_code hash full))
