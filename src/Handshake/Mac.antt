-- ===== src/Handshake/Mac.antt =====
-- handshake.rs: which first messages pass.
use mesui.Prelude.{◌≡◌, refl, ◌↔◌, ℕ, Bytes, length, All, IsByte, diff, diff_zero_iff, ok, arith}
use mesui.Handshake.First.{first_message_mac, verify_first_message_mac}

-- `blake3` gives 32 bytes.
module _ (derive_key keyed : Bytes → Bytes → Bytes)
    (out : (k m : Bytes) → (length (keyed k m) ≡ 32) × All IsByte (keyed k m)) where
  mac_split :
      (token bucket ciphertext mac : Bytes) (d : ℕ)
      → diff 0 mac (first_message_mac derive_key keyed token bucket ciphertext) ≡ d
      → (verify_first_message_mac derive_key keyed token bucket ciphertext mac ≡ ok tt) ↔ (d ≡ 0)
  unfolding verify_first_message_mac
  mac_split token bucket ciphertext mac d e = rw e (λ v. ground arith, λ v. ground arith)

  mac_out :
      (token bucket ciphertext : Bytes)
      → (length (first_message_mac derive_key keyed token bucket ciphertext) ≡ 32)
        × All IsByte (first_message_mac derive_key keyed token bucket ciphertext)
  unfolding first_message_mac
  mac_out token bucket ciphertext = out _ _

  -- A first message passes exactly when its MAC is the one that `first_message_mac` makes from the
  -- token, the bucket and the ciphertext. The keyed hash gives 32 bytes, and the MAC has 32 bytes.
  pub verify_first_message_mac_iff :
      (token bucket ciphertext mac : Bytes)
      → length mac ≡ 32
      → All IsByte mac
      → (verify_first_message_mac derive_key keyed token bucket ciphertext mac ≡ ok tt)
        ↔ (mac ≡ first_message_mac derive_key keyed token bucket ciphertext)
  verify_first_message_mac_iff token bucket ciphertext mac l b =
      let expected = first_message_mac derive_key keyed token bucket ciphertext in
      let hash = mac_out token bucket ciphertext in
      let same = diff_zero_iff mac expected b hash.1 (omega (arith, hash.0, l)) in
      let split = mac_split token bucket ciphertext mac (diff 0 mac expected) refl in
      (λ v. same.0 (split.0 v), λ e. split.1 (same.1 e))
