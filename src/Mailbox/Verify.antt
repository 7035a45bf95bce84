-- ===== src/Mailbox/Verify.antt =====
-- mailbox.rs, `BucketWrite::verify` and `seal`.
use mesui.Prelude.{
  ℕ, ◌+◌, ◌≤◌, ◌≡◌, refl, ◌↔◌, Bytes, length, diff, diff_zero_iff, IsByte, All, arith, ok, u64_max,
}
use mesui.Envelope.{Envelope}
use mesui.Mailbox.{BucketWrite, mac_input, seal, verify, replay_window_ms}

-- The MAC and the time stamp are of their Rust types.
pub record IsTyped (w : BucketWrite) : Type 0 where
  pub mac : length w.mac ≡ 32
  pub bytes : All IsByte w.mac
  pub ts : w.ts_ms ≤ u64_max

-- Within five minutes of the clock, either way.
abbrev pub InWindow : ℕ → ℕ → Type 0
InWindow ts_ms now_ms = (ts_ms ≤ now_ms + replay_window_ms) × (now_ms ≤ ts_ms + replay_window_ms)

-- Whatever the hash, a write that passes is within the window.
pub verify-InWindow :
    (keyed : Bytes → Bytes → Bytes) (w : BucketWrite) (secret : Bytes) (now_ms : ℕ)
    → w.ts_ms ≤ u64_max
    → verify keyed w secret now_ms ≡ ok tt
    → InWindow w.ts_ms now_ms
unfolding verify
verify-InWindow keyed w secret now_ms h v = ground arith

-- `blake3` gives 32 bytes.
module _ (keyed : Bytes → Bytes → Bytes)
    (out : (k m : Bytes) → (length (keyed k m) ≡ 32) × All IsByte (keyed k m)) where
  verify_split :
      (w : BucketWrite) (secret : Bytes) (now_ms d : ℕ)
      → w.ts_ms ≤ u64_max
      → diff 0 w.mac (keyed secret (mac_input w)) ≡ d
      → (verify keyed w secret now_ms ≡ ok tt) ↔ ((d ≡ 0) × InWindow w.ts_ms now_ms)
  unfolding verify
  verify_split w secret now_ms d h e = rw e (λ v. ground arith, λ v. ground arith)

  -- A write passes exactly when its MAC is the keyed hash of its signed string and its time stamp
  -- is within the window of the clock. The hash gives 32 bytes, the MAC has 32 bytes and the time
  -- stamp fits 64 bits.
  pub verify_iff :
      (w : BucketWrite) (secret : Bytes) (now_ms : ℕ)
      → IsTyped w
      → (verify keyed w secret now_ms ≡ ok tt)
        ↔ ((w.mac ≡ keyed secret (mac_input w)) × InWindow w.ts_ms now_ms)
  verify_iff w secret now_ms t =
      let mac = keyed secret (mac_input w) in
      let same =
        diff_zero_iff w.mac mac t.bytes (out secret (mac_input w)).1
          (omega (arith, (out secret (mac_input w)).0, t.mac)) in
      let split = verify_split w secret now_ms (diff 0 w.mac mac) t.ts refl in
      (λ v. let (z, near) = split.0 v in (same.0 z, near), λ v. split.1 (same.1 v.0, v.1))

  -- A sealed write verifies under its secret at every time within the window. The hash gives 32
  -- bytes and the time stamp fits 64 bits.
  pub verify-seal :
      (env : Envelope) (secret : Bytes) (serial ts_ms now_ms : ℕ) (nonce : Bytes)
      → ts_ms ≤ u64_max
      → InWindow ts_ms now_ms
      → verify keyed (seal keyed env secret serial ts_ms nonce) secret now_ms ≡ ok tt
  unfolding seal mac_input
  verify-seal env secret serial ts_ms now_ms nonce h near =
      let w = seal keyed env secret serial ts_ms nonce in
      let o = out secret (mac_input w) in
      (verify_iff w secret now_ms (record { mac = o.0; bytes = o.1; ts = h })).1 (refl, near)
