-- ===== src/Handshake/First.antt =====
-- handshake.rs: the MAC on the first message, under a key from the scanned token and the bucket.
use mesui.Prelude.{◌==◌, not, Bytes, codes, ◌++◌, diff, crypto, Result, ok, ◌>>◌, fail_if}
use mesui.Mailbox.{derive_mailbox_secret}

-- `derive_key` and `keyed` are those of `blake3`.
module _ (derive_key keyed : Bytes → Bytes → Bytes) where
  unfoldable pub first_message_mac : Bytes → Bytes → Bytes → Bytes
  unfolding codes derive_mailbox_secret
  first_message_mac token bucket ciphertext =
      keyed (derive_mailbox_secret derive_key token bucket 0)
        (codes "dc-first-msg-v1" ++ ciphertext)

  unfoldable pub verify_first_message_mac : Bytes → Bytes → Bytes → Bytes → Result (Unit {0})
  unfolding first_message_mac diff
  verify_first_message_mac token bucket ciphertext mac = do
    fail_if (not (diff 0 mac (first_message_mac token bucket ciphertext) == 0))
        (crypto "first-message token mac mismatch")
    ok tt
