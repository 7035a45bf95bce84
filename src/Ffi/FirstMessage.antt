-- ===== src/Ffi/FirstMessage.antt =====
-- ffi.rs, `signal_ffi`: the functions on the first message.
use Prim.Native.String.{String}
use mesui.Prelude.{Bool, not, ◌==◌, Bytes, length, is_err}
use mesui.Signal.Engine.{SignalProtocolError, SignalResult}
use mesui.Handshake.First
use mesui.Ffi.Errors.{DcResult, returned, from_sig, sized, ◌>>◌}

-- `derive_key` and `keyed` are those of `blake3`.
module _ (derive_key keyed : Bytes → Bytes → Bytes) where
  unfoldable pub first_message_mac : Bytes → Bytes → Bytes → DcResult Bytes
  unfolding First.first_message_mac
  first_message_mac token bucket ciphertext = do
    sized (length bucket == 32) "bucket must be 32 bytes"
    returned (First.first_message_mac derive_key keyed token bucket ciphertext)

  unfoldable pub verify_first_message_mac : Bytes → Bytes → Bytes → Bytes → DcResult Bool
  unfolding First.verify_first_message_mac
  verify_first_message_mac token bucket ciphertext mac = do
    sized (length bucket == 32) "bucket must be 32 bytes"
    sized (length mac == 32) "mac must be 32 bytes"
    returned
        (not (is_err (First.verify_first_message_mac derive_key keyed token bucket ciphertext mac)))

-- `read_sender` is the identity key of a message that the library reads.
unfoldable pub prekey_sender_identity :
    (SignalProtocolError → String) → (Bytes → SignalResult Bytes) → Bytes → DcResult Bytes
prekey_sender_identity display read_sender ciphertext = from_sig display (read_sender ciphertext)
