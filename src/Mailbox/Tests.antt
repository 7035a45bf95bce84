-- ===== src/Mailbox/Tests.antt =====
-- The theorems on the mailbox at concrete writes.
use mesui.Prelude.{
  ℕ, zero, suc, ◌≡◌, ◌↔◌, refl, true, none, some, [], ◌∷◌, Bytes, replicate, length, All, arith, ok,
  is_err, diff, bytes_dec, retain, IsByte,
}
use mesui.Prelude.Map.{get, insert}
use mesui.Envelope.{Envelope, text}
use mesui.Mailbox.{
  BucketWrite, NonceCache, compute_mac, verify, verify_inbound, check_and_insert, mac_input,
}
use mesui.Mailbox.Binding.{IsSized, mac_input-injective}
use mesui.Mailbox.Verify.{IsTyped, InWindow, verify_iff}
use mesui.Mailbox.Replay.{run, replay_rejected}

abbrev keyed : Bytes → Bytes → Bytes
keyed k m = replicate 32 7

replicate-IsByte : (n : ℕ) → All IsByte (replicate n 7)
replicate-IsByte zero = tt
replicate-IsByte (suc n) = (omega arith, replicate-IsByte n)

keyed_out : (k m : Bytes) → (length (keyed k m) ≡ 32) × All IsByte (keyed k m)
keyed_out k m = (refl, replicate-IsByte 32)

abbrev letter : Envelope
letter = record {
  msg_id = replicate 16 1;
  sender = replicate 32 2;
  recipient = some (replicate 32 3);
  group = none;
  kind = text;
  body = 104 ∷ 105 ∷ [];
  sent_at_ms = 1_000_000;
  ttl_hops = 3;
}

abbrev secret : Bytes
secret = replicate 32 9

abbrev write : BucketWrite
write = record {
  envelope = letter;
  serial = 1;
  nonce = replicate 16 4;
  ts_ms = 1_000_000;
  mac = replicate 32 7;
}

abbrev other : BucketWrite
other = record write { envelope = record letter { msg_id = replicate 16 5 } }

abbrev empty : NonceCache
empty = record { entries = []; hard_cap = 4096 }

accepted : (verify_inbound keyed write secret empty 1_000_000).1 ≡ ok tt
unfolding verify_inbound verify compute_mac check_and_insert get insert retain diff bytes_dec
accepted = refl

replay_rejected_example :
    is_err
      (verify_inbound keyed write secret
        (run keyed
          (verify_inbound keyed write secret empty 1_000_000).0
          ((other, secret, 1_000_010) ∷ []))
        2_000_000).1
    ≡ true
replay_rejected_example =
    replay_rejected keyed empty write secret secret ((other, secret, 1_000_010) ∷ []) 1_000_000
      2_000_000 (omega arith) (omega arith) accepted (omega arith, omega arith)

write-IsTyped : IsTyped write
write-IsTyped = record { mac = refl; bytes = replicate-IsByte 32; ts = omega arith }

verify_iff_example :
    (verify keyed write secret 1_000_000 ≡ ok tt)
    ↔ ((write.mac ≡ keyed secret (mac_input write)) × InWindow write.ts_ms 1_000_000)
verify_iff_example = verify_iff keyed keyed_out write secret 1_000_000 write-IsTyped

write-IsSized : IsSized write
write-IsSized = record {
  serial = omega arith;
  nonce = refl;
  ts = omega arith;
  id = refl;
  sender = refl;
  recipient = refl;
  group = tt;
  sent = omega arith;
}

same_input : mac_input write ≡ mac_input (record write { mac = [] })
unfolding mac_input
same_input = refl

mac_input-injective_example :
    (write.envelope ≡ write.envelope)
    × (write.serial ≡ write.serial)
    × (write.nonce ≡ write.nonce)
    × (write.ts_ms ≡ write.ts_ms)
mac_input-injective_example =
    mac_input-injective write (record write { mac = [] }) write-IsSized
      (record {
        serial = omega arith;
        nonce = refl;
        ts = omega arith;
        id = refl;
        sender = refl;
        recipient = refl;
        group = tt;
        sent = omega arith;
      })
      same_input
