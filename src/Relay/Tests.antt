-- ===== src/Relay/Tests.antt =====
-- The theorems on relay tickets at concrete tickets, with keys of one byte's repetition.
use mesui.Prelude.{
  ◌<◌, ◌≤◌, ◌≡◌, ◌≢◌, refl, true, false, some, [], ◌∷◌, Bytes, replicate, length, drop, arith, ok,
  bytes_dec, retain, be_bytes, done, codes, ◌-◌,
}
use mesui.Prelude.Map.{Map, get}
use mesui.Identity
use mesui.Identity.{Ed25519, Identity, fingerprint1024, fingerprint_input, absorb}
use mesui.Relay.{
  Entry, max_slots_per_origin, RelayTicket, sign, verify, signing_payload, ticket_prefix,
  fingerprint, RelayGuard, entry_of, accept, prune, make_room, free_slots, find_dead, origin_count,
  earliest,
}
use mesui.Relay.Ticket.{IsSized, IsFresh}
use mesui.Relay.Guard.{free_slots-lt}
use mesui.Relay.Accept.{IsValid, accept-IsValid}
use mesui.Relay.Replay.{run, replay_refused}
use mesui.Relay.Gaps.{interleaved_replay}

-- A scheme in which every signature of 64 bytes is good.
abbrev ed : Ed25519
ed = record {
  verifying_key = λ sk. sk;
  sign = λ sk m. replicate 64 1;
  from_bytes = done;
  verify_strict = λ vk m s. done tt;
}

-- The last bytes of the input, which hold the nonce and the challenge.
abbrev xof : Bytes → Bytes
xof m = drop (length m - 48) m

abbrev x : Bytes
x = replicate 32 8

abbrev y : Bytes
y = replicate 32 9

abbrev ticket : RelayTicket
ticket = record {
  dest_node_key = replicate 32 1;
  origin_node_key = replicate 32 2;
  expiry_ms = 4_000_000;
  issued_at_ms = 1_000_000;
  nonce = replicate 16 3;
  challenge_hash = x;
  sig = replicate 64 1;
}

-- Another origin's ticket, under the other challenge.
abbrev foreign : RelayTicket
foreign = record ticket {
  origin_node_key = replicate 32 5;
  nonce = replicate 16 6;
  challenge_hash = y;
}

abbrev guard : RelayGuard
guard = record { seen = []; max_entries = 8 }

guard-IsValid : IsValid guard
unfolding origin_count
guard-IsValid = record {
  positive = omega arith;
  bounded = omega arith;
  distinct = tt;
  slots = λ o. omega arith;
}

good : verify ed ticket 1_000_000 x ≡ ok tt
unfolding verify Identity.verify bytes_dec
good = refl

taken : (accept ed xof guard ticket 1_000_000 x).1 ≡ true
unfolding accept verify Identity.verify bytes_dec prune free_slots make_room find_dead origin_count
    earliest get retain
taken = refl

accept-IsValid_example : IsValid (accept ed xof guard ticket 1_000_000 x).0
accept-IsValid_example = accept-IsValid ed xof guard ticket 1_000_000 x guard-IsValid

elsewhere : ticket.origin_node_key ≢ foreign.origin_node_key
elsewhere e = cc

replay_refused_example :
    (accept ed xof
      (run ed xof x (accept ed xof guard ticket 1_000_000 x).0 ((foreign, 1_000_500) ∷ []))
      ticket
      2_000_000
      x).1
    ≡ false
replay_refused_example =
    replay_refused ed xof guard ticket ((foreign, 1_000_500) ∷ []) 1_000_000 2_000_000 x
      guard-IsValid (omega arith) (omega arith) taken (elsewhere, omega arith, omega arith)
      (omega arith)

abbrev origin : Identity
origin = record { sk = replicate 32 2 }

signed : sign ed ticket origin ≡ ok ticket
unfolding sign Identity.sign Identity.node_id bytes_dec
signed = refl

ticket-IsFresh : IsFresh ticket 1_000_000 x
ticket-IsFresh = record {
  random = λ e. cc;
  bound = refl;
  short = omega arith;
  issued = omega arith;
  unexpired = omega arith;
}

ticket-IsSized : IsSized ticket
ticket-IsSized = record {
  dest = refl;
  origin = refl;
  issued = omega arith;
  expiry = omega arith;
  nonce = refl;
}

unsigned-IsSized : IsSized (record ticket { sig = [] })
unsigned-IsSized = record {
  dest = refl;
  origin = refl;
  issued = omega arith;
  expiry = omega arith;
  nonce = refl;
}

same_payload : signing_payload ticket ≡ signing_payload (record ticket { sig = [] })
unfolding signing_payload
same_payload = refl

abbrev after : RelayGuard
after = record { seen = (fingerprint xof ticket, entry_of ticket x) ∷ []; max_entries = 8 }

after-IsValid : IsValid after
unfolding origin_count fingerprint fingerprint1024 get
after-IsValid = record {
  positive = omega arith;
  bounded = omega arith;
  distinct = (refl, tt);
  slots = λ o. ground arith;
}

on_record : get (fingerprint xof ticket) after.seen ≡ some (entry_of ticket x)
unfolding fingerprint fingerprint1024 fingerprint_input absorb signing_payload ticket_prefix codes
    be_bytes get bytes_dec
on_record = refl

apart : fingerprint xof foreign ≢ fingerprint xof ticket
unfolding fingerprint fingerprint1024 fingerprint_input absorb signing_payload ticket_prefix codes
    be_bytes
apart e = cc

foreign_taken : (accept ed xof after foreign 1_000_500 y).1 ≡ true
unfolding accept verify Identity.verify bytes_dec prune free_slots make_room find_dead origin_count
    earliest get retain fingerprint fingerprint1024 fingerprint_input absorb signing_payload
    ticket_prefix codes be_bytes
foreign_taken = refl

challenges : y ≢ x
challenges e = cc

still_good : verify ed ticket 1_001_000 x ≡ ok tt
unfolding verify Identity.verify bytes_dec
still_good = refl

interleaved_replay_example :
    (accept ed xof (accept ed xof after foreign 1_000_500 y).0 ticket 1_001_000 x).1 ≡ true
interleaved_replay_example =
    interleaved_replay ed xof after ticket foreign 1_000_500 1_001_000 x y after-IsValid on_record
      challenges apart foreign_taken still_good

abbrev entry : Entry
entry = entry_of ticket x

-- Five entries of one origin.
abbrev crowded : Map Entry
crowded =
    (1 ∷ [], entry) ∷ (2 ∷ [], entry) ∷ (3 ∷ [], entry) ∷ (4 ∷ [], entry) ∷ (5 ∷ [], entry) ∷ []

five : origin_count ticket.origin_node_key crowded ≤ 5
unfolding origin_count bytes_dec
five = omega arith

free_slots-lt_example :
    origin_count ticket.origin_node_key (free_slots 5 ticket.origin_node_key crowded)
    < max_slots_per_origin
free_slots-lt_example = free_slots-lt 5 ticket.origin_node_key crowded five
