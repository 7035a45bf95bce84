-- ===== src/Nodekey/Tests.antt =====
-- The theorems on node key announcements at concrete ones.
use mesui.Prelude.{
  ◌≡◌, subst, refl, true, false, some, [], ◌∷◌, Bytes, replicate, arith, ok, bytes_dec, retain, any,
  done,
}
use mesui.Prelude.Map.{get, insert}
use mesui.Identity
use mesui.Identity.{Ed25519, Identity}
use mesui.Nodekey.{
  NodeKeyAnnouncement, NodeKeyRing, verify, signing_payload, upsert, update_slot, trim, current,
  newest, slot_of,
}
use mesui.Nodekey.Announcement.{IsSized}
use mesui.Nodekey.Upsert.{Genuine, IsValid, superseded, upsert-IsValid}
use mesui.Nodekey.Current.{IsActive, Greatest, current-Greatest, current-upsert}

-- A scheme in which every signature of 64 bytes is good.
abbrev ed : Ed25519
ed = record {
  verifying_key = λ sk. sk;
  sign = λ sk m. replicate 64 1;
  from_bytes = done;
  verify_strict = λ vk m s. done tt;
}

abbrev alice : Bytes
alice = replicate 32 1

abbrev first : NodeKeyAnnouncement
first = record {
  identity = alice;
  node_key = replicate 32 2;
  serial = 1;
  not_before_ms = 1_000;
  not_after_ms = 604_801_000;
  sig = replicate 64 1;
}

abbrev second : NodeKeyAnnouncement
second = record first { node_key = replicate 32 3; serial = 2; not_before_ms = 5_000 }

abbrev ring : NodeKeyRing
ring = (alice, first ∷ []) ∷ []

first_good : verify ed first ≡ ok tt
unfolding verify Identity.verify
first_good = refl

empty-IsValid : IsValid ed []
unfolding get
empty-IsValid = record { bounded = λ i. omega arith; genuine = λ i. tt }

first_taken : (upsert ed [] first 2_000).0 ≡ ring
unfolding upsert verify Identity.verify update_slot trim retain any get insert
first_taken = refl

ring-IsValid : IsValid ed ring
ring-IsValid = subst (IsValid ed) first_taken (upsert-IsValid ed [] first 2_000 empty-IsValid)

second_taken : (upsert ed ring second 6_000).1 ≡ ok tt
unfolding upsert verify Identity.verify
second_taken = refl

not_superseded : superseded second (slot_of second.identity ring) ≡ false
unfolding any get bytes_dec
not_superseded = refl

current-upsert_example : current (upsert ed ring second 6_000).0 alice 6_000 ≡ some second.node_key
current-upsert_example =
    current-upsert ed ring second 6_000 ring-IsValid second_taken not_superseded (omega arith)

first_current : current ring alice 6_000 ≡ some first.node_key
unfolding current newest retain get bytes_dec
first_current = refl

current-Greatest_example :
    (e : NodeKeyAnnouncement) × (e.node_key ≡ first.node_key)
    × Genuine ed alice e
    × IsActive 6_000 e
    × Greatest 6_000 e (slot_of alice ring)
current-Greatest_example =
    current-Greatest ed ring alice first.node_key 6_000 ring-IsValid first_current

upsert-IsValid_example : IsValid ed (upsert ed ring second 6_000).0
upsert-IsValid_example = upsert-IsValid ed ring second 6_000 ring-IsValid

abbrev newer : NodeKeyRing
newer = (alice, second ∷ []) ∷ []

superseded-first : superseded first (slot_of first.identity newer) ≡ true
unfolding any get bytes_dec
superseded-first = refl

first-IsSized : IsSized first
first-IsSized = record {
  identity = refl;
  node_key = refl;
  serial = omega arith;
  not_before = omega arith;
  not_after = omega arith;
}

unsigned-IsSized : IsSized (record first { sig = [] })
unsigned-IsSized = record {
  identity = refl;
  node_key = refl;
  serial = omega arith;
  not_before = omega arith;
  not_after = omega arith;
}

same_payload : signing_payload first ≡ signing_payload (record first { sig = [] })
unfolding signing_payload
same_payload = refl
