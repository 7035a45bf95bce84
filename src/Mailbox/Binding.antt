-- ===== src/Mailbox/Binding.antt =====
-- mailbox.rs, `mac_input`: the signed string determines every field that it is made from.
use mesui.Prelude.{
  ℕ, ◌≡◌, refl, sym, ap, ◌∙◌, Option, none, some, ◌∷◌, ◌++◌, Bytes, length, append-injective,
  be_bytes-append-injective, arith, u32_max, u64_max, ◌≤◌,
}
use mesui.Envelope.{PayloadKind, kind_byte}
use mesui.Mailbox.{BucketWrite, flagged, mac_prefix, mac_input}

-- The size of a 32-byte field that may be absent.
abbrev pub Sized32 : Option Bytes → Type 0
Sized32 none = Unit
Sized32 (some b) = length b ≡ 32

-- The ranges that the Rust types of the fields give.
pub record IsSized (w : BucketWrite) : Type 0 where
  pub serial : w.serial ≤ u32_max
  pub nonce : length w.nonce ≡ 16
  pub ts : w.ts_ms ≤ u64_max
  pub id : length w.envelope.msg_id ≡ 16
  pub sender : length w.envelope.sender ≡ 32
  pub recipient : Sized32 w.envelope.recipient
  pub group : Sized32 w.envelope.group
  pub sent : w.envelope.sent_at_ms ≤ u64_max

kind_byte-injective : (k l : PayloadKind) → kind_byte k ≡ kind_byte l → k ≡ l
unfolding kind_byte
kind_byte-injective k l e = ground arith

flagged-injective :
    (a b : Option Bytes) {xs ys : Bytes}
    → Sized32 a
    → Sized32 b
    → flagged a ++ xs ≡ flagged b ++ ys
    → (a ≡ b) × (xs ≡ ys)
unfolding flagged
flagged-injective none none ha hb e = (refl, cc)
flagged-injective none (some b) ha hb e = absurd (ground arith)
flagged-injective (some a) none ha hb e = absurd (ground arith)
flagged-injective (some a) (some b) {xs} {ys} ha hb e =
    let (heads, tails) = append-injective a b {xs = xs} {ys = ys} (ha ∙ sym hb) (cc) in
    (ap some heads, tails)

tail_eq : {x y : ℕ} {xs ys : Bytes} → x ∷ xs ≡ y ∷ ys → xs ≡ ys
tail_eq e = cc

-- Two writes with one signed string are the same write but for the MAC; the fields have the sizes
-- of their Rust types.
pub mac_input-injective :
    (v w : BucketWrite)
    → IsSized v
    → IsSized w
    → mac_input v ≡ mac_input w
    → (v.envelope ≡ w.envelope) × (v.serial ≡ w.serial) × (v.nonce ≡ w.nonce) × (v.ts_ms ≡ w.ts_ms)
unfolding mac_input
mac_input-injective v w sv sw e =
    let a = v.envelope in
    let b = w.envelope in
    let p0 = (append-injective mac_prefix mac_prefix refl e).1 in
    let (serial, p1) =
      be_bytes-append-injective 4 v.serial w.serial (omega arith) (omega arith) p0 in
    let (nonce, p2) = append-injective v.nonce w.nonce (sv.nonce ∙ sym sw.nonce) p1 in
    let (ts, p3) = be_bytes-append-injective 8 v.ts_ms w.ts_ms (omega arith) (omega arith) p2 in
    let (id, p4) = append-injective a.msg_id b.msg_id (sv.id ∙ sym sw.id) p3 in
    let (sender, p5) = append-injective a.sender b.sender (sv.sender ∙ sym sw.sender) p4 in
    let (recipient, p6) = flagged-injective a.recipient b.recipient sv.recipient sw.recipient p5 in
    let (group, p7) = flagged-injective a.group b.group sv.group sw.group p6 in
    let kind = kind_byte-injective a.kind b.kind (ground arith) in
    let p8 = tail_eq p7 in
    let (sent, p9) =
      be_bytes-append-injective 8 a.sent_at_ms b.sent_at_ms (omega arith) (omega arith) p8 in
    let hops : a.ttl_hops ≡ b.ttl_hops = cc in
    let body : a.body ≡ b.body = cc in (ground arith, serial, nonce, ts)
