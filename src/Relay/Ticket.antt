-- ===== src/Relay/Ticket.antt =====
-- relay.rs, `RelayTicket`: what a signature binds, and what a ticket that passes has been checked for.
use mesui.Prelude.{
  ◌↔◌, ℕ, ◌+◌, ◌≤◌, ◌≡◌, refl, sym, ◌∙◌, ◌≢◌, Bytes, length, replicate, arith, append-injective,
  be_bytes-append-injective, u64_max, i64_max, ok, done,
}
use mesui.Identity
use mesui.Identity.{Ed25519, Identity}
use mesui.Relay.{RelayTicket, ticket_prefix, signing_payload, sign, verify, skew, max_ticket_ttl_ms}

pub record IsSized (t : RelayTicket) : Type 0 where
  pub dest : length t.dest_node_key ≡ 32
  pub origin : length t.origin_node_key ≡ 32
  pub issued : t.issued_at_ms ≤ u64_max
  pub expiry : t.expiry_ms ≤ u64_max
  pub nonce : length t.nonce ≡ 16

-- Two tickets with one signed payload differ at most in their signatures; the fields have the sizes
-- of their Rust types.
pub ticket_payload-injective :
    (t u : RelayTicket)
    → IsSized t
    → IsSized u
    → signing_payload t ≡ signing_payload u
    → t ≡ record u { sig = t.sig }
unfolding signing_payload
ticket_payload-injective t u st su e =
    let p0 = (append-injective ticket_prefix ticket_prefix refl e).1 in
    let (dest, p1) = append-injective t.dest_node_key u.dest_node_key (st.dest ∙ sym su.dest) p0 in
    let (origin, p2) =
      append-injective t.origin_node_key u.origin_node_key (st.origin ∙ sym su.origin) p1 in
    let (issued, p3) =
      be_bytes-append-injective 8 t.issued_at_ms u.issued_at_ms (omega arith) (omega arith) p2 in
    let (expiry, p4) =
      be_bytes-append-injective 8 t.expiry_ms u.expiry_ms (omega arith) (omega arith) p3 in
    let (nonce, challenge) = append-injective t.nonce u.nonce (st.nonce ∙ sym su.nonce) p4 in
    ground arith

-- What is true of a ticket at a time and for a challenge when it may be relayed.
pub record IsFresh (t : RelayTicket) (now_ms : ℕ) (challenge : Bytes) : Type 0 where
  pub random : t.nonce ≢ replicate 16 0
  pub bound : t.challenge_hash ≡ challenge
  pub short : t.expiry_ms ≤ t.issued_at_ms + max_ticket_ttl_ms
  pub issued : t.issued_at_ms ≤ now_ms + skew
  pub unexpired : now_ms ≤ t.expiry_ms + skew

module _ (ed : Ed25519) where
  -- The signature is of its length, the origin is a point, and the strict check passes.
  abbrev pub IsSigned : RelayTicket → Type 0
  IsSigned t =
      (vk : Bytes) × (ed.from_bytes t.origin_node_key ≡ done vk)
      × (length t.sig ≡ 64)
      × (ed.verify_strict vk (signing_payload t) t.sig ≡ done tt)

  -- The checks that follow the reading of the key.
  checks :
      (t : RelayTicket) (now_ms : ℕ) (challenge vk : Bytes)
      → now_ms + skew ≤ i64_max
      → t.expiry_ms + skew ≤ i64_max
      → ed.from_bytes t.origin_node_key ≡ done vk
      → (verify ed t now_ms challenge ≡ ok tt) ↔ (
          (length t.sig ≡ 64)
          × (ed.verify_strict vk (signing_payload t) t.sig ≡ done tt)
          × IsFresh t now_ms challenge)
  unfolding verify
  checks t now_ms challenge vk hn he e = rw e (λ v. ground arith, λ v. ground arith)

  key_read :
      (t : RelayTicket) (now_ms : ℕ) (challenge : Bytes)
      → verify ed t now_ms challenge ≡ ok tt
      → (vk : Bytes) × (ed.from_bytes t.origin_node_key ≡ done vk)
  unfolding verify
  key_read t now_ms challenge v = ground arith

  -- A ticket passes exactly when it is signed by its origin and fresh at the time and for the
  -- challenge. The times are two minutes short of 2^63.
  pub ticket_verify_iff :
      (t : RelayTicket) (now_ms : ℕ) (challenge : Bytes)
      → now_ms + skew ≤ i64_max
      → t.expiry_ms + skew ≤ i64_max
      → (verify ed t now_ms challenge ≡ ok tt) ↔ (IsSigned t × IsFresh t now_ms challenge)
  ticket_verify_iff t now_ms challenge hn he = (
    λ v.
        let (vk, e) = key_read t now_ms challenge v in
        let (size, strict, fresh) = (checks t now_ms challenge vk hn he e).0 v in
        ((vk, e, size, strict), fresh),
    λ v.
        let (vk, e, size, strict) = v.0 in
        (checks t now_ms challenge vk hn he e).1 (size, strict, v.1),
  )

  signed :
      (t u : RelayTicket) (i : Identity)
      → sign ed t i ≡ ok u
      → (t.origin_node_key ≡ ed.verifying_key i.sk)
        × (u ≡ record t { sig = ed.sign i.sk (signing_payload t) })
  unfolding sign Identity.node_id Identity.sign
  signed t u i s = ground arith

  -- A fresh ticket that its origin signed passes, if the signature scheme reads its own keys, gives
  -- signatures of 64 bytes and accepts what it signs. The times are two minutes short of 2^63.
  pub verify-sign :
      ((sk : Bytes) → ed.from_bytes (ed.verifying_key sk) ≡ done (ed.verifying_key sk))
      → ((sk m : Bytes) → length (ed.sign sk m) ≡ 64)
      → ((sk m : Bytes) → ed.verify_strict (ed.verifying_key sk) m (ed.sign sk m) ≡ done tt)
      → (t u : RelayTicket) (i : Identity) (now_ms : ℕ) → now_ms + skew ≤ i64_max
      → t.expiry_ms + skew ≤ i64_max
      → sign ed t i ≡ ok u
      → IsFresh t now_ms t.challenge_hash
      → verify ed u now_ms t.challenge_hash ≡ ok tt
  unfolding signing_payload
  verify-sign point size own t u i now_ms hn he s fresh =
      let (key, made) = signed t u i s in
      let sk = i.sk in
      let payload = signing_payload t in
      let v : RelayTicket = record t { sig = ed.sign sk payload } in
      rw made (
        (ticket_verify_iff v now_ms t.challenge_hash hn he).1 (
          (ed.verifying_key sk, rw key (point sk), size sk payload, own sk payload),
          record {
            random = fresh.random;
            bound = refl;
            short = fresh.short;
            issued = fresh.issued;
            unexpired = fresh.unexpired;
          },
        ))
