-- ===== src/Nodekey/Announcement.antt =====
-- nodekey.rs, `NodeKeyAnnouncement`: what its signature binds, and what has been checked of one that
-- passes.
use mesui.Prelude.{
  ◌+◌, ◌≤◌, ◌<◌, ◌≡◌, refl, sym, ◌∙◌, ◌↔◌, Bytes, length, arith, append-injective,
  be_bytes-append-injective, be_bytes-injective, u64_max, ok, done,
}
use mesui.Identity.{Ed25519}
use mesui.Nodekey.{
  NodeKeyAnnouncement, announcement_prefix, signing_payload, verify, max_validity_ms,
}

pub record IsSized (a : NodeKeyAnnouncement) : Type 0 where
  pub identity : length a.identity ≡ 32
  pub node_key : length a.node_key ≡ 32
  pub serial : a.serial ≤ u64_max
  pub not_before : a.not_before_ms ≤ u64_max
  pub not_after : a.not_after_ms ≤ u64_max

-- Two announcements with one signed payload differ at most in their signatures; the fields have the
-- sizes of their Rust types.
pub announcement_payload-injective :
    (a b : NodeKeyAnnouncement)
    → IsSized a
    → IsSized b
    → signing_payload a ≡ signing_payload b
    → a ≡ record b { sig = a.sig }
unfolding signing_payload
announcement_payload-injective a b sa sb e =
    let p0 = (append-injective announcement_prefix announcement_prefix refl e).1 in
    let (identity, p1) =
      append-injective a.identity b.identity (sa.identity ∙ sym sb.identity) p0 in
    let (key, p2) = append-injective a.node_key b.node_key (sa.node_key ∙ sym sb.node_key) p1 in
    let (serial, p3) =
      be_bytes-append-injective 8 a.serial b.serial (omega arith) (omega arith) p2 in
    let (before, p4) =
      be_bytes-append-injective 8 a.not_before_ms b.not_before_ms (omega arith) (omega arith) p3 in
    let after = be_bytes-injective 8 a.not_after_ms b.not_after_ms (omega arith) (omega arith) p4 in
    ground arith

-- A validity of more than nothing and at most thirty days, and a serial from one on.
pub record IsLawful (a : NodeKeyAnnouncement) : Type 0 where
  pub opens : a.not_before_ms < a.not_after_ms
  pub short : a.not_after_ms ≤ a.not_before_ms + max_validity_ms
  pub serial : 0 < a.serial

module _ (ed : Ed25519) where
  abbrev pub IsSigned : NodeKeyAnnouncement → Type 0
  IsSigned a =
      (vk : Bytes) × (ed.from_bytes a.identity ≡ done vk)
      × (length a.sig ≡ 64)
      × (ed.verify_strict vk (signing_payload a) a.sig ≡ done tt)

  checks :
      (a : NodeKeyAnnouncement) (vk : Bytes)
      → ed.from_bytes a.identity ≡ done vk
      → (verify ed a ≡ ok tt) ↔ (
          (length a.sig ≡ 64)
          × (ed.verify_strict vk (signing_payload a) a.sig ≡ done tt)
          × IsLawful a)
  unfolding verify
  checks a vk e = rw e (λ v. ground arith, λ v. ground arith)

  key_read :
      (a : NodeKeyAnnouncement)
      → verify ed a ≡ ok tt
      → (vk : Bytes) × (ed.from_bytes a.identity ≡ done vk)
  unfolding verify
  key_read a v = ground arith

  -- An announcement passes exactly when it is signed by its identity, its validity is more than
  -- nothing and at most thirty days, and its serial is one or more.
  pub announcement_verify_iff :
      (a : NodeKeyAnnouncement) → (verify ed a ≡ ok tt) ↔ (IsSigned a × IsLawful a)
  announcement_verify_iff a = (
    λ v.
        let (vk, e) = key_read a v in
        let (size, strict, lawful) = (checks a vk e).0 v in ((vk, e, size, strict), lawful),
    λ v. let (vk, e, size, strict) = v.0 in (checks a vk e).1 (size, strict, v.1),
  )
