-- ===== src/Node/Read.antt =====
-- node.rs, `parse_naddr`: how each pair of a snapshot is read.
use mesui.Prelude.{
  ℕ, ◌/◌, ◌%◌, ◌^◌, ◌≡◌, ◌≢◌, ◌<◌, refl, sym, ap, ◌∙◌, none, some, List, [], ◌∷◌, ◌++◌, map, Bytes,
  length, All, All-append, IsByte, be_bytes, ok, Outcome, done, arith,
}
use mathlib.Core.List.{append_assoc, append-nil}
use mesui.Node.Base64.{b64, rev, sextet, triple}
use mesui.Node.Hex.{hex, unhex-hex, digit}
use mesui.Node.Address.{
  SocketAddr, v4, v6, sockaddr_bytes, on_wire, IsAddress, sockaddr_from_bytes-sockaddr_bytes,
}
use mesui.Node.Split.{join, Lacks}
use mesui.Node.Utf8.{from_utf8}
use mesui.Node.Decode.{unb64-b64, rev-sextet}
use mesui.Node.Snapshot.{TransportAddr, ip, relay, Found, read_id, read_ips, read_relay}

-- A character that base64 does not use does not occur in its output.
sextet-ne : (sep n : ℕ) → rev sep ≡ none → sextet n ≢ sep
sextet-ne sep n h e = let r = rev-sextet n in cc (ap rev e)

pub b64-Lacks : (sep : ℕ) (bs : Bytes) → rev sep ≡ none → Lacks sep (b64 bs)
unfolding b64
b64-Lacks sep [] h = tt
b64-Lacks sep (b0 ∷ []) h =
    (sextet-ne sep (triple b0 0 0 / 2 ^ 18) h, (sextet-ne sep (triple b0 0 0 / 2 ^ 12) h, tt))
b64-Lacks sep (b0 ∷ b1 ∷ []) h = (
  sextet-ne sep (triple b0 b1 0 / 2 ^ 18) h,
  (sextet-ne sep (triple b0 b1 0 / 2 ^ 12) h, (sextet-ne sep (triple b0 b1 0 / 2 ^ 6) h, tt)),
)
b64-Lacks sep (b0 ∷ b1 ∷ b2 ∷ bs) h = (
  sextet-ne sep (triple b0 b1 b2 / 2 ^ 18) h,
  (
    sextet-ne sep (triple b0 b1 b2 / 2 ^ 12) h,
    (
      sextet-ne sep (triple b0 b1 b2 / 2 ^ 6) h,
      (sextet-ne sep (triple b0 b1 b2) h, b64-Lacks sep bs h),
    ),
  ),
)

digit-ne : (sep n : ℕ) → sep < 48 → digit n ≢ sep
digit-ne sep n h e = ground arith

pub hex-Lacks : (sep : ℕ) (bs : Bytes) → sep < 48 → Lacks sep (hex bs)
unfolding hex
hex-Lacks sep [] h = tt
hex-Lacks sep (b ∷ bs) h = (digit-ne sep (b / 16) h, (digit-ne sep (b % 16) h, hex-Lacks sep bs h))

pub join-Lacks :
    (sep comma : ℕ) (ps : List Bytes) → comma ≢ sep → All (Lacks sep) ps → Lacks sep (join comma ps)
unfolding join
join-Lacks sep comma [] n h = tt
join-Lacks sep comma (p ∷ []) n h = h.0
join-Lacks sep comma (p ∷ q ∷ ps) n h =
    All-append (λ c. c ≢ sep) p (comma ∷ join comma (q ∷ ps)) h.0
      (n, join-Lacks sep comma (q ∷ ps) n h.1)

-- The bytes of an address.
abbrev pub octets_of : SocketAddr → Bytes
octets_of (v4 octets port) = octets
octets_of (v6 octets port flowinfo scope_id) = octets

abbrev pub IsTyped : SocketAddr → Type 0
IsTyped a = IsAddress a × All IsByte (octets_of a)

sockaddr_bytes-IsByte : (a : SocketAddr) → IsTyped a → All IsByte (sockaddr_bytes a)
unfolding sockaddr_bytes be_bytes
sockaddr_bytes-IsByte (v4 octets port) t =
    All-append IsByte octets (be_bytes 2 port) t.1 (omega arith, (omega arith, tt))
sockaddr_bytes-IsByte (v6 octets port flowinfo scope_id) t =
    All-append IsByte octets (be_bytes 2 port) t.1 (omega arith, (omega arith, tt))

abbrev pub part_of : SocketAddr → Bytes
part_of a = b64 (sockaddr_bytes a)

abbrev pub seen_ip : SocketAddr → TransportAddr
seen_ip a = ip (on_wire a)

module _ (from_bytes parse_url : Bytes → Outcome Bytes) where
  pub read_ips-parts :
      (as_ : List SocketAddr) (found : Found from_bytes parse_url)
      → All IsTyped as_
      → read_ips from_bytes parse_url (map part_of as_) found
        ≡ ok (found.0, found.1 ++ map seen_ip as_)
  unfolding read_ips
  read_ips-parts [] found t = ap (λ l. ok (found.0, l)) (sym (append-nil found.1))
  read_ips-parts (a ∷ as_) found t =
      rw (unb64-b64 (sockaddr_bytes a) (sockaddr_bytes-IsByte a t.0), read_ips)
        (rw (sockaddr_from_bytes-sockaddr_bytes a t.0.0, read_ips)
          (read_ips-parts as_ (found.0, found.1 ++ seen_ip a ∷ []) t.1
            ∙ ap (λ l. ok (found.0, l)) (append_assoc found.1 (seen_ip a ∷ []) (map seen_ip as_))))

  pub read_id-hex :
      (id : Bytes) (found : Found from_bytes parse_url)
      → All IsByte id
      → length id ≡ 32
      → from_bytes id ≡ done id
      → read_id from_bytes parse_url (hex id) found ≡ ok (some id, found.1)
  unfolding read_id
  read_id-hex id found b l h = rw (unhex-hex id b) (rw l (rw h refl))

  pub read_relay-b64 :
      (u : Bytes) (found : Found from_bytes parse_url)
      → All IsByte u
      → from_utf8 u ≡ some u
      → parse_url u ≡ done u
      → read_relay from_bytes parse_url (b64 u) found ≡ ok (found.0, found.1 ++ relay u ∷ [])
  unfolding read_relay
  read_relay-b64 u found b t h = rw (unb64-b64 u b) (rw t (rw h refl))
