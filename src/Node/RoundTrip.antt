-- ===== src/Node/RoundTrip.antt =====
-- node.rs: the snapshot that a node shows is read as its address.
use mesui.Prelude.{
  ℕ, ◌≡◌, refl, sym, ap, ◌∙◌, Bool, Option, none, some, List, [], ◌∷◌, ◌++◌, map, Bytes, codes,
  bytes_dec, length, All, All-append, IsByte, retain, ok, Outcome, done, arith,
}
use mathlib.Core.List.{append_assoc, append-nil}
use mesui.Node.Base64.{b64, rev}
use mesui.Node.Hex.{hex}
use mesui.Node.Address.{SocketAddr, sockaddr_bytes}
use mesui.Node.Split.{split_once_from, strip_prefix-append, join, Lacks, split-join}
use mesui.Node.Utf8.{from_utf8}
use mesui.Node.Snapshot.{
  TransportAddr, relay, EndpointAddr, Found, ip_addrs, first_relay, is_shown, ip_part, relay_part,
  naddr_string, read_pair, read_pairs, read_version, parse_naddr,
}
use mesui.Node.Read.{
  b64-Lacks, hex-Lacks, join-Lacks, part_of, seen_ip, IsTyped, read_ips-parts, read_id-hex,
  read_relay-b64,
}

-- The pairs of a snapshot.
abbrev ip_pairs : List SocketAddr → List Bytes
ip_pairs [] = []
ip_pairs (a ∷ as_) = (codes "a=" ++ join b',' (map part_of (a ∷ as_))) ∷ []

abbrev relay_pairs : Option Bytes → List Bytes
relay_pairs none = []
relay_pairs (some u) = (codes "r=" ++ b64 u) ∷ []

abbrev pairs_of : Bytes → List SocketAddr → Option Bytes → List Bytes
pairs_of id as_ url = (codes "id=" ++ hex id) ∷ (ip_pairs as_ ++ relay_pairs url)

-- What the snapshot shows of the addresses.
abbrev pub shown : EndpointAddr → Bool → List SocketAddr
shown addr include_loopback = retain (is_shown include_loopback) (ip_addrs addr.addrs)

text_of :
    (id : Bytes) (as_ : List SocketAddr) (url : Option Bytes)
    → codes "dc://node?v=1&id=" ++ (hex id ++ (ip_part as_ ++ relay_part url))
      ≡ codes "dc://node?" ++ join b'&' (codes "v=1" ∷ pairs_of id as_ url)
unfolding codes join
text_of id [] none = ap (λ t. codes "dc://node?v=1&id=" ++ t) (append-nil (hex id))
text_of id [] (some u) = refl
text_of id (a ∷ as_) none =
    ap (λ t. codes "dc://node?v=1&id=" ++ (hex id ++ (codes "&a=" ++ t)))
      (append-nil (join b',' (map part_of (a ∷ as_))))
text_of id (a ∷ as_) (some u) = refl

naddr_string_pairs :
    (addr : EndpointAddr) (include_loopback : Bool)
    → naddr_string addr include_loopback
      ≡ codes "dc://node?"
        ++ join b'&'
            (codes "v=1" ∷ pairs_of addr.id (shown addr include_loopback) (first_relay addr.addrs))
unfolding naddr_string
naddr_string_pairs addr include_loopback =
    text_of addr.id (shown addr include_loopback) (first_relay addr.addrs)

parts-Lacks : (sep : ℕ) (as_ : List SocketAddr) → rev sep ≡ none → All (Lacks sep) (map part_of as_)
parts-Lacks sep [] h = tt
parts-Lacks sep (a ∷ as_) h = (b64-Lacks sep (sockaddr_bytes a) h, parts-Lacks sep as_ h)

pairs-Lacks :
    (id : Bytes) (as_ : List SocketAddr) (url : Option Bytes)
    → All (Lacks b'&') (codes "v=1" ∷ pairs_of id as_ url)
unfolding codes rev
pairs-Lacks id as_ url = (
  (omega arith, (omega arith, (omega arith, tt))),
  (
    (omega arith, (omega arith, (omega arith, hex-Lacks b'&' id (omega arith)))),
    All-append (Lacks b'&') (ip_pairs as_) (relay_pairs url) (ips as_) (relays url),
  ),
)
  where
    ips : (as_ : List SocketAddr) → All (Lacks b'&') (ip_pairs as_)
    ips [] = tt
    ips (a ∷ as_) = (
      (
        omega arith,
        (
          omega arith,
          join-Lacks b'&' b',' (map part_of (a ∷ as_)) (omega arith)
              (parts-Lacks b'&' (a ∷ as_) refl),
        ),
      ),
      tt,
    )

    relays : (url : Option Bytes) → All (Lacks b'&') (relay_pairs url)
    relays none = tt
    relays (some u) = ((omega arith, (omega arith, b64-Lacks b'&' u refl)), tt)

-- The address on the other side.
abbrev pub relays_of : Option Bytes → List TransportAddr
relays_of none = []
relays_of (some u) = relay u ∷ []

abbrev pub seen : List SocketAddr → Option Bytes → List TransportAddr
seen as_ url = map seen_ip as_ ++ relays_of url

module _ (from_bytes parse_url : Bytes → Outcome Bytes) where
  abbrev ReadableUrl : Option Bytes → Type 0
  ReadableUrl none = Unit
  ReadableUrl (some u) = All IsByte u × (from_utf8 u ≡ some u) × (parse_url u ≡ done u)

  read_relays :
      (url : Option Bytes) (found : Found from_bytes parse_url)
      → ReadableUrl url
      → read_pairs from_bytes parse_url (relay_pairs url) found
        ≡ ok (found.0, found.1 ++ relays_of url)
  unfolding read_pairs read_pair codes bytes_dec split_once_from
  read_relays none found r = ap (λ l. ok (found.0, l)) (sym (append-nil found.1))
  read_relays (some u) found r = rw (read_relay-b64 from_bytes parse_url u found r.0 r.1 r.2) refl

  commas : (a : SocketAddr) (as_ : List SocketAddr) → All (Lacks b',') (map part_of (a ∷ as_))
  unfolding rev
  commas a as_ = parts-Lacks b',' (a ∷ as_) refl

  read_rest :
      (as_ : List SocketAddr) (url : Option Bytes) (found : Found from_bytes parse_url)
      → All IsTyped as_
      → ReadableUrl url
      → read_pairs from_bytes parse_url (ip_pairs as_ ++ relay_pairs url) found
        ≡ ok (found.0, found.1 ++ (map seen_ip as_ ++ relays_of url))
  unfolding read_pairs read_pair codes bytes_dec split_once_from
  read_rest [] url found t r = read_relays url found r
  read_rest (a ∷ as_) url found t r =
      rw (split-join b',' (part_of a) (map part_of as_) (commas a as_)) (
        rw (read_ips-parts from_bytes parse_url (a ∷ as_) found t) (
          read_relays url (found.0, found.1 ++ map seen_ip (a ∷ as_)) r
          ∙ ap (λ l. ok (found.0, l))
              (append_assoc found.1 (map seen_ip (a ∷ as_)) (relays_of url))))

  read_every_pair :
      (id : Bytes) (as_ : List SocketAddr) (url : Option Bytes)
      → All IsByte id
      → length id ≡ 32
      → from_bytes id ≡ done id
      → All IsTyped as_
      → ReadableUrl url
      → read_pairs from_bytes parse_url (codes "v=1" ∷ pairs_of id as_ url) (none, [])
        ≡ ok (some id, map seen_ip as_ ++ relays_of url)
  unfolding read_pairs read_pair read_version codes bytes_dec split_once_from
  read_every_pair id as_ url b l f t r =
      rw (read_id-hex from_bytes parse_url id (none, []) b l f)
        (read_rest as_ url (some id, []) t r)

  parse_pairs :
      (from_parts : Bytes → List TransportAddr → EndpointAddr) (id : Bytes) (as_ : List SocketAddr)
      (url : Option Bytes)
      → read_pairs from_bytes parse_url (codes "v=1" ∷ pairs_of id as_ url) (none, [])
        ≡ ok (some id, map seen_ip as_ ++ relays_of url)
      → parse_naddr from_bytes parse_url from_parts
          (codes "dc://node?" ++ join b'&' (codes "v=1" ∷ pairs_of id as_ url))
        ≡ ok (from_parts id (seen as_ url))
  unfolding parse_naddr
  parse_pairs from_parts id as_ url e =
      rw (strip_prefix-append (codes "dc://node?") (join b'&' (codes "v=1" ∷ pairs_of id as_ url)))
        (rw (split-join b'&' (codes "v=1") (pairs_of id as_ url) (pairs-Lacks id as_ url))
          (rw e refl))

  -- A snapshot of 32 bytes of id, of addresses and of a relay is read as the address that the library
  -- makes of that id with the addresses that were shown, in their order, and the first relay, but without
  -- the flow and the scope of an IPv6 address. The id and the URL are bytes, the URL is UTF-8, and the
  -- library reads both as they are.
  pub parse_naddr-naddr_string :
      (from_parts : Bytes → List TransportAddr → EndpointAddr) (addr : EndpointAddr)
      (include_loopback : Bool)
      → All IsByte addr.id
      → length addr.id ≡ 32
      → from_bytes addr.id ≡ done addr.id
      → All IsTyped (shown addr include_loopback)
      → ReadableUrl (first_relay addr.addrs)
      → parse_naddr from_bytes parse_url from_parts (naddr_string addr include_loopback)
        ≡ ok (from_parts addr.id (seen (shown addr include_loopback) (first_relay addr.addrs)))
  parse_naddr-naddr_string from_parts addr include_loopback b l f t r =
      ap (parse_naddr from_bytes parse_url from_parts) (naddr_string_pairs addr include_loopback)
      ∙ parse_pairs from_parts addr.id (shown addr include_loopback) (first_relay addr.addrs)
          (read_every_pair addr.id (shown addr include_loopback) (first_relay addr.addrs) b l f t r)
