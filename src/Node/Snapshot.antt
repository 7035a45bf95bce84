-- ===== src/Node/Snapshot.antt =====
-- node.rs, `naddr_string`, `parse_naddr` and `node_id_of_naddr`: the snapshot of a node's address as
-- `dc://node?v=1&id=…&a=…&r=…`. An id is its bytes, a relay URL its text, and the set of addresses a
-- list. A text of the library inside an error is left out.
use mesui.Prelude.{
  ◌==◌, Bool, false, not, ◌&&◌, ◌||◌, Option, none, some, List, [], ◌∷◌, ◌++◌, map, Bytes, bytes_eq,
  codes, if◌then◌else◌, length, retain, replicate, config, Result, ok, ◌>>=◌, ◌>>◌, fail_if, ok_or,
  Outcome, map_err,
}
use mesui.Node.Base64.{b64, unb64}
use mesui.Node.Hex.{hex, unhex}
use mesui.Node.Address.{SocketAddr, v4, v6, sockaddr_bytes, sockaddr_from_bytes}
use mesui.Node.Split.{split, split_from, split_once, split_once_from, strip_prefix, join}
use mesui.Node.Utf8.{from_utf8}

pub data TransportAddr : Type 0 where
  ip : SocketAddr → TransportAddr
  relay : Bytes → TransportAddr

-- The set of addresses is the list of its elements, in the order in which the set gives them.
pub record EndpointAddr : Type 0 where
  pub id : Bytes
  pub addrs : List TransportAddr

unfoldable pub ip_addrs : List TransportAddr → List SocketAddr
ip_addrs [] = []
ip_addrs (ip a ∷ rest) = a ∷ ip_addrs rest
ip_addrs (relay u ∷ rest) = ip_addrs rest

-- `relay_urls().next()`.
unfoldable pub first_relay : List TransportAddr → Option Bytes
first_relay [] = none
first_relay (ip a ∷ rest) = first_relay rest
first_relay (relay u ∷ rest) = some u

abbrev pub is_unspecified : SocketAddr → Bool
is_unspecified (v4 octets port) = bytes_eq octets (replicate 4 0)
is_unspecified (v6 octets port flowinfo scope_id) = bytes_eq octets (replicate 16 0)

abbrev pub is_loopback : SocketAddr → Bool
is_loopback (v4 [] port) = false
is_loopback (v4 (o ∷ octets) port) = o == 127
is_loopback (v6 octets port flowinfo scope_id) = bytes_eq octets (replicate 15 0 ++ 1 ∷ [])

-- Which addresses are shown.
unfoldable pub is_shown : Bool → SocketAddr → Bool
is_shown include_loopback a = not (is_unspecified a) && (include_loopback || not (is_loopback a))

abbrev pub ip_part : List SocketAddr → Bytes
ip_part [] = []
ip_part (a ∷ as_) = codes "&a=" ++ join b',' (map (λ a. b64 (sockaddr_bytes a)) (a ∷ as_))

abbrev pub relay_part : Option Bytes → Bytes
relay_part none = []
relay_part (some url) = codes "&r=" ++ b64 url

unfoldable pub naddr_string : EndpointAddr → Bool → Bytes
unfolding codes hex b64 sockaddr_bytes join retain ip_addrs first_relay is_shown
naddr_string addr include_loopback =
    codes "dc://node?v=1&id="
    ++ (hex addr.id
        ++ (ip_part (retain (is_shown include_loopback) (ip_addrs addr.addrs))
            ++ relay_part (first_relay addr.addrs)))

-- `from_bytes` is that of `EndpointId`, and `parse_url` the parser of relay URLs.
module _ (from_bytes parse_url : Bytes → Outcome Bytes) where
  -- What the loop has found so far.
  abbrev pub Found : Type 0
  Found = Option Bytes × List TransportAddr

  unfoldable pub read_version : Bytes → Found → Result Found
  unfolding codes
  read_version v found = do
    fail_if (not (bytes_eq v (codes "1"))) (config "unsupported snapshot version")
    ok found

  unfoldable pub read_id : Bytes → Found → Result Found
  unfolding unhex
  read_id v found = do
    bytes ← ok_or (unhex v) (config "bad node id")
    fail_if (not (length bytes == 32)) (config "node id must be 32 bytes")
    id ← map_err (λ e. config "node id") (from_bytes bytes)
    ok (some id, found.1)

  -- The loop over the parts of an `a`.
  unfoldable pub read_ips : List Bytes → Found → Result Found
  unfolding unb64 sockaddr_from_bytes
  read_ips [] found = ok found
  read_ips (part ∷ parts) found = do
    bytes ← unb64 part
    a ← sockaddr_from_bytes bytes
    read_ips parts (found.0, found.1 ++ ip a ∷ [])

  unfoldable pub read_relay : Bytes → Found → Result Found
  unfolding unb64 from_utf8
  read_relay v found = do
    bytes ← unb64 v
    url ← ok_or (from_utf8 bytes) (config "bad relay url")
    u ← map_err (λ e. config "relay url") (parse_url url)
    ok (found.0, found.1 ++ relay u ∷ [])

  -- One pair by its key; an unknown one is passed over.
  unfoldable pub read_pair : Bytes → Bytes → Found → Result Found
  unfolding codes read_version read_id read_ips read_relay split_from
  read_pair k v found =
      if bytes_eq k (codes "v")
      then read_version v found
      else if bytes_eq k (codes "id")
      then read_id v found
      else if bytes_eq k (codes "a")
      then read_ips (split b',' v) found
      else if bytes_eq k (codes "r")
      then read_relay v found
      else ok found

  unfoldable pub read_pairs : List Bytes → Found → Result Found
  unfolding read_pair split_once_from
  read_pairs [] found = ok found
  read_pairs (pair ∷ pairs) found = do
    (k, v) ← ok_or (split_once b'=' pair) (config "bad snapshot pair")
    found' ← read_pair k v found
    read_pairs pairs found'

  -- `from_parts` is that of `EndpointAddr`, which puts the addresses into its set.
  module _ (from_parts : Bytes → List TransportAddr → EndpointAddr) where
    unfoldable pub parse_naddr : Bytes → Result EndpointAddr
    parse_naddr s = do
      body ← ok_or (strip_prefix (codes "dc://node?") s) (config "not a dc://node snapshot")
      (id?, addrs) ← read_pairs (split b'&' body) (none, [])
      id ← ok_or id? (config "snapshot missing id")
      ok (from_parts id addrs)

    unfoldable pub node_id_of_naddr : Bytes → Result Bytes
    unfolding parse_naddr hex
    node_id_of_naddr s = do addr ← parse_naddr s; ok (hex addr.id)
