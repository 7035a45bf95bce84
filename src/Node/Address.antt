-- ===== src/Node/Address.antt =====
-- node.rs, `sockaddr_bytes` and `sockaddr_from_bytes`.
use mesui.Prelude.{
  ℕ, ◌≡◌, refl, sym, ap, ◌∙◌, ◌^◌, ◌<◌, ◌++◌, Bytes, ◌==◌, if◌then◌else◌, length, take, drop,
  be_bytes, from_be, length-be_bytes, from_be-be_bytes, length-append, take-append, drop-append,
  Result, ok, err, config, arith,
}

pub data SocketAddr : Type 0 where
  v4 : (octets : Bytes) (port : ℕ) → SocketAddr
  v6 : (octets : Bytes) (port flowinfo scope_id : ℕ) → SocketAddr

unfoldable pub sockaddr_bytes : SocketAddr → Bytes
unfolding be_bytes
sockaddr_bytes (v4 octets port) = octets ++ be_bytes 2 port
sockaddr_bytes (v6 octets port flowinfo scope_id) = octets ++ be_bytes 2 port

unfoldable pub sockaddr_from_bytes : Bytes → Result SocketAddr
unfolding from_be
sockaddr_from_bytes bytes =
    if length bytes == 6
    then ok (v4 (take 4 bytes) (from_be 0 (drop 4 bytes)))
    else if length bytes == 18
    then ok (v6 (take 16 bytes) (from_be 0 (drop 16 bytes)) 0 0)
    else err (config "bad sockaddr bytes")

-- What the bytes hold of an address: not the flow and the scope.
unfoldable pub on_wire : SocketAddr → SocketAddr
on_wire (v4 octets port) = v4 octets port
on_wire (v6 octets port flowinfo scope_id) = v6 octets port 0 0

abbrev pub IsAddress : SocketAddr → Type 0
IsAddress (v4 octets port) = (length octets ≡ 4) × (port < 2 ^ 16)
IsAddress (v6 octets port flowinfo scope_id) = (length octets ≡ 16) × (port < 2 ^ 16)

split_at :
    (n : ℕ) (xs ys : Bytes) → length xs ≡ n → (take n (xs ++ ys) ≡ xs) × (drop n (xs ++ ys) ≡ ys)
split_at n xs ys h = (
  ap (λ k. take k (xs ++ ys)) (sym h) ∙ take-append xs ys,
  ap (λ k. drop k (xs ++ ys)) (sym h) ∙ drop-append xs ys,
)

port_back : (port : ℕ) → port < 2 ^ 16 → from_be 0 (be_bytes 2 port) ≡ port
port_back port h = from_be-be_bytes 2 port h

-- An address is read back from its bytes, but for the flow and the scope of an IPv6 address, which are
-- not sent.
pub sockaddr_from_bytes-sockaddr_bytes :
    (a : SocketAddr) → IsAddress a → sockaddr_from_bytes (sockaddr_bytes a) ≡ ok (on_wire a)
unfolding sockaddr_bytes sockaddr_from_bytes on_wire
sockaddr_from_bytes-sockaddr_bytes (v4 octets port) h =
    let l = length-append octets (be_bytes 2 port) in
    let n : length (octets ++ be_bytes 2 port) ≡ 6 =
      omega (arith, l, h.0, length-be_bytes 2 port) in
    let parts = split_at 4 octets (be_bytes 2 port) h.0 in
    rw n (rw (parts.0, parts.1) (rw (port_back port h.1) refl))
sockaddr_from_bytes-sockaddr_bytes (v6 octets port flowinfo scope_id) h =
    let l = length-append octets (be_bytes 2 port) in
    let n : length (octets ++ be_bytes 2 port) ≡ 18 =
      omega (arith, l, h.0, length-be_bytes 2 port) in
    let parts = split_at 16 octets (be_bytes 2 port) h.0 in
    rw n (rw (parts.0, parts.1) (rw (port_back port h.1) refl))
