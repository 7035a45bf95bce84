-- ===== src/Node/Tests.antt =====
-- The theorems on the node's snapshot and its messages at concrete addresses, and runs of the codecs.
use mesui.Prelude.{
  ap, sym, ◌∙◌, Result, List, any, true, ℕ, ◌≡◌, ◌≤◌, ◌<◌, refl, false, some, [], ◌∷◌, Bytes, codes,
  replicate, length, ok, err, bytes_dec, retain, config, Outcome, done, arith,
}
use mesui.Node.Base64.{b64, unb64}
use mesui.Node.Address.{v4, on_wire}
use mesui.Node.Split.{strip_prefix, split_from, split_once_from}
use mesui.Node.Utf8.{from_utf8}
use mesui.Node.Snapshot.{
  TransportAddr, EndpointAddr, ip, relay, read_pairs, naddr_string, parse_naddr, first_relay,
  ip_addrs, is_shown,
}
use mesui.Node.RoundTrip.{parse_naddr-naddr_string}
use mesui.Node.Channel.{
  Wire, opened, Connection, Stream, send, serve, on_message, write_back, settled, ack, max_msg_len,
}
use mesui.Node.Lifecycle.{trim, trim_start, trim_end, stop, close}
use mesui.Node.Delivery.{Carries, send_delivers}

abbrev here : EndpointAddr
here = record {
  id = replicate 32 7;
  addrs =
      ip (v4 (192 ∷ 168 ∷ 1 ∷ 7 ∷ []) 43_210)
      ∷ ip (v4 (127 ∷ 0 ∷ 0 ∷ 1 ∷ []) 80)
      ∷ relay (104 ∷ 116 ∷ 116 ∷ 112 ∷ [])
      ∷ [];
}

abbrev parts : Bytes → List TransportAddr → EndpointAddr
parts id addrs = record { id = id; addrs = addrs }

abbrev parsed : Bytes → Outcome Bytes
parsed bytes = done bytes

utf8_text : from_utf8 (104 ∷ 116 ∷ 116 ∷ 112 ∷ []) ≡ some (104 ∷ 116 ∷ 116 ∷ 112 ∷ [])
unfolding from_utf8
utf8_text = refl

parse_naddr-naddr_string_example :
    parse_naddr parsed parsed parts (naddr_string here false)
    ≡ ok (record {
      id = replicate 32 7;
      addrs = ip (v4 (192 ∷ 168 ∷ 1 ∷ 7 ∷ []) 43_210) ∷ relay (104 ∷ 116 ∷ 116 ∷ 112 ∷ []) ∷ [];
    })
unfolding retain ip_addrs first_relay is_shown bytes_dec on_wire
parse_naddr-naddr_string_example =
    parse_naddr-naddr_string parsed parsed parts here false (omega arith) refl refl (omega arith)
      (omega arith, utf8_text, refl)

-- A transport that gives the bytes to the other side.
abbrev connection : Connection
connection = record {
  connect = λ addr timeout. settled (done tt);
  open_bi = done tt;
  write_all = λ bytes. done tt;
  finish = done tt;
  read_to_end = λ limit timeout. settled (done (ack ∷ []));
}

abbrev stream : Stream
stream = record { accept_bi = done tt; read_to_end = λ limit. done (9 ∷ []) }

settled_inv : {a b : Bytes} → settled (done a) ≡ settled (done b) → b ≡ a
settled_inv e = cc

done_inv : {a b : Bytes} → ◌≡◌ {A = Outcome Bytes} (done a) (done b) → b ≡ a
done_inv e = cc

abbrev naddr : Bytes
naddr = codes "dc://node?v=1&id=0707070707070707070707070707070707070707070707070707070707070707"

abbrev sent : Wire × Result (Unit {0})
sent = send parsed parsed parts connection naddr (9 ∷ []) 100 opened

sent_wire : sent.0 ≡ record { written = 9 ∷ []; finished = true }
unfolding send parse_naddr codes strip_prefix split_from split_once_from read_pairs bytes_dec
sent_wire = refl

carries : Carries connection stream sent.0 (1 ∷ [])
unfolding serve
carries = record {
  forth = λ limit p e. done_inv e ∙ sym (ap (λ w. w.written) sent_wire);
  back = λ limit timeout b e. settled_inv e;
}

send_runs : sent.1 ≡ ok tt
unfolding send parse_naddr codes strip_prefix split_from split_once_from read_pairs bytes_dec
send_runs = refl

send_delivers_example :
    (sent.0 ≡ record { written = 9 ∷ []; finished = true })
    × (serve (1 ∷ []) (stream ∷ []) ≡ on_message (1 ∷ []) (9 ∷ []) ∷ write_back (ack ∷ []) ∷ [])
    × (0 < length {A = ℕ} (9 ∷ []))
    × (length {A = ℕ} (9 ∷ []) ≤ max_msg_len)
send_delivers_example =
    send_delivers parsed parsed parts connection stream naddr (9 ∷ []) (1 ∷ []) 100 carries
      send_runs

b64_runs : b64 (102 ∷ 111 ∷ 111 ∷ 98 ∷ []) ≡ codes "Zm9vYg"
unfolding b64 codes
b64_runs = refl

unb64_refuses : unb64 (codes "AB#C") ≡ err (config "bad base64 char")
unfolding unb64 codes
unb64_refuses = refl

two_versions :
    parse_naddr parsed parsed parts (codes "dc://node?v=2&id=00")
    ≡ err (config "unsupported snapshot version")
unfolding parse_naddr codes strip_prefix split_from split_once_from read_pairs bytes_dec
two_versions = refl

trimmed : trim (codes "  https://relay \n") ≡ codes "https://relay"
unfolding trim_start trim_end codes any
trimmed = refl

stopped_twice : (stop (stop (record { ep = here; accept_task = true })).0).1 ≡ close ∷ []
unfolding stop
stopped_twice = refl
