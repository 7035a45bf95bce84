-- ===== src/Node/Delivery.antt =====
-- node.rs: a message that was sent without an error has been handed up at the other end.
use Prim.Native.String.{String}
use mesui.Prelude.{
  ℕ, ◌≡◌, ◌≢◌, ◌<◌, ◌≤◌, refl, ap, ◌∙◌, List, [], ◌∷◌, ◌++◌, Bytes, length, true, ok, Outcome, done,
  failed, arith,
}
use mesui.Node.Snapshot.{TransportAddr, EndpointAddr}
use mesui.Node.Channel.{
  max_msg_len, ack, Timed, timed_out, settled, in_time, Connection, Wire, opened, send, Stream,
  Event, on_message, write_back, serve,
}

-- All that a run of the receiver wrote back.
abbrev pub written : List Event → Bytes
written [] = []
written (on_message remote payload ∷ es) = written es
written (write_back b ∷ es) = b ++ written es

-- What a transport promises: the receiver reads to the end nothing but what was written to the stream,
-- and the sender reads back nothing but what the receiver wrote.
pub record Carries (conn : Connection) (stream : Stream) (wire : Wire) (remote : Bytes)
    : Type 0 where
  pub forth : (limit : ℕ) (p : Bytes) → stream.read_to_end limit ≡ done p → p ≡ wire.written
  pub back :
      (limit timeout : ℕ) (b : Bytes)
      → conn.read_to_end limit timeout ≡ settled (done b)
      → b ≡ written (serve remote (stream ∷ []))

serve_one :
    (remote payload : Bytes) (stream : Stream)
    → ((limit : ℕ) (p : Bytes) → stream.read_to_end limit ≡ done p → p ≡ payload)
    → written (serve remote (stream ∷ [])) ≢ []
    → serve remote (stream ∷ []) ≡ on_message remote payload ∷ write_back (ack ∷ []) ∷ []
unfolding serve
serve_one remote payload stream forth n = accepted stream.accept_bi refl
  where
    accepted :
        (o : Outcome (Unit {0}))
        → stream.accept_bi ≡ o
        → serve remote (stream ∷ []) ≡ on_message remote payload ∷ write_back (ack ∷ []) ∷ []
    accepted (failed e) h = absurd (n (rw (h, serve) refl))
    accepted (done u) h = reads (stream.read_to_end max_msg_len) refl
      where
        reads :
            (o : Outcome Bytes)
            → stream.read_to_end max_msg_len ≡ o
            → serve remote (stream ∷ []) ≡ on_message remote payload ∷ write_back (ack ∷ []) ∷ []
        reads (failed e) k = absurd (n (rw (h, serve) (rw k refl)))
        reads (done p) k =
            rw (h, serve)
              (rw k (
                ap (λ q. on_message remote q ∷ write_back (ack ∷ []) ∷ []) (forth max_msg_len p k)))

in_time_inv :
    {A : Type 0} (late broken : String) (t : Timed A) {a : A}
    → in_time late broken t ≡ ok a
    → t ≡ settled (done a)
in_time_inv late broken timed_out h = cc
in_time_inv late broken (settled (done a)) h = cc
in_time_inv late broken (settled (failed e)) h = cc

module _ (from_bytes parse_url : Bytes → Outcome Bytes)
    (from_parts : Bytes → List TransportAddr → EndpointAddr) where
  -- What a call of `send` that returned has given to the stream.
  send_inv :
      (conn : Connection) (naddr payload : Bytes) (timeout_ms : ℕ)
      → (send from_bytes parse_url from_parts conn naddr payload timeout_ms opened).1 ≡ ok tt
      → (0 < length payload)
        × (length payload ≤ max_msg_len)
        × ((send from_bytes parse_url from_parts conn naddr payload timeout_ms opened).0
            ≡ record { written = payload; finished = true })
        × (conn.read_to_end 1 timeout_ms ≡ settled (done (ack ∷ [])))
  unfolding send
  send_inv conn naddr payload timeout_ms h = ground arith

  -- If `send` returned without an error, then it wrote exactly the payload to the stream and finished it,
  -- and the receiver that served the stream handed exactly this payload up, once, and acknowledged it; the
  -- payload is not empty and within the limit. The transport gives each side nothing but what the other
  -- side wrote.
  pub send_delivers :
      (conn : Connection) (stream : Stream) (naddr payload remote : Bytes) (timeout_ms : ℕ)
      → let sent = send from_bytes parse_url from_parts conn naddr payload timeout_ms opened in
        Carries conn stream sent.0 remote
        → sent.1 ≡ ok tt
        → (sent.0 ≡ record { written = payload; finished = true })
          × (serve remote (stream ∷ []) ≡ on_message remote payload ∷ write_back (ack ∷ []) ∷ [])
          × (0 < length payload)
          × (length payload ≤ max_msg_len)
  send_delivers conn stream naddr payload remote timeout_ms c h =
      let (nonempty, within, wire, answered) = send_inv conn naddr payload timeout_ms h in
      (
        wire,
        serve_one remote payload stream (λ limit p e. c.forth limit p e ∙ ap (λ w. w.written) wire)
            (λ e. not_empty (c.back 1 timeout_ms (ack ∷ []) answered ∙ e)),
        nonempty,
        within,
      )
    where
      not_empty : ◌≢◌ {A = Bytes} (ack ∷ []) []
      not_empty e = cc
