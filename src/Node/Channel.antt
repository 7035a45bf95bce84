-- ===== src/Node/Channel.antt =====
-- node.rs, `Node::send` and the loop that receives. A timeout of the runtime is `timed_out`; a text of the
-- library inside an error is left out.
use Prim.Native.String.{String}
use mesui.Prelude.{
  ℕ, ◌*◌, not, List, [], ◌∷◌, Bytes, bytes_eq, ltb, ◌==◌, length, config, io, Result, ok, err,
  fail_if, Bool, true, false, ◌++◌, Outcome, done, failed, map_err,
}
use mesui.Node.Snapshot.{EndpointAddr, TransportAddr, parse_naddr}

abbrev pub max_msg_len : ℕ
max_msg_len = 256 * 1024

abbrev pub ack : ℕ
ack = 1

-- `tokio::time::timeout` of a call that may fail.
pub data Timed {ℓ} (A : Type ℓ) : Type ℓ where
  timed_out : Timed A
  settled : Outcome A → Timed A

abbrev pub in_time : {A : Type 0} → String → String → Timed A → Result A
in_time late broken timed_out = err (io late)
in_time late broken (settled (done a)) = ok a
in_time late broken (settled (failed e)) = err (io broken)

-- A connection as its sender sees it.
pub record Connection : Type 0 where
  pub connect : EndpointAddr → ℕ → Timed (Unit {0})
  pub open_bi : Outcome (Unit {0})
  pub write_all : Bytes → Outcome (Unit {0})
  pub finish : Outcome (Unit {0})
  pub read_to_end : ℕ → ℕ → Timed Bytes

-- What has been given to the stream: the bytes of the writes that went through, and whether it was
-- finished.
pub record Wire : Type 0 where
  pub written : Bytes
  pub finished : Bool

abbrev pub opened : Wire
opened = record { written = []; finished = false }

-- A step on the stream.
abbrev pub Sending : Type 0 → Type 0
Sending A = Wire → Wire × Result A

abbrev pub after : {A B : Type 0} → (A → Sending B) → Wire × Result A → Wire × Result B
after f (w, ok a) = f a w
after f (w, err e) = (w, err e)

infixl 5 ◌>>=◌ ◌>>◌
abbrev pub ◌>>=◌ : {A B : Type 0} → Sending A → (A → Sending B) → Sending B
◌>>=◌ m f w = after f (m w)

abbrev pub ◌>>◌ : {A B : Type 0} → Sending A → Sending B → Sending B
m >> k = m >>= λ _. k

abbrev pub give : {A : Type 0} → Result A → Sending A
give r w = (w, r)

abbrev pub write : Connection → Bytes → Sending (Unit {0})
write conn bytes w = elim (conn.write_all bytes) [
  | failed e ↦ (w, err (io "write"))
  | done u ↦ (record w { written = w.written ++ bytes }, ok tt)
]

abbrev pub close : Connection → Sending (Unit {0})
close conn w = elim conn.finish [
  | failed e ↦ (w, err (io "finish"))
  | done u ↦ (record w { finished = true }, ok tt)
]

-- `from_parts` is that of `EndpointAddr`.
module _ (from_bytes parse_url : Bytes → Outcome Bytes)
    (from_parts : Bytes → List TransportAddr → EndpointAddr) where
  unfoldable pub send : Connection → Bytes → Bytes → ℕ → Sending (Unit {0})
  send conn naddr payload timeout_ms = do
    addr ← give (parse_naddr from_bytes parse_url from_parts naddr)
    give (fail_if (length payload == 0) (config "empty payload"))
    give (fail_if (ltb max_msg_len (length payload)) (config "payload exceeds"))
    give (in_time "connect timeout" "connect" (conn.connect addr timeout_ms))
    give (map_err (λ e. io "open_bi") conn.open_bi)
    write conn payload
    close conn
    answer ← give (in_time "ack timeout" "ack read" (conn.read_to_end 1 timeout_ms))
    give (fail_if (not (bytes_eq answer (ack ∷ []))) (io "ack missing"))

-- A stream as its receiver sees it.
pub record Stream : Type 0 where
  pub accept_bi : Outcome (Unit {0})
  pub read_to_end : ℕ → Outcome Bytes

-- What the loop does: it hands a message up, and writes back.
pub data Event : Type 0 where
  on_message : (remote payload : Bytes) → Event
  write_back : Bytes → Event

-- The loop over the streams of a connection; it ends at the first that fails.
unfoldable pub serve : Bytes → List Stream → List Event
serve remote [] = []
serve remote (s ∷ streams) =
    let rest = serve remote streams in
    elim s.accept_bi [
      | failed e ↦ []
      | done u ↦ elim (s.read_to_end max_msg_len) [
        | failed e ↦ []
        | done payload ↦ on_message remote payload ∷ write_back (ack ∷ []) ∷ rest
      ]
    ]
