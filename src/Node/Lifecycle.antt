-- ===== src/Node/Lifecycle.antt =====
-- node.rs, `Node::start`, `stop` and the loop that accepts connections. The URL of the relay is given as
-- its code points.
use mesui.Prelude.{
  ℕ, Bool, true, false, ◌||◌, ◌&&◌, List, [], ◌∷◌, ◌++◌, Bytes, leb, ◌==◌, if◌then◌else◌, config,
  io, Result, ok, ◌>>=◌, ◌>>◌, Outcome, done, failed, map_err, any,
}
use mesui.Node.Hex.{hex}
use mesui.Node.Snapshot.{EndpointAddr, naddr_string}
use mesui.Node.Channel.{Stream, Event, serve}

-- `char::is_whitespace`.
abbrev pub is_whitespace : ℕ → Bool
is_whitespace c =
    (leb 9 c && leb c 13)
    || (leb 8_192 c && leb c 8_202)
    || any (λ w. c == w) (32 ∷ 133 ∷ 160 ∷ 5_760 ∷ 8_232 ∷ 8_233 ∷ 8_239 ∷ 8_287 ∷ 12_288 ∷ [])

unfoldable pub trim_start : List ℕ → List ℕ
trim_start [] = []
trim_start (c ∷ cs) = if is_whitespace c then trim_start cs else c ∷ cs

-- A character is dropped when nothing but white space follows it.
unfoldable pub trim_end : List ℕ → List ℕ
trim_end [] = []
trim_end (c ∷ cs) = elim (trim_end cs) [
  | [] ↦ if is_whitespace c then [] else c ∷ []
  | d ∷ ds ↦ c ∷ d ∷ ds
]

abbrev pub trim : List ℕ → List ℕ
trim s = trim_end (trim_start s)

pub data RelayMode : Type 0 where
  disabled : RelayMode
  custom : Bytes → RelayMode

-- `parse` is that of `RelayUrl`.
abbrev pub relay_mode : (List ℕ → Outcome Bytes) → List ℕ → Result RelayMode
relay_mode parse [] = ok disabled
relay_mode parse (c ∷ cs) =
    map_err (λ e. config "relay url") (parse (c ∷ cs)) >>= λ url. ok (custom url)

pub record Node : Type 0 where
  pub ep : EndpointAddr
  pub accept_task : Bool

-- What `on_ready` is called with.
pub record Ready : Type 0 where
  pub node_id_hex : Bytes
  pub naddr : Bytes

unfoldable pub start :
    (runtime : Outcome (Unit {0}))
    → (List ℕ → Outcome Bytes)
    → (RelayMode → Bytes → Outcome EndpointAddr)
    → List ℕ
    → Bytes
    → Result (Node × Ready)
unfolding trim_start trim_end naddr_string hex any
start runtime parse bind relay_url seed32 = do
  map_err io runtime
  mode ← relay_mode parse (trim relay_url)
  ep ← map_err io (bind mode seed32)
  ok (
    record { ep = ep; accept_task = true },
    record { node_id_hex = hex ep.id; naddr = naddr_string ep false },
  )

unfoldable pub node_id_hex : Node → Bytes
unfolding hex
node_id_hex n = hex n.ep.id

unfoldable pub export_naddr : Node → Bytes
unfolding naddr_string
export_naddr n = naddr_string n.ep false

-- A connection that comes in: accepting it, the handshake with the other side's id, and its streams.
pub record Incoming : Type 0 where
  pub accept : Outcome (Unit {0})
  pub remote_id : Outcome Bytes
  pub streams : List Stream

unfoldable pub on_incoming : Incoming → List Event
unfolding serve hex
on_incoming i = elim i.accept [
  | failed e ↦ []
  | done u ↦ elim i.remote_id [ failed e ↦ [] | done id ↦ serve (hex id) i.streams ]
]

-- What `stop` does to the task and the endpoint.
pub data StopEvent : Type 0 where
  abort close : StopEvent

-- The task is taken out, so that a later call finds none. `drop` is this too.
unfoldable pub stop : Node → Node × List StopEvent
stop n =
    (record n { accept_task = false }, (if n.accept_task then abort ∷ [] else []) ++ close ∷ [])
