-- ===== src/Ffi/Iroh.antt =====
-- ffi.rs, `node_ffi`: the handle on the node.
use mesui.Prelude.{ℕ, ◌==◌, Bytes, List, length, Outcome}
use mesui.Node.Snapshot.{EndpointAddr, TransportAddr, node_id_of_naddr}
use mesui.Node.Channel
use mesui.Node.Lifecycle
use mesui.Node.Lifecycle.{Node, Ready, RelayMode, StopEvent}
use mesui.Node.Channel.{Connection, Wire}
use mesui.Ffi.Errors.{DcResult, from_core, sized, ◌>>◌}

unfoldable pub start :
    Outcome (Unit {0})
    → (List ℕ → Outcome Bytes)
    → (RelayMode → Bytes → Outcome EndpointAddr)
    → List ℕ
    → Bytes
    → DcResult (Node × Ready)
unfolding Lifecycle.start
start runtime parse bind relay_url seed32 = do
  sized (length seed32 == 32) "seed must be 32 bytes"
  from_core (Lifecycle.start runtime parse bind relay_url seed32)

unfoldable pub node_id_hex : Node → Bytes
unfolding Lifecycle.node_id_hex
node_id_hex n = Lifecycle.node_id_hex n

unfoldable pub export_naddr : Node → Bytes
unfolding Lifecycle.export_naddr
export_naddr n = Lifecycle.export_naddr n

unfoldable pub stop : Node → Node × List StopEvent
unfolding Lifecycle.stop
stop n = Lifecycle.stop n

module _ (from_bytes parse_url : Bytes → Outcome Bytes)
    (from_parts : Bytes → List TransportAddr → EndpointAddr) where
  unfoldable pub send : Connection → Bytes → Bytes → ℕ → Wire → Wire × DcResult (Unit {0})
  unfolding Channel.send
  send conn naddr payload timeout_ms w =
      let (w', r) = Channel.send from_bytes parse_url from_parts conn naddr payload timeout_ms w in
      (w', from_core r)

  unfoldable pub node_id_from_naddr : Bytes → DcResult Bytes
  unfolding node_id_of_naddr
  node_id_from_naddr naddr = from_core (node_id_of_naddr from_bytes parse_url from_parts naddr)
