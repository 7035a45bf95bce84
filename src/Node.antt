-- ===== src/Node.antt =====
-- crates/core/src/node.rs: the snapshot of a node's address as a text, the limits on a message, and the
-- exchange of one message. A text is its bytes. The endpoint of iroh, its runtime and its parsers of ids
-- and URLs are arguments.
pub mod Base64
pub mod Hex
pub mod Address
pub mod Split
pub mod Utf8
pub mod Snapshot
pub mod Channel
pub mod Lifecycle
pub mod Decode
pub mod Read
pub mod RoundTrip
pub mod Delivery
mod Tests
