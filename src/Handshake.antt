-- ===== src/Handshake.antt =====
-- crates/core/src/handshake.rs: a device of the Signal protocol over its store, the wire format of its
-- prekey bundle, the safety code, and the MAC on the first message. What libsignal does is an argument;
-- a public key or a key pair is its serialized bytes. What the clock and the random generator give to
-- a call is one argument, a `Moment`.
pub mod Library
pub mod Device
pub mod Start
pub mod Wire
pub mod First
pub mod Sas
pub mod Keeps
pub mod Reopen
pub mod Trusted
pub mod Pending
pub mod Bundle
pub mod Code
pub mod Mac
pub mod Fixture
mod Tests
