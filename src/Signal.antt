-- ===== src/Signal.antt =====
-- crates/core/src/signal_store.rs: the store of the Signal protocol, in an encrypted SQLite database.
-- The clones of a store share one connection, so there is one state. A statement does what its SQL says
-- or nothing; `faults` holds, call after call, what the lock and the engine make of it, or `none`; past
-- its end every call succeeds. A key is its serialized bytes; the reading of keys and the encoding of
-- records are the library's, and arguments.
pub mod Engine
pub mod Identities
pub mod Records
pub mod Open
pub mod Calls
pub mod Keeps
pub mod Pinned
pub mod Trust
pub mod Ids
pub mod Refusal
mod Tests
