-- ===== src/Ffi.antt =====
-- crates/core/src/ffi.rs: what the application calls, over the parts below it. A method of a handle takes
-- what the handle holds and gives it back with its result; its lock is never poisoned, as no method panics
-- while it holds it.
pub mod Errors
pub mod Session
pub mod FirstMessage
pub mod Contact
pub mod Iroh
pub mod Classified
mod Tests
