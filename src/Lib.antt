-- ===== src/Lib.antt =====
-- A model of the core of a decentralised messenger, `crates/core` of the repository, and the theorems
-- that make its parts correct.
--
-- Prelude holds what the parts share: Boolean tests, byte strings as lists of numbers, big-endian
-- integers, lists measured by native numbers, hash maps as association lists, sorting, `i64`
-- arithmetic, and the error type of crates/core/src/lib.rs (`CoreError`, `Result`, its `?`).
--
-- Envelope (envelope.rs): `Envelope::to_cbor` and `from_cbor` are `to_cbor` and `from_cbor`, `frame`
-- and `unframe` are themselves, the struct `Dedup` is `DedupSet`.
-- Mailbox (mailbox.rs): `BucketWrite` with `seal`, `verify` and `mac_input`; `NonceCache`; the entry
-- point `verify_inbound`, which first verifies and then asks the ledger.
-- Identity (identity.rs): the key pair, strict verification, `fingerprint1024` and the safety groups.
-- Relay (relay.rs): `RelayTicket`, and `RelayGuard::accept` with its four steps, `prune` for the first
-- three and `make_room` for the last. It uses Identity for signatures and fingerprints.
-- Nodekey (nodekey.rs): `NodeKeyAnnouncement`, and `NodeKeyRing` with `upsert`, `current`, `accepts`
-- and `restore`. It uses Identity for signatures.
-- Retry (retry.rs): `RetryPolicy`.
-- Queue (queue.rs): `Db`, with one function for each method. A statement is a function on the tables;
-- a method is a chain of calls, each of which the engine may refuse. It uses Retry for the delays and
-- Envelope for what is stored.
-- Adaptive (adaptive.rs): `PolicyEngine`.
-- Clock (clock.rs): `InternalClock`.
-- Contacts (contacts.rs): `ContactStore` and its two tables, and the opening.
-- Settings (settings.rs): the settings with their defaults, `save` and `load_or_default`; it uses the
-- thresholds of Adaptive.
-- Sqlcipher: the opening of an encrypted database, which Queue, Contacts and Signal share.
-- Signal (signal_store.rs): `SqlSignalStore`, its six tables and the methods of the store traits.
-- Engine has the calls of the database, Identities the own identity, the ids of prekeys and the pinned
-- identities, Records the sessions and prekeys, Open the method `open`, Calls sequences of calls.
-- Handshake (handshake.rs): `Device` over the store of Signal. Library is what it uses of libsignal,
-- Device the methods, Start its constructors, Wire the wire format of a prekey bundle, First the MAC on
-- the first message, which uses the secret of Mailbox, and Sas the safety code.
-- Node (node.rs): Base64, Hex, Address, Split, Utf8 and Snapshot are the snapshot of an address,
-- `naddr_string` and `parse_naddr`; Channel is `Node::send` and the loop that serves a connection;
-- Lifecycle is `start` and `stop`.
-- Governor (governor.rs): `RelayGovernor`, its curves, its price and its token buckets.
-- Ffi (ffi.rs): the errors of the border, `SignalSession` over Handshake, and the handles on Contacts
-- and Node.
-- Entropy (entropy.rs): `EntropyHarvester`; the pool is the bytes that the hasher was given.
--
-- Conventions. An unsigned integer is a natural number, with wrapping and saturation written out; an
-- `i64` of the clock is an integer. A panic is `none`, an error is `err` with the code's own text; a
-- number or a name inside a text is left out. A method that changes its object returns the new object. What the
-- code takes from other crates is an argument: the CBOR codec, BLAKE3 with a key and as an output
-- function, `ed25519_dalek`, libsignal, the transport and the addresses of iroh, how SQL reads a literal,
-- the bytes that the random generator fills in or its error, and floating-point numbers. Laws on these
-- stand among the hypotheses of the theorems that need them.
--
-- Fuel and bounds. `chunks8`, `free_slots`, `make_room` and `trim` recurse on fuel, which is the number
-- of elements at the start, since each round takes one away; `Relay.Guard.free_slots-lt` and the lemmas
-- on `make_room` and `trim` show that the loops end by their own tests. All other loops recurse on
-- a list. Where a time is added to a tolerance the code wraps at 2^64; the theorems that need it state
-- that the times are below 2^63.
--
-- Not modelled: the smoke test and the generator of the bindings, the probe of the build, the Android
-- application, tests and documents.
pub mod Prelude
pub mod Envelope
pub mod Mailbox
pub mod Identity
pub mod Relay
pub mod Nodekey
pub mod Retry
pub mod Queue
pub mod Adaptive
pub mod Clock
pub mod Contacts
pub mod Settings
pub mod Sqlcipher
pub mod Signal
pub mod Handshake
pub mod Node
pub mod Governor
pub mod Entropy
pub mod Ffi
