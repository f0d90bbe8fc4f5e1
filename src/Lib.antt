-- ===== src/Lib.antt =====
-- smb-rs: the connection runtime of an SMB client, the part that decides what happens to a request.
--
-- One connection generation owns the requests that it has admitted. Each request has a lifecycle
-- record with its own reducer; the owner of the generation keeps credits, message ids, async ids and
-- deadlines around those records, and passes lifecycle events on to them. Beside it stand the
-- hierarchy of objects (connection, sessions, shares, resources) whose tokens commands carry, the
-- queue of commands that wait for a recovery, the coordinator that decides when a lost connection is
-- tried again, the driver that runs the coordinator and answers the callers that wait, and the queue
-- that lets prepared requests go in order. Other parts stand by themselves: the frames of the transport
-- with the cursor that writes them, the check of the byte ranges that a decoded message names, the
-- compression of messages, the transfer of a file by concurrent reads, batches of commands, UNC paths, and NetBIOS names.
--
-- Files and code:
--   Clock: crates/smb/src/clock.rs, the time value.
--   Reducer: crates/smb/src/runtime/reducer.rs. `reduce`, `publish_once` and the others are the
--     methods of `RequestRecord`; a `&mut self` method returns the new record beside its result.
--     Once, Evolution and Wire hold the proofs.
--   Generation: crates/smb/src/runtime/state.rs. Data has the types, Ledger the steps that the
--     handlers share, Handlers, Response and Deadlines the handlers, Owner the entry point `reduce`
--     and the queries. Moves names the elementary changes of the state, Paths shows that every
--     handler is a sequence of them, and the other files prove by cases on a move. Grants,
--     Conservation, Credits and Balance keep the account of the credits; Distinct, Told and Closing
--     are about a disconnect.
--   Objects: crates/smb/src/runtime/object_state.rs. Data, Registry and Queue are the code.
--   Recovery: crates/smb/src/runtime/recovery.rs.
--   Driver: crates/smb/src/runtime/recovery_driver.rs. Driver has the admissions, Attempts the loop
--     and `recover`; Waiting and Consistency are about the waits and their reply channels, Steps and
--     Outcome about the loop. A runtime handle stands as the token of its connection.
--   Operation: crates/smb/src/runtime/operation.rs, the policies and the credit charge.
--   Ordering: crates/smb/src/runtime/preparation_order.rs.
--   Transfer: crates/smb/src/domain/transfer.rs, `run_transfer`. Schedule has one turn of its loop.
--     Chunks, Invariant, Moves, Turns and Runs build the proof of Outcome.
--   Batch: crates/smb/src/domain/batch.rs, the execution of a batch.
--   Compression: crates/smb/src/compression.rs, over the messages of crates/smb-msg/src/compressed.rs.
--   UncPath: crates/smb/src/client/unc_path.rs. NetBios: the names of
--     crates/smb-transport/src/netbios/msg.rs.
--   Transport: crates/smb-transport/src/frame.rs and crates/smb-transport/src/iovec.rs, the frames
--     and the cursor that sends them. WireRange: crates/smb-msg/src/wire_range.rs.
--   Prelude: shared tests, lists, machine words, association lists and results. Examples: the
--     theorems at concrete inputs.
--
-- How the code is read. A machine integer is a natural number with its bound written out in
-- `checked_add` and `saturating_add`; `usize` has 64 bits; a `Duration` is its nanoseconds. A
-- `HashMap` is an association list, so a walk over a map follows the order of the list. The binary
-- heap of deadlines is a list sorted by the derived order of its entries. A history is a list of
-- events, or of calls, applied one after the other: the code runs each handler to its end under one
-- owner. Where the code waits, in Transfer and Driver, an environment says what happens at each turn:
-- what a callback answers, which read completes, what other tasks do between two locks. The theorems
-- hold for every environment, or name what they ask of it. The LZ4 library is a parameter of the
-- compression, and its round trip is a hypothesis. An assertion or a sum that overflows is an error
-- value, as in a build with checks.
--
-- Loops. The loop of `advance_time` has as fuel the number of rounds that its deadlines can still
-- cause, two for a caller's deadline and one for a tombstone's, since a round may schedule a drain
-- deadline. The walks from an object to the root have the object's id as fuel, since a parent's id
-- is smaller. The walk of `validate_active` answers `stuck` where its fuel runs out; the other walk
-- answers no. The loop of `run_transfer` has twice the length and one
-- turns, since each turn reads or writes a chunk; its inner loop has the concurrency. The loop of
-- `drive_attempts` has twice the allowed attempts and three turns. The other
-- loops are structural.
--
-- Not modelled: the asynchronous engine, its ports and sockets, the codec and the ciphers, session
-- set-up, the user-facing operations other than the transfer and the batches, the message descriptions
-- that macros generate, `compress_transform`, the comparison of UNC paths without case, and the tests.
mod Prelude
pub mod Clock
pub mod Reducer
pub mod Generation
pub mod Objects
pub mod Recovery
pub mod Ordering
pub mod WireRange
pub mod UncPath
pub mod NetBios
pub mod Compression
pub mod Transfer
pub mod Driver
pub mod Operation
pub mod Batch
pub mod Transport
mod Examples
