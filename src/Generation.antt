-- ===== src/Generation.antt =====
-- crates/smb/src/runtime/state.rs: the sole owner of the request state of one connection
-- generation. The data, the shared steps, the handlers and the event loop's entry, then the proofs.
pub mod Data
pub mod Ledger
pub mod Handlers
pub mod Response
pub mod Deadlines
pub mod Owner
pub mod Moves
pub mod Paths
pub mod Counts
pub mod Credits
pub mod Grants
pub mod Conservation
pub mod Balance
pub mod Evolution
pub mod Identity
pub mod Async
pub mod Heap
pub mod Expiry
pub mod Distinct
pub mod Told
pub mod Closing
pub mod Admission
