-- ===== src/Objects.antt =====
-- crates/smb/src/runtime/object_state.rs: the registry of one generation's object hierarchy
-- (connection, sessions, shares, resources), and the queue of commands that wait for a recovery.
pub mod Data
pub mod Registry
pub mod Queue
pub mod Hierarchy
pub mod Replacement
pub mod Validity
pub mod Waiting
pub mod History
pub mod Fairness
pub mod Answers
pub mod Capacity
pub mod Growth
