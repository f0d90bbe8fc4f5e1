-- ===== src/Generation/Balance.antt =====
-- The credit account of crates/smb/src/runtime/state.rs over a history.
use smb_rs.Prelude.{ℕ, ◌+◌}
use smb_rs.Reducer.{request_key_Eq}
use smb_rs.Generation.Data.{OwnerEffect}
use smb_rs.Generation.Data
use smb_rs.Generation.Handlers.{Step}
use smb_rs.Generation.Moves.{Moves}
use smb_rs.Generation.Identity.{Identity}
use smb_rs.Generation.Grants.{granted}
use smb_rs.Generation.Conservation.{IsBalanced}

-- A step adds to the account what its effects grant.
abbrev Adds : ℕ → Step → Type 0
Adds given x = IsBalanced (given + granted x.1) x.0
