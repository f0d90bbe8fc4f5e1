-- ===== src/Transfer.antt =====
-- crates/smb/src/domain/transfer.rs, `run_transfer`: the scheduler that copies a file by concurrent
-- reads of chunks and writes in order.
-- What the two callbacks answer, and which of the pending reads answers first, is the environment's,
-- which may choose anew at each turn of the loop. The cancellation token is only passed on.
pub mod Schedule
pub mod Events
pub mod Moves
pub mod Chunks
pub mod Invariant
pub mod Turns
pub mod Runs
pub mod Outcome
use mathlib.Core.Option
use smb_rs.Prelude.{
  ℕ, zero, suc, ◌+◌, ◌-◌, min, Bool, true, false, ◌&&◌, ◌||◌, Option, none, some, List, [], ◌∷◌,
  ◌++◌, if◌then◌else◌, ltb, leb, ◌==◌, u32_max, Assoc, get, insert, remove, length,
}

pub record TransferOptions : Type 0 where
  pub concurrency : ℕ
  pub chunk_size : ℕ

pub record TransferReport : Type 0 where
  pub bytes : ℕ
  pub chunks : ℕ

-- `TransferProgress::ChunkCompleted`
pub record ChunkCompleted : Type 0 where
  pub offset : ℕ
  pub bytes : ℕ
  pub transferred : ℕ
  pub total : ℕ

-- What a callback answers: a value or an error of its own.
pub data Answer (E A : Type 0) : Type 0 where
  done : A → Answer E A
  failed : E → Answer E A

-- The source of a failed transfer: a callback's error, or `InvalidMessage` for a short count.
pub data Source (E : Type 0) : Type 0 where
  callback : E → Source E
  short_count : Source E

pub data TransferError (E : Type 0) : Type 0 where
  invalid_argument : TransferError E
  int_conversion : TransferError E
  transfer_failed : (offset transferred : ℕ) (source : Source E) → TransferError E
  invalid_state : TransferError E

-- The state between two turns: the loop's variables, the events sent on the progress channel and
-- the calls of `write_chunk`, the oldest first.
pub record Scheduler (B : Type 0) : Type 0 where
  pub pending : Assoc ℕ ℕ
  pub ready : Assoc ℕ (List B)
  pub next_read : ℕ
  pub next_write : ℕ
  pub transferred : ℕ
  pub chunks : ℕ
  pub progress : List ChunkCompleted
  pub written : List (ℕ × List B)

-- The callbacks at each turn, and the position of the read that `pending.next()` yields.
pub record Environment (E B : Type 0) : Type 0 where
  pub read_chunk : (turn offset length : ℕ) → Answer E (List B)
  pub write_chunk : (turn offset : ℕ) → List B → Answer E ℕ
  pub completes : (turn : ℕ) → ℕ

-- A turn of the loop goes on, or leaves it.
pub data Step (E B : Type 0) : Type 0 where
  next : Scheduler B → Step E B
  returned : Scheduler B → Answer (TransferError E) TransferReport → Step E B

-- The pending read at a position, the last one past the end, and the others.
unfoldable pub take_at : ℕ → Assoc ℕ ℕ → Option ((ℕ × ℕ) × Assoc ℕ ℕ)
take_at i [] = none
take_at i (entry ∷ []) = some (entry, [])
take_at zero (entry ∷ other ∷ pending) = some (entry, other ∷ pending)
take_at (suc i) (entry ∷ other ∷ pending) =
    Option.map (λ found. (found.0, entry ∷ found.1)) (take_at i (other ∷ pending))
