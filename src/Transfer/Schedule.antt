-- ===== src/Transfer/Schedule.antt =====
-- crates/smb/src/domain/transfer.rs: one turn of the loop of `run_transfer`, and the loop.
use smb_rs.Prelude.{
  ℕ, zero, suc, ◌+◌, ◌-◌, min, Bool, ◌&&◌, ◌||◌, none, some, List, [], ◌∷◌, ◌++◌, if◌then◌else◌,
  ltb, ◌==◌, u32_max, get, insert, remove, length, nat_eq,
}
use smb_rs.Transfer.{
  TransferOptions, TransferReport, Answer, done, failed, callback, short_count, invalid_argument,
  int_conversion, transfer_failed, invalid_state, Scheduler, Environment, Step, next, returned,
  take_at,
}

module _ {B : Type 0} (total : ℕ) (options : TransferOptions) where
  -- The test of the inner loop.
  abbrev pub has_room : Scheduler B → Bool
  has_room s = ltb (length s.pending + length s.ready) options.concurrency && ltb s.next_read total

  -- One read is issued.
  unfoldable pub issue_one : Scheduler B → Scheduler B
  issue_one s =
      let chunk_length = min (total - s.next_read) options.chunk_size in
      record s {
        pending = (s.next_read, chunk_length) ∷ s.pending;
        next_read = s.next_read + chunk_length;
      }

  -- The inner loop, on fuel.
  unfoldable pub issue : ℕ → Scheduler B → Scheduler B
  issue zero s = s
  issue (suc fuel) s = let rest = issue fuel (issue_one s) in if has_room s then rest else s

abbrev pub report : {B : Type 0} → Scheduler B → TransferReport
report s = record { bytes = s.transferred; chunks = s.chunks }

module _ {E B : Type 0} (total : ℕ) (options : TransferOptions) (env : Environment E B) where
  -- The chunk that is due is written. A count other than its length is a failure.
  unfoldable pub write_ready : (turn : ℕ) → List B → Scheduler B → Step E B
  write_ready turn bytes s =
      let called = record s {
        ready = remove s.next_write s.ready;
        written = s.written ++ (s.next_write, bytes) ∷ [];
      } in
      if ltb u32_max (length bytes)
      then returned (record s { ready = remove s.next_write s.ready }) (failed int_conversion)
      else elim (env.write_chunk turn s.next_write bytes) [
        | failed e ↦
            returned called (failed (transfer_failed s.next_write s.transferred (callback e)))
        | done count ↦
            if count == length bytes
            then next (record called {
              next_write = s.next_write + count;
              transferred = s.transferred + count;
              chunks = s.chunks + 1;
              progress =
                  s.progress
                  ++ record {
                    offset = s.next_write;
                    bytes = count;
                    transferred = s.transferred + count;
                    total = total;
                  }
                    ∷ [];
            })
            else returned called (failed (transfer_failed s.next_write s.transferred short_count))
      ]

  -- A read that has answered moves to the ready chunks. A short one is a failure.
  unfoldable pub read_answered :
      (offset chunk_length : ℕ) → Answer E (List B) → Scheduler B → Step E B
  read_answered offset chunk_length (failed e) s =
      returned s (failed (transfer_failed offset s.transferred (callback e)))
  read_answered offset chunk_length (done bytes) s =
      if length bytes == chunk_length
      then next (record s { ready = insert offset bytes s.ready })
      else returned s (failed (transfer_failed offset s.transferred short_count))

  unfoldable pub await_read : (turn : ℕ) → Scheduler B → Step E B
  await_read turn s = elim (take_at (env.completes turn) s.pending) [
    | some ((offset, chunk_length), others) ↦
        read_answered offset chunk_length (env.read_chunk turn offset chunk_length)
          (record s { pending = others })
    | none ↦ elim s.ready [
      | [] ↦ returned s (done (report s))
      | _ ∷ _ ↦ returned s (failed invalid_state)
    ]
  ]

  -- What a turn does once the reads are issued.
  unfoldable pub proceed : (turn : ℕ) → Scheduler B → Step E B
  proceed turn s = elim (get s.next_write s.ready) [
    | some bytes ↦ write_ready turn bytes s
    | none ↦ await_read turn s
  ]

  unfoldable pub one_turn : (turn : ℕ) → Scheduler B → Step E B
  one_turn turn s = proceed turn (issue total options options.concurrency s)

  -- The outer loop, on fuel: `next` is its answer where the fuel runs out.
  unfoldable pub turns : (fuel turn : ℕ) → Scheduler B → Step E B
  turns zero turn s = next s
  turns (suc fuel) turn s = elim (one_turn turn s) [
    | next s' ↦ turns fuel (suc turn) s'
    | returned s' answer ↦ returned s' answer
  ]

abbrev pub start : {B : Type 0} → Scheduler B
start = record {
  pending = [];
  ready = [];
  next_read = 0;
  next_write = 0;
  transferred = 0;
  chunks = 0;
  progress = [];
  written = [];
}

unfoldable pub run_transfer :
    {E B : Type 0} → (fuel total : ℕ) → TransferOptions → Environment E B → Step E B
run_transfer fuel total options env =
    if options.concurrency == 0 || options.chunk_size == 0
    then returned start (failed invalid_argument)
    else turns total options env fuel 0 start
