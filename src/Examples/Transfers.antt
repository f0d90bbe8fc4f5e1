-- ===== src/Examples/Transfers.antt =====
-- A transfer of five bytes in chunks of two with two reads at a time, of which the later one answers
-- first, for the theorems on crates/smb/src/domain/transfer.rs.
use smb_rs.Prelude.{
  ℕ, ◌+◌, ◌≤◌, ◌≡◌, refl, List, [], ◌∷◌, arith, length, take, drop, get, insert, remove,
}
use smb_rs.Transfer.{
  TransferOptions, TransferReport, TransferError, Scheduler, Answer, done, Environment, next,
  returned, take_at,
}
use smb_rs.Transfer.Schedule.{
  issue_one, issue, write_ready, read_answered, await_read, proceed, one_turn, turns, run_transfer,
}
use smb_rs.Transfer.Events.{Tells, Writes}
use smb_rs.Transfer.Turns.{Ended}
use smb_rs.Transfer.Outcome.{
  IsUsable, IsServed, IsChunk, Any, contents, run_transfer-Ended, run_transfer_bounded,
  run_transfer_delivers,
}

abbrev source : List ℕ
source = 5 ∷ 6 ∷ 7 ∷ 8 ∷ 9 ∷ []

abbrev options : TransferOptions
options = record { concurrency = 2; chunk_size = 2 }

options-IsUsable : IsUsable options
options-IsUsable = record { able = omega arith; positive = omega arith; small = omega arith }

abbrev env : Environment (Unit {0}) ℕ
env = record {
  read_chunk = λ turn offset l. done (take l (drop offset source));
  write_chunk = λ turn offset bytes. done (length bytes);
  completes = λ turn. 0;
}

env-IsServed : IsServed source env
env-IsServed = record { reads = λ turn offset l inside. refl; writes = λ turn offset bytes. refl }

run_transfer_delivers_example :
    (s : Scheduler ℕ) × (run_transfer 11 5 options env
      ≡ returned s (done (record { bytes = 5; chunks = length s.progress })))
    × (contents s.written ≡ source)
    × Writes (IsChunk source) 0 s.written 5
    × Tells 5 0 s.progress 5
run_transfer_delivers_example =
    run_transfer_delivers env source options options-IsUsable env-IsServed

run_transfer-Ended_example :
    (s : Scheduler ℕ) × (answer : Answer (TransferError (Unit {0})) TransferReport) × (run_transfer
        11 5 options env
      ≡ returned s answer)
    × Ended 5 Any (Unit {0}) s answer
run_transfer-Ended_example = run_transfer-Ended env 5 options options-IsUsable

-- After two turns both chunks are read and none is written.
abbrev two_read : Scheduler ℕ
two_read = record {
  pending = [];
  ready = (2, 7 ∷ 8 ∷ []) ∷ (0, 5 ∷ 6 ∷ []) ∷ [];
  next_read = 4;
  next_write = 0;
  transferred = 0;
  chunks = 0;
  progress = [];
  written = [];
}

run_transfer_two_turns : run_transfer 2 5 options env ≡ next two_read
unfolding run_transfer turns one_turn proceed await_read read_answered write_ready issue issue_one
    take_at get insert remove
run_transfer_two_turns = refl

run_transfer_bounded_example :
    length (issue 5 options 2 two_read).pending + length (issue 5 options 2 two_read).ready ≤ 2
run_transfer_bounded_example =
    run_transfer_bounded env 5 options options-IsUsable 2 two_read run_transfer_two_turns
