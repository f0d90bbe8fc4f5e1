-- ===== src/Transfer/Outcome.antt =====
-- crates/smb/src/domain/transfer.rs: what `run_transfer` promises to its caller.
use mathlib.Core.List.{append-nil, append_assoc}
use smb_rs.Prelude.{
  length-take, length-drop, ℕ, suc, ◌+◌, ◌*◌, ◌≤◌, ◌<◌, ◌≡◌, sym, ap, ◌∙◌, List, [], ◌∷◌, ◌++◌,
  arith, length, take, drop, take-append-drop, drop_add, drop_all, u32_max, subst,
}
use smb_rs.Transfer.{
  TransferOptions, TransferReport, TransferError, Scheduler, Answer, done, failed, Environment,
  Step, next, returned,
}
use smb_rs.Transfer.Schedule.{issue, turns, start, run_transfer}
use smb_rs.Transfer.Events.{Tells, Writes}
use smb_rs.Transfer.Invariant.{start-IsRunning, issue-IsRunning}
use smb_rs.Transfer.Turns.{Answers, Ended}
use smb_rs.Transfer.Runs.{turns-Ended, turns-IsRunning}

-- Both options are positive, and the chunk size is a `u32`.
pub record IsUsable (options : TransferOptions) : Type 0 where
  pub able : 0 < options.concurrency
  pub positive : 0 < options.chunk_size
  pub small : options.chunk_size ≤ u32_max

-- A chunk of any content may stand anywhere.
abbrev pub Any : {B : Type 0} → ℕ → List B → Type 0
Any offset bytes = Unit {0}

-- A chunk of a file, at its offset there.
abbrev pub IsChunk : {B : Type 0} → List B → ℕ → List B → Type 0
IsChunk source offset bytes = take (length bytes) (drop offset source) ≡ bytes

abbrev pub contents : {B : Type 0} → List (ℕ × List B) → List B
contents [] = []
contents ((offset, bytes) ∷ calls) = bytes ++ contents calls

-- The file that is read and the file that is written answer in full.
pub record IsServed {E B : Type 0} (source : List B) (env : Environment E B) : Type 0 where
  pub reads :
      (turn offset l : ℕ)
      → offset + l ≤ length source
      → env.read_chunk turn offset l ≡ done (take l (drop offset source))
  pub writes :
      (turn offset : ℕ) (bytes : List B) → env.write_chunk turn offset bytes ≡ done (length bytes)

module _ {E B : Type 0} (env : Environment E B) (total : ℕ) (options : TransferOptions)
    (usable : IsUsable options) where
  Any-Answers : Answers total Any (Unit {0}) env
  Any-Answers = record {
    read_good = λ turn offset l bytes inside e size. tt;
    read_failed = λ turn offset l e inside h. tt;
    read_short = λ turn offset l bytes inside e size. tt;
    write_failed = λ turn offset bytes e h. tt;
    write_short = λ turn offset bytes count h size. tt;
  }

  run_starts :
      (fuel : ℕ) → run_transfer fuel total options env ≡ turns total options env fuel 0 start
  unfolding run_transfer
  run_starts fuel = ground (arith, usable.able, usable.positive)

  -- Whatever the callbacks answer and in whichever order the reads complete, a transfer with positive
  -- options, its chunk size a `u32`, returns within twice the length and one turns. It returns a report
  -- of exactly the length, whose chunks are as many as the events, with events and writes that follow on
  -- one another from 0 to the length; or `TransferFailed`, whose count of transferred bytes is what the
  -- events tell of, from 0 on without a gap, and whose offset lies at or behind that count and below the
  -- length. It never returns another error, such as an unreachable next write.
  pub run_transfer-Ended :
      (s : Scheduler B) × (answer : Answer (TransferError E) TransferReport) × (run_transfer
          (suc (2 * total))
          total
          options
          env
        ≡ returned s answer)
      × Ended total Any (Unit {0}) s answer
  run_transfer-Ended =
      let (s, answer, ended, how) =
        turns-Ended total options Any (Unit {0}) env Any-Answers usable.small usable.able
          usable.positive (suc (2 * total)) 0 start (start-IsRunning total options Any)
          (omega arith) in
      (s, answer, run_starts (suc (2 * total)) ∙ ended, how)

  -- Under the same options, the reads that are pending and the chunks that wait to be written are never
  -- more than the concurrency together, after any number of turns and once the next reads are issued.
  pub run_transfer_bounded :
      (fuel : ℕ) (s : Scheduler B)
      → run_transfer fuel total options env ≡ next s
      → length (issue total options options.concurrency s).pending
          + length (issue total options options.concurrency s).ready
        ≤ options.concurrency
  run_transfer_bounded fuel s h =
      let v =
        turns-IsRunning total options Any (Unit {0}) env Any-Answers usable.small fuel 0 start s
          usable.able usable.positive (start-IsRunning total options Any)
          (sym (run_starts fuel) ∙ h) in
      (issue-IsRunning total options Any usable.positive options.concurrency s v).0.bounded

module _ {B : Type 0} (source : List B) where
  drop-contents :
      (a : ℕ) (calls : List (ℕ × List B)) (b : ℕ)
      → Writes (IsChunk source) a calls b
      → contents calls ++ drop b source ≡ drop a source
  drop-contents a [] b e = ap (λ (n : ℕ). drop n source) (sym e)
  drop-contents a ((offset, bytes) ∷ calls) b (here, chunk, rest) =
      let start_here : take (length bytes) (drop a source) ≡ bytes =
        subst (λ (n : ℕ). take (length bytes) (drop n source) ≡ bytes) here chunk in
      append_assoc bytes (contents calls) (drop b source)
      ∙ ap (λ (r : List B). bytes ++ r)
          (drop-contents (a + length bytes) calls b rest ∙ sym (drop_add a (length bytes) source))
      ∙ ap (λ (r : List B). r ++ drop (length bytes) (drop a source)) (sym start_here)
      ∙ take-append-drop (length bytes) (drop a source)

  contents-eq :
      (calls : List (ℕ × List B))
      → Writes (IsChunk source) 0 calls (length source)
      → contents calls ≡ source
  contents-eq calls w =
      sym (append-nil (contents calls))
      ∙ ap (λ (r : List B). contents calls ++ r)
          (sym (drop_all (length source) source (omega arith)))
      ∙ drop-contents 0 calls (length source) w

done-injective : {E A : Type 0} {a b : A} → ◌≡◌ {A = Answer E A} (done a) (done b) → a ≡ b
done-injective h = cc

delivered :
    {E B : Type 0} (source : List B) (step : Step E B) (s : Scheduler B)
    (answer : Answer (TransferError E) TransferReport)
    → step ≡ returned s answer
    → Ended (length source) (IsChunk source) ⊥ s answer
    → (s : Scheduler B) × (step
        ≡ returned s (done (record { bytes = length source; chunks = length s.progress })))
      × (contents s.written ≡ source)
      × Writes (IsChunk source) 0 s.written (length source)
      × Tells (length source) 0 s.progress (length source)
delivered source step s (done report) e (bytes, chunks, told, calls) =
    (s, ground (arith, e, bytes, chunks), contents-eq source s.written calls, calls, told)
delivered source step s (failed (TransferError.transfer_failed offset transferred reason)) e how =
    absurd how.3
delivered source step s (failed TransferError.invalid_argument) e how = absurd how
delivered source step s (failed TransferError.int_conversion) e how = absurd how
delivered source step s (failed TransferError.invalid_state) e how = absurd how

module _ {E B : Type 0} (env : Environment E B) (source : List B) (options : TransferOptions)
    (usable : IsUsable options) (served : IsServed source env) where
  got :
      (turn offset l : ℕ) (bytes : List B)
      → offset + l ≤ length source
      → env.read_chunk turn offset l ≡ done bytes
      → take l (drop offset source) ≡ bytes
  got turn offset l bytes inside e = done-injective (sym (served.reads turn offset l inside) ∙ e)

  got_whole :
      (turn offset l : ℕ) (bytes : List B)
      → offset + l ≤ length source
      → env.read_chunk turn offset l ≡ done bytes
      → length bytes ≡ l
  got_whole turn offset l bytes inside e =
      ap length (sym (got turn offset l bytes inside e))
      ∙ length-take l (drop offset source) (omega (arith, length-drop offset source))

  served-Answers : Answers (length source) (IsChunk source) ⊥ env
  served-Answers = record {
    read_good = λ turn offset l bytes inside e size.
        subst (λ n. take n (drop offset source) ≡ bytes) (sym size)
          (got turn offset l bytes inside e);
    read_failed = λ turn offset l e inside h. absurd (cc (served.reads turn offset l inside, h));
    read_short = λ turn offset l bytes inside e size. size (got_whole turn offset l bytes inside e);
    write_failed = λ turn offset bytes e h. absurd (cc (served.writes turn offset bytes, h));
    write_short = λ turn offset bytes count h size.
        size (sym (done-injective (sym (served.writes turn offset bytes) ∙ h)));
  }

  -- Where every read within the file answers with the bytes that stand there, and every write takes all
  -- it is given, a transfer with positive options, its chunk size a `u32`, returns a report of the
  -- file's length, in whichever order the reads complete. What it wrote, put together, is the file, each
  -- chunk at its place there and the places following on one another; and the events tell of the same
  -- bytes.
  pub run_transfer_delivers :
      (s : Scheduler B) × (run_transfer (suc (2 * length source)) (length source) options env
        ≡ returned s (done (record { bytes = length source; chunks = length s.progress })))
      × (contents s.written ≡ source)
      × Writes (IsChunk source) 0 s.written (length source)
      × Tells (length source) 0 s.progress (length source)
  run_transfer_delivers =
      let (s, answer, ended, how) =
        turns-Ended (length source) options (IsChunk source) ⊥ env served-Answers usable.small
          usable.able usable.positive (suc (2 * length source)) 0 start
          (start-IsRunning (length source) options (IsChunk source)) (omega arith) in
      delivered source _ s answer
        (run_starts env (length source) options usable (suc (2 * length source)) ∙ ended) how
