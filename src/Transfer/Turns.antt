-- ===== src/Transfer/Turns.antt =====
-- crates/smb/src/domain/transfer.rs: a turn of the loop of `run_transfer` keeps what holds between
-- the turns, or ends the transfer.
use smb_rs.Prelude.{
  list_rule, ◌⊎◌, ℕ, ◌+◌, ◌≤◌, ◌<◌, ◌≡◌, ◌≢◌, refl, sym, ap, ◌∙◌, false, none, some, List, [], ◌∷◌,
  arith, length, Assoc, get, nat_eq, ==_iff, ◌==◌, inl, inr, Bool-cases, Option-cases, subst, ltb,
  u32_max,
}
use smb_rs.Transfer.{
  TransferOptions, Scheduler, Answer, done, failed, TransferError, invalid_state, TransferReport,
  Step, next, returned, Environment, take_at,
}
use smb_rs.Transfer.Schedule.{has_room, write_ready, read_answered, await_read, report, proceed}
use smb_rs.Transfer.Chunks.{Chain-none, Takes, take_at-Takes}
use smb_rs.Transfer.Events.{Tells, Writes}
use smb_rs.Transfer.Moves.{answered, answered-IsRunning, wrote, wrote-IsRunning, held_due}
use smb_rs.Transfer.Invariant.{held, turns_left, IsRunning}

Answer-cases :
    {E A : Type 0} (m : Answer E A) → ((a : A) × (m ≡ done a)) ⊎ ((e : E) × (m ≡ failed e))
Answer-cases (done a) = inl (a, refl)
Answer-cases (failed e) = inr (e, refl)

-- The answers of the callbacks: chunks that may stand where they were read, or a failure.
pub record Answers {E B : Type 0} (total : ℕ) (Good : ℕ → List B → Type 0) (MayFail : Type 0)
    (env : Environment E B) : Type 0 where
  pub read_good :
      (turn offset l : ℕ) (bytes : List B)
      → offset + l ≤ total
      → env.read_chunk turn offset l ≡ done bytes
      → length bytes ≡ l
      → Good offset bytes
  pub read_failed :
      (turn offset l : ℕ) (e : E)
      → offset + l ≤ total
      → env.read_chunk turn offset l ≡ failed e
      → MayFail
  pub read_short :
      (turn offset l : ℕ) (bytes : List B)
      → offset + l ≤ total
      → env.read_chunk turn offset l ≡ done bytes
      → length bytes ≢ l
      → MayFail
  pub write_failed :
      (turn offset : ℕ) (bytes : List B) (e : E)
      → env.write_chunk turn offset bytes ≡ failed e
      → MayFail
  pub write_short :
      (turn offset : ℕ) (bytes : List B) (count : ℕ)
      → env.write_chunk turn offset bytes ≡ done count
      → count ≢ length bytes
      → MayFail

-- How a transfer ends. Without a failure the events tell of all the bytes. After one, they tell of
-- the bytes that the error counts, and the chunk that failed lies behind these.
abbrev pub Ended :
    {E B : Type 0}
    → (total : ℕ) → (ℕ → List B → Type 0)
    → (MayFail : Type 0) → Scheduler B
    → Answer (TransferError E) TransferReport
    → Type 0
Ended total Good MayFail s (done report) =
    (report.bytes ≡ total)
    × (report.chunks ≡ length s.progress)
    × Tells total 0 s.progress total
    × Writes Good 0 s.written total
Ended total Good MayFail s (failed (TransferError.transfer_failed offset transferred source)) =
    Tells total 0 s.progress transferred × (transferred ≤ offset) × (offset < total) × MayFail
Ended total Good MayFail s (failed TransferError.invalid_argument) = ⊥
Ended total Good MayFail s (failed TransferError.int_conversion) = ⊥
Ended total Good MayFail s (failed TransferError.invalid_state) = ⊥

module _ {E B : Type 0} (total : ℕ) (options : TransferOptions) (Good : ℕ → List B → Type 0)
    (MayFail : Type 0) where
  -- A turn leaves fewer turns, or ends the transfer.
  abbrev pub Proceeds : (bound : ℕ) → Step E B → Type 0
  Proceeds bound (next s) = IsRunning total options Good s × (turns_left total options s < bound)
  Proceeds bound (returned s answer) = Ended total Good MayFail s answer

  pub Proceeds-mono :
      (bound bound' : ℕ)
      → bound ≤ bound'
      → (step : Step E B) → Proceeds bound step
      → Proceeds bound' step
  Proceeds-mono bound bound' le (next s) (v, less) = (v, omega (arith, less))
  Proceeds-mono bound bound' le (returned s answer) e = e

  module _ (env : Environment E B) (answers : Answers total Good MayFail env)
      (small : options.chunk_size ≤ u32_max) where
    -- The chunk that is due is not too large, and is written.
    write_ready-Proceeds :
        (turn : ℕ) (bytes : List B) (s : Scheduler B)
        → IsRunning total options Good s
        → get s.next_write s.ready ≡ some bytes
        → Proceeds (turns_left total options s) (write_ready total options env turn bytes s)
    unfolding write_ready wrote
    write_ready-Proceeds turn bytes s v due =
        let fit = v.fits s.next_write (length bytes) (held_due total options Good bytes s v due) in
        let within : ltb u32_max (length bytes) ≡ false = ground (arith, fit.3, small) in
        let told : Tells total 0 s.progress s.transferred = rw v.counted v.events in
        let behind : s.transferred ≤ s.next_write = omega (arith, v.counted) in
        let before : s.next_write < total = omega (arith, fit, v.read_le) in
        rw within (elim (Answer-cases (env.write_chunk turn s.next_write bytes)) [
          | inl (count, e) ↦ elim (Bool-cases (count == length bytes)) [
            | inl whole ↦
                let same : count ≡ length bytes = (==_iff count (length bytes)).0 whole in
                rw (e, whole, same) (wrote-IsRunning total options Good bytes s v due)
            | inr other ↦
                rw (e, other)
                  (
                    told,
                    behind,
                    before,
                    answers.write_short turn s.next_write bytes count e
                        (λ same. ground (arith, other, same)),
                  )
          ]
          | inr (reason, e) ↦
              rw e (told, behind, before, answers.write_failed turn s.next_write bytes reason e)
        ])

    read_answered-Proceeds :
        (turn : ℕ) (offset l : ℕ) (others : Assoc ℕ ℕ) (s : Scheduler B)
        → IsRunning total options Good s
        → Takes s.pending (some ((offset, l), others))
        → Proceeds (turns_left total options s) (
            read_answered total options env offset l
              (env.read_chunk turn offset l)
              (record s { pending = others }))
    unfolding read_answered answered
    read_answered-Proceeds turn offset l others s v taken =
        let here : held total options s offset ≡ some l = ground (arith, taken.0) in
        let fit = v.fits offset l here in
        let told : Tells total 0 s.progress s.transferred = rw v.counted v.events in
        let behind : s.transferred ≤ offset = omega (arith, v.counted, fit) in
        let before : offset < total = omega (arith, fit, v.read_le) in
        let inside : offset + l ≤ total = omega (arith, fit, v.read_le) in
        elim (Answer-cases (env.read_chunk turn offset l)) [
          | inl (bytes, e) ↦ elim (Bool-cases (length bytes == l)) [
            | inl whole ↦
                let same : length bytes ≡ l = (==_iff (length bytes) l).0 whole in
                rw (e, whole)
                  (answered-IsRunning total options Good offset bytes others s v
                    (subst (λ n. Takes s.pending (some ((offset, n), others))) (sym same) taken)
                    (answers.read_good turn offset l bytes inside e same))
            | inr other ↦
                rw (e, other)
                  (
                    told,
                    behind,
                    before,
                    answers.read_short turn offset l bytes inside e
                        (λ same. ground (arith, other, same)),
                  )
          ]
          | inr (reason, e) ↦
              rw e (told, behind, before, answers.read_failed turn offset l reason inside e)
        ]

    -- Nothing is pending and the chunk that is due is not there: nothing is held.
    nothing_held :
        (s : Scheduler B)
        → IsRunning total options Good s
        → s.pending ≡ []
        → get s.next_write s.ready ≡ none
        → s.next_write ≡ s.next_read
    unfolding get
    nothing_held s v idle missing =
        let due : held total options s s.next_write ≡ none = rw idle (rw missing refl) in
        Chain-none due v.chain

    taken_none :
        (s : Scheduler B)
        → IsRunning total options Good s
        → (turn : ℕ) → take_at (env.completes turn) s.pending ≡ none
        → s.pending ≡ []
    taken_none s v turn idle =
        subst (Takes s.pending) idle (take_at-Takes (env.completes turn) s.pending v.distinct)

    drained-Proceeds :
        (s : Scheduler B)
        → IsRunning total options Good s
        → has_room total options s ≡ false
        → 0 < options.concurrency
        → s.pending ≡ []
        → get s.next_write s.ready ≡ none
        → Proceeds (turns_left total options s) (elim s.ready [
          | [] ↦ returned s (done (report s))
          | _ ∷ _ ↦ returned s (failed invalid_state)
        ])
    unfolding get
    drained-Proceeds s v full able idle missing =
        let reached : s.next_write ≡ s.next_read = nothing_held s v idle missing in
        list_rule (Proceeds (turns_left total options s)) s.ready
          (λ none_left.
            let whole : s.next_write ≡ total =
              ground (arith, reached, v.read_le, able, full, ap length idle, ap length none_left) in
            (
              v.counted ∙ whole,
              v.numbered,
              subst (λ n. Tells total 0 s.progress n) whole v.events,
              subst (λ n. Writes Good 0 s.written n) whole v.calls,
            ))
          (λ (o, bytes) rest left.
            let here : get o s.ready ≡ some bytes = rw left (ground arith) in
            let nothing : get o s.pending ≡ none = rw idle refl in
            let kept : held total options s o ≡ some (length bytes) =
              ground (arith, here, nothing) in
            absurd (omega (arith, reached, v.fits o (length bytes) kept)))

    pub proceed-Proceeds :
        (turn : ℕ) (s : Scheduler B)
        → IsRunning total options Good s
        → has_room total options s ≡ false
        → 0 < options.concurrency
        → Proceeds (turns_left total options s) (proceed total options env turn s)
    unfolding proceed await_read
    proceed-Proceeds turn s v full able = elim (Option-cases (get s.next_write s.ready)) [
      | inr (bytes, due) ↦ rw (Proceeds, due) (write_ready-Proceeds turn bytes s v due)
      | inl missing ↦ elim (Option-cases (take_at (env.completes turn) s.pending)) [
        | inl idle ↦
            rw (Proceeds, missing, idle)
              (drained-Proceeds s v full able (taken_none s v turn idle) missing)
        | inr (((offset, l), others), found) ↦
            rw (Proceeds, missing, found)
              (read_answered-Proceeds turn offset l others s v (
                subst (Takes s.pending) found
                  (take_at-Takes (env.completes turn) s.pending v.distinct)))
      ]
    ]
