-- ===== src/Transfer/Invariant.antt =====
-- crates/smb/src/domain/transfer.rs: what holds between two turns of the loop of `run_transfer`,
-- and that it holds when reads are issued.
use smb_rs.Prelude.{
  if_same, if_apart, if_above, ℕ, zero, suc, ◌+◌, ◌-◌, ◌*◌, ◌≤◌, ◌<◌, ◌≡◌, refl, ◌∙◌, min, true,
  false, Option, none, some, List, ◌∷◌, arith, length, get, IsDistinct, nat_eq, ==_iff, ◌==◌, inl,
  inr, Bool-cases, Option-cases, subst, if◌then◌else◌,
}
use smb_rs.Transfer.{TransferOptions, Scheduler}
use smb_rs.Transfer.Events.{Tells, Writes}
use smb_rs.Transfer.Schedule.{has_room, issue_one, issue, start}
use smb_rs.Transfer.Chunks.{
  held_in, held_in-none, Chain, Chain-le, Chain-agree, Chain-extend, ended,
}

module _ {B : Type 0} (total : ℕ) (options : TransferOptions) where
  abbrev pub held : Scheduler B → ℕ → Option ℕ
  held s = held_in s.pending s.ready

  -- A chunk lies between what is written and what is read.
  abbrev pub Fits : Scheduler B → (offset chunk_length : ℕ) → Type 0
  Fits s offset chunk_length =
      (s.next_write ≤ offset)
      × (0 < chunk_length)
      × (offset + chunk_length ≤ s.next_read)
      × (chunk_length ≤ options.chunk_size)

  -- An upper bound on the turns that are left.
  abbrev pub turns_left : Scheduler B → ℕ
  turns_left s = 2 * (total - s.next_read) + 2 * length s.pending + length s.ready

  pub record IsRunning (Good : ℕ → List B → Type 0) (s : Scheduler B) : Type 0 where
    pub bounded : length s.pending + length s.ready ≤ options.concurrency
    pub read_le : s.next_read ≤ total
    pub counted : s.transferred ≡ s.next_write
    pub numbered : s.chunks ≡ length s.progress
    pub distinct : IsDistinct s.pending
    pub apart : (o l : ℕ) → get o s.pending ≡ some l → get o s.ready ≡ none
    pub fits : (o l : ℕ) → held s o ≡ some l → Fits s o l
    pub chain : Chain (held s) s.next_read s.next_write
    pub good : (o : ℕ) (bytes : List B) → get o s.ready ≡ some bytes → Good o bytes
    pub events : Tells total 0 s.progress s.next_write
    pub calls : Writes Good 0 s.written s.next_write

  pub start-IsRunning : (Good : ℕ → List B → Type 0) → IsRunning Good start
  unfolding get
  start-IsRunning Good = record {
    bounded = omega arith;
    read_le = omega arith;
    counted = refl;
    numbered = refl;
    distinct = tt;
    apart = λ o l h. refl;
    fits = λ o l h. absurd (ground arith);
    chain = ended 0 refl;
    good = λ o bytes h. absurd (ground arith);
    events = refl;
    calls = refl;
  }

  module _ (Good : ℕ → List B → Type 0) (positive : 0 < options.chunk_size) where
    -- Nothing is held from the next offset to be read on.
    unheld : (s : Scheduler B) → IsRunning Good s → (o : ℕ) → s.next_read ≤ o → held s o ≡ none
    unheld s v o h = elim (Option-cases (held s o)) [
      | inl missing ↦ missing
      | inr (l, here) ↦ absurd (omega (arith, v.fits o l here))
    ]

    -- A chunk of some size is issued.
    pushed : (size : ℕ) → Scheduler B → Scheduler B
    pushed size s = record s {
      pending = (s.next_read, size) ∷ s.pending;
      next_read = s.next_read + size;
    }

    held-pushed :
        (size : ℕ) (s : Scheduler B) (o : ℕ)
        → held (pushed size s) o ≡ (if s.next_read == o then some size else held s o)
    unfolding pushed get
    held-pushed size s o = ground arith

    module _ (size : ℕ) (some_bytes : 0 < size) (small : size ≤ options.chunk_size) where
      pushed-Fits :
          (s : Scheduler B)
          → IsRunning Good s
          → (o l : ℕ) → held (pushed size s) o ≡ some l
          → Fits (pushed size s) o l
      unfolding pushed
      pushed-Fits s v o l h = elim (Bool-cases (s.next_read == o)) [
        | inl same ↦
            let e : size ≡ l = ground (arith, held-pushed size s o) in
            let at : s.next_read ≡ o = (==_iff s.next_read o).0 same in
            omega (arith, e, at, Chain-le v.chain)
        | inr other ↦
            let old : held s o ≡ some l = ground (arith, held-pushed size s o) in
            omega (arith, v.fits o l old)
      ]

      pushed-apart :
          (s : Scheduler B)
          → IsRunning Good s
          → (o l : ℕ) → get o (pushed size s).pending ≡ some l
          → get o s.ready ≡ none
      unfolding pushed get
      pushed-apart s v o l h = elim (Bool-cases (s.next_read == o)) [
        | inl same ↦
            let at : s.next_read ≡ o = (==_iff s.next_read o).0 same in
            subst (λ n. get n s.ready ≡ none) at
              (held_in-none s.pending s.ready s.next_read (unheld s v s.next_read (omega arith))).1
        | inr other ↦ v.apart o l (ground (arith, h))
      ]

      pushed-Chain :
          (s : Scheduler B)
          → IsRunning Good s
          → Chain (held (pushed size s)) (s.next_read + size) s.next_write
      pushed-Chain s v =
          Chain-extend size (held-pushed size s s.next_read ∙ if_same s.next_read _ _) some_bytes
            (λ o above.
              held-pushed size s o
              ∙ (if_apart s.next_read o _ _ above ∙ unheld s v o (omega arith)))
            (Chain-agree (λ o lo hi. held-pushed size s o ∙ if_above s.next_read o _ _ hi) v.chain)

      pushed-IsRunning :
          (s : Scheduler B)
          → IsRunning Good s
          → length s.pending + length s.ready < options.concurrency
          → s.next_read + size ≤ total
          → IsRunning Good (pushed size s) × (turns_left (pushed size s) ≤ turns_left s)
      unfolding pushed
      pushed-IsRunning s v room within = (
        record {
          bounded = omega (arith, room);
          read_le = within;
          counted = v.counted;
          numbered = v.numbered;
          distinct = (
            (held_in-none s.pending s.ready s.next_read (unheld s v s.next_read (omega arith))).0,
            v.distinct,
          );
          apart = pushed-apart s v;
          fits = pushed-Fits s v;
          chain = pushed-Chain s v;
          good = v.good;
          events = v.events;
          calls = v.calls;
        },
        omega (arith, some_bytes, within),
      )

    issue_one-IsRunning :
        (s : Scheduler B)
        → has_room total options s ≡ true
        → IsRunning Good s
        → IsRunning Good (issue_one total options s)
          × (turns_left (issue_one total options s) ≤ turns_left s)
    unfolding issue_one pushed
    issue_one-IsRunning s room v =
        pushed-IsRunning (min (total - s.next_read) options.chunk_size) (ground arith)
          (ground arith) s v (ground arith) (ground (arith, v.read_le))

    pub issue-IsRunning :
        (fuel : ℕ) (s : Scheduler B)
        → IsRunning Good s
        → IsRunning Good (issue total options fuel s)
          × (turns_left (issue total options fuel s) ≤ turns_left s)
    unfolding issue
    issue-IsRunning zero s v = (v, omega arith)
    issue-IsRunning (suc fuel) s v = elim (Bool-cases (has_room total options s)) [
      | inl room ↦
          let (v', less) = issue_one-IsRunning s room v in
          let (v'', less') = issue-IsRunning fuel (issue_one total options s) v' in
          rw room (v'', omega (arith, less, less'))
      | inr full ↦ rw full (v, omega arith)
    ]

  -- The inner loop ends by its test.
  pub issue_ends :
      (fuel : ℕ) (s : Scheduler B)
      → options.concurrency ≤ fuel + length s.pending
      → has_room total options (issue total options fuel s) ≡ false
  unfolding issue
  issue_ends zero s h = ground arith
  issue_ends (suc fuel) s h = elim (Bool-cases (has_room total options s)) [
    | inl room ↦
        rw room (issue_ends fuel (issue_one total options s) (unfold issue_one in omega (arith, h)))
    | inr full ↦ rw full full
  ]
