-- ===== src/Transfer/Runs.antt =====
-- crates/smb/src/domain/transfer.rs: the loop of `run_transfer` ends, and keeps what holds between
-- its turns.
use smb_rs.Prelude.{
  ◌⊎◌, ℕ, zero, suc, ◌≤◌, ◌<◌, ◌≡◌, refl, sym, ◌∙◌, List, arith, nat_eq, inl, inr, subst, u32_max,
}
use smb_rs.Transfer.{
  TransferOptions, Scheduler, Answer, TransferError, TransferReport, Step, next, returned,
  Environment,
}
use smb_rs.Transfer.Schedule.{issue, proceed, one_turn, turns}
use smb_rs.Transfer.Invariant.{turns_left, IsRunning, issue-IsRunning, issue_ends}
use smb_rs.Transfer.Turns.{Answers, Ended, Proceeds, Proceeds-mono, proceed-Proceeds}

Step-cases :
    {E B : Type 0} (step : Step E B)
    → ((s : Scheduler B) × (step ≡ next s))
      ⊎ ((found : Scheduler B × Answer (TransferError E) TransferReport) × (step
            ≡ returned found.0 found.1))
Step-cases (next s) = inl (s, refl)
Step-cases (returned s answer) = inr ((s, answer), refl)

next-injective :
    {E B : Type 0} {s s' : Scheduler B} → ◌≡◌ {A = Step E B} (next s) (next s') → s ≡ s'
next-injective h = cc

module _ {E B : Type 0} (total : ℕ) (options : TransferOptions) (Good : ℕ → List B → Type 0)
    (MayFail : Type 0) (env : Environment E B) (answers : Answers total Good MayFail env)
    (small : options.chunk_size ≤ u32_max) where
  turns-next :
      (fuel turn : ℕ) (s s' : Scheduler B)
      → one_turn total options env turn s ≡ next s'
      → turns total options env (suc fuel) turn s ≡ turns total options env fuel (suc turn) s'
  unfolding turns
  turns-next fuel turn s s' e = rw (turns, e) refl

  turns-returned :
      (fuel turn : ℕ) (s s' : Scheduler B) (answer : Answer (TransferError E) TransferReport)
      → one_turn total options env turn s ≡ returned s' answer
      → turns total options env (suc fuel) turn s ≡ returned s' answer
  unfolding turns
  turns-returned fuel turn s s' answer e = rw (turns, e) refl

  module _ (able : 0 < options.concurrency) (positive : 0 < options.chunk_size) where
    one_turn-Proceeds :
        (turn : ℕ) (s : Scheduler B)
        → IsRunning total options Good s
        → Proceeds total options Good MayFail
            (turns_left total options s)
            (one_turn total options env turn s)
    unfolding one_turn
    one_turn-Proceeds turn s v =
        let (v', less) = issue-IsRunning total options Good positive options.concurrency s v in
        let s' = issue total options options.concurrency s in
        Proceeds-mono total options Good MayFail (turns_left total options s')
          (turns_left total options s) less (proceed total options env turn s')
          (proceed-Proceeds total options Good MayFail env answers small turn s' v'
            (issue_ends total options options.concurrency s (omega arith)) able)

    -- With the fuel above the turns that are left, the loop ends the transfer.
    pub turns-Ended :
        (fuel turn : ℕ) (s : Scheduler B)
        → IsRunning total options Good s
        → turns_left total options s < fuel
        → (s' : Scheduler B) × (answer : Answer (TransferError E) TransferReport) × (turns total
              options env fuel turn s
            ≡ returned s' answer)
          × Ended total Good MayFail s' answer
    unfolding turns
    turns-Ended zero turn s v enough = absurd (omega arith)
    turns-Ended (suc fuel) turn s v enough = elim (Step-cases (one_turn total options env turn s)) [
      | inl (s', e) ↦
          let (v', less) =
            subst (Proceeds total options Good MayFail (turns_left total options s)) e
              (one_turn-Proceeds turn s v) in
          let (last, answer, ended, how) =
            turns-Ended fuel (suc turn) s' v' (omega (arith, less, enough)) in
          (last, answer, turns-next fuel turn s s' e ∙ ended, how)
      | inr ((s', answer), e) ↦ (
        s',
        answer,
        turns-returned fuel turn s s' answer e,
        subst (Proceeds total options Good MayFail (turns_left total options s)) e
            (one_turn-Proceeds turn s v),
      )
    ]

  -- Between two turns, and once the reads of a turn are issued, the concurrency is not exceeded.
  pub turns-IsRunning :
      (fuel turn : ℕ) (s s' : Scheduler B)
      → 0 < options.concurrency
      → 0 < options.chunk_size
      → IsRunning total options Good s
      → turns total options env fuel turn s ≡ next s'
      → IsRunning total options Good s'
  unfolding turns
  turns-IsRunning zero turn s s' able positive v h =
      subst (IsRunning total options Good) (next-injective h) v
  turns-IsRunning (suc fuel) turn s s' able positive v h =
      elim (Step-cases (one_turn total options env turn s)) [
        | inl (s'', e) ↦
            let (v', less) =
              subst (Proceeds total options Good MayFail (turns_left total options s)) e
                (one_turn-Proceeds able positive turn s v) in
            turns-IsRunning fuel (suc turn) s'' s' able positive v'
              (sym (turns-next fuel turn s s'' e) ∙ h)
        | inr ((s'', answer), e) ↦ cc (turns-returned fuel turn s s'' answer e)
      ]
