-- ===== src/Examples/Batches.antt =====
-- A batch whose first member fails, so that the second is left out, for the theorems on
-- crates/smb/src/domain/batch.rs. The world counts the actions that have run.
use smb_rs.Prelude.{ℕ, ◌+◌, ◌≡◌, ◌⊎◌, none, some, List, [], ◌∷◌, ok, err, length, refl}
use smb_rs.Batch.{
  Batch, MemberOutcome, success, failed, dependency_failed, invalid_argument, answered, refused,
  execute, any_invalid, run_members, run_member,
}
use smb_rs.Batch.Execution.{AllPrecede, HasInvalid, Settle, execute_lem}

abbrev batch : Batch ℕ ℕ ℕ
batch = record {
  id = 1;
  members =
      record { action = λ w. (w + 1, refused 5); dependency = none }
      ∷ record { action = λ w. (w + 1, answered 7); dependency = some (1, 0) }
      ∷ record { action = λ w. (w + 1, answered 9); dependency = none }
      ∷ [];
}

execute_lem_example :
    ((execute batch 0 ≡ (0, err invalid_argument)) × HasInvalid batch)
    ⊎ ((last : ℕ) × (outcomes : List (MemberOutcome ℕ ℕ)) × (execute batch 0 ≡ (last, ok outcomes))
        × (length outcomes ≡ 3)
        × AllPrecede 1 0 batch.members
        × Settle outcomes 0 batch.members 0 last)
execute_lem_example = execute_lem batch 0

-- Two of the three actions run.
execute_counts : execute batch 0 ≡ (2, ok (failed 5 ∷ dependency_failed ∷ success 9 ∷ []))
unfolding execute any_invalid run_members run_member
execute_counts = refl
