-- ===== src/Batch.antt =====
-- crates/smb/src/domain/batch.rs: commands that run one after the other, some only after others. What
-- an action does is a function of a world, which it may change; values are of one type.
pub mod Execution
use smb_rs.Prelude.{
  ℕ, zero, suc, Bool, true, false, not, ◌||◌, Option, none, some, List, [], ◌∷◌, ◌++◌,
  if◌then◌else◌, ◌==◌, leb, Result, ok, err, length, get_elem?,
}

-- What an action answers.
pub data Answer (E V : Type 0) : Type 0 where
  answered : V → Answer E V
  refused : E → Answer E V

-- The dependency is a batch's id and an index.
pub record Member (W E V : Type 0) : Type 0 where
  pub action : W → W × Answer E V
  pub dependency : Option (ℕ × ℕ)

pub record Batch (W E V : Type 0) : Type 0 where
  pub id : ℕ
  pub members : List (Member W E V)

pub record BatchRef : Type 0 where
  pub batch_id : ℕ
  pub index : ℕ

pub data MemberOutcome (E V : Type 0) : Type 0 where
  success : V → MemberOutcome E V
  failed : E → MemberOutcome E V
  dependency_failed : MemberOutcome E V

pub data BatchError : Type 0 where
  invalid_argument : BatchError

-- `matches!(outcomes.get(index), Some(MemberOutcome::Success(_)))`
abbrev pub is_success : {E V : Type 0} → Option (MemberOutcome E V) → Bool
is_success (some (success v)) = true
is_success _ = false

-- The dependency is not an earlier member of the same batch.
abbrev pub is_invalid : (id index : ℕ) → Option (ℕ × ℕ) → Bool
is_invalid id index none = false
is_invalid id index (some (batch_id, dependency)) = not (batch_id == id) || leb index dependency

abbrev pub is_blocked : {E V : Type 0} → List (MemberOutcome E V) → Option (ℕ × ℕ) → Bool
is_blocked outcomes none = false
is_blocked outcomes (some (batch_id, index)) = not (is_success (get_elem? outcomes index))

abbrev pub outcome_of : {E V : Type 0} → Answer E V → MemberOutcome E V
outcome_of (answered v) = success v
outcome_of (refused e) = failed e

module _ {W E V : Type 0} where
  unfoldable pub push : Batch W E V → Member W E V → Batch W E V × BatchRef
  push batch member = (
    record batch { members = batch.members ++ member ∷ [] },
    record { batch_id = batch.id; index = length batch.members },
  )

  unfoldable pub any_invalid : (id index : ℕ) → List (Member W E V) → Bool
  any_invalid id index [] = false
  any_invalid id index (m ∷ members) =
      is_invalid id index m.dependency || any_invalid id (suc index) members

  -- One turn of the loop.
  unfoldable pub run_member : List (MemberOutcome E V) → Member W E V → W → W × MemberOutcome E V
  run_member outcomes m w =
      if is_blocked outcomes m.dependency
      then (w, dependency_failed)
      else let (w', answer) = m.action w in (w', outcome_of answer)

  unfoldable pub run_members :
      List (Member W E V) → List (MemberOutcome E V) → W → W × List (MemberOutcome E V)
  run_members [] outcomes w = (w, outcomes)
  run_members (m ∷ members) outcomes w =
      let (w', outcome) = run_member outcomes m w in
      run_members members (outcomes ++ outcome ∷ []) w'

  unfoldable pub execute : Batch W E V → W → W × Result BatchError (List (MemberOutcome E V))
  execute batch w =
      if any_invalid batch.id 0 batch.members
      then (w, err invalid_argument)
      else let (w', outcomes) = run_members batch.members [] w in (w', ok outcomes)
