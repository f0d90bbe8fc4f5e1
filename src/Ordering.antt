-- ===== src/Ordering.antt =====
-- crates/smb/src/runtime/preparation_order.rs: the queue that lets prepared requests go in the order
-- in which they were admitted. An assertion that fails is `none`; a `HashSet` is a list of keys.
pub mod Release
use smb_rs.Prelude.{
  Bool, true, false, ◌||◌, Option, none, some, List, [], ◌∷◌, ◌++◌, if◌then◌else◌, Eq, Assoc, get,
  insert, remove,
}

pub record OrderedCompletionQueue (K V : Type 0) : Type 0 where
  pub order : List K
  pub reserved : List K
  pub completed : Assoc K V

module _ {K : Type 0} ⦃e : Eq K⦄ where
  unfoldable pub contains : K → List K → Bool
  contains k [] = false
  contains k (j ∷ js) = e.beq j k || contains k js

  unfoldable pub without : K → List K → List K
  without k [] = []
  without k (j ∷ js) = let rest = without k js in if e.beq j k then rest else j ∷ rest

unfoldable pub empty : {K V : Type 0} → OrderedCompletionQueue K V
empty = record { order = []; reserved = []; completed = [] }

module _ {K V : Type 0} ⦃e : Eq K⦄ where
  unfoldable pub reserve : OrderedCompletionQueue K V → K → Option (OrderedCompletionQueue K V)
  reserve q key =
      if contains key q.reserved
      then none
      else some (record q { order = q.order ++ (key ∷ []); reserved = key ∷ q.reserved })

  -- The `while let` of `complete`, over the order.
  unfoldable pub release : List K → List K → Assoc K V → OrderedCompletionQueue K V × List V
  release [] reserved completed =
      (record { order = []; reserved = reserved; completed = completed }, [])
  release (key ∷ keys) reserved completed =
      let rest = release keys (without key reserved) (remove key completed) in
      elim (get key completed) [
        | none ↦ (record { order = key ∷ keys; reserved = reserved; completed = completed }, [])
        | some value ↦ (rest.0, value ∷ rest.1)
      ]

  unfoldable pub complete :
      OrderedCompletionQueue K V → K → V → Option (OrderedCompletionQueue K V × List V)
  complete q key value =
      if contains key q.reserved
      then elim (get key q.completed) [
        | some old ↦ none
        | none ↦ some (release q.order q.reserved (insert key value q.completed))
      ]
      else none
