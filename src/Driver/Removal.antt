-- ===== src/Driver/Removal.antt =====
-- crates/smb/src/runtime/recovery_driver.rs: a wait that is removed, in the queue and among the reply
-- channels.
use smb_rs.Prelude.{
  get-remove, if_rule, ℕ, ◌<◌, ◌≡◌, refl, sym, ◌∙◌, subst, true, false, Option, none, some, List,
  [], ◌∷◌, if◌then◌else◌, ◌==◌, ==_iff, Assoc, keys, get, remove, IsDistinct, nat_eq, All, arith,
  Bool-cases, Option-cases, inl, inr,
}
use smb_rs.Objects.Data.{ObjectToken, RecoveryQueue, RecoveryWait}
use smb_rs.Objects.Queue.{remove_first, cancel}
use smb_rs.Driver.Waiting.{wait_ids, AreUsed, AreOn, remove_absent}

-- The waits that a cancellation leaves.
pub left_of : ℕ → List RecoveryWait → List RecoveryWait
left_of id ws = elim (remove_first id ws) [ none ↦ ws | some kept ↦ kept ]

pub left_of_nil : (id : ℕ) → left_of id [] ≡ []
unfolding left_of remove_first
left_of_nil id = refl

left_of-cons :
    (id : ℕ) (w : RecoveryWait) (ws : List RecoveryWait)
    → left_of id (w ∷ ws) ≡ (if w.id == id then ws else w ∷ left_of id ws)
unfolding left_of remove_first
left_of-cons id w ws = elim (Option-cases (remove_first id ws)) [
  | inl absent ↦ ground (arith, absent)
  | inr (kept, found) ↦ ground (arith, found)
]

pub AreOn-left_of :
    (id : ℕ) (token : ObjectToken) (ws : List RecoveryWait)
    → AreOn token ws
    → AreOn token (left_of id ws)
unfolding left_of remove_first
AreOn-left_of id token [] h = tt
AreOn-left_of id token (w ∷ ws) (h, rest) =
    rw (left_of-cons id w ws)
      (if_rule (AreOn token) (w.id == id) (λ e. rest) (λ e. (h, AreOn-left_of id token ws rest)))

pub cancel-left_of :
    (q : RecoveryQueue) (id : ℕ) → (cancel q id).0 ≡ record q { waits = left_of id q.waits }
unfolding cancel left_of
cancel-left_of q id = elim (Option-cases (remove_first id q.waits)) [
  | inl absent ↦ rw (cancel, left_of, absent) refl
  | inr (kept, found) ↦ rw (cancel, left_of, found) refl
]

cons-head : {A : Type 0} {x y : A} {xs ys : List A} → x ∷ xs ≡ y ∷ ys → x ≡ y
cons-head h = cc

cons-tail : {A : Type 0} {x y : A} {xs ys : List A} → x ∷ xs ≡ y ∷ ys → xs ≡ ys
cons-tail h = cc

cons-eq : {A : Type 0} {x y : A} {xs ys : List A} → x ≡ y → xs ≡ ys → x ∷ xs ≡ y ∷ ys
cons-eq h k = cc

module _ {Channel : Type 0} where
  pub keys-remove :
      (id : ℕ) (m : Assoc ℕ Channel) (ws : List RecoveryWait)
      → keys m ≡ wait_ids ws
      → IsDistinct m
      → keys (remove id m) ≡ wait_ids (left_of id ws)
  unfolding remove
  keys-remove id [] [] e d = unfold left_of remove_first in refl
  keys-remove id [] (w ∷ ws) e d = cc
  keys-remove id ((k, v) ∷ m) [] e d = cc
  keys-remove id ((k, v) ∷ m) (w ∷ ws) e (fresh, d) =
      let same_head : k ≡ w.id = cons-head e in
      let same_tail : keys m ≡ wait_ids ws = cons-tail e in
      elim (Bool-cases (k == id)) [
        | inl here ↦
            let at_id : k ≡ id = (==_iff k id).0 here in
            let absent : remove id m ≡ m =
              remove_absent id m (subst (λ n. get n m ≡ none) at_id fresh) in
            let hit : (w.id == id) ≡ true = (==_iff w.id id).1 (sym same_head ∙ at_id) in
            rw (left_of-cons id w ws) (rw (here, hit, absent) same_tail)
        | inr other ↦
            let miss : (w.id == id) ≡ false = rw (← same_head) other in
            rw (left_of-cons id w ws)
              (rw (other, miss) (cons-eq same_head (keys-remove id m ws same_tail d)))
      ]

  All-keys-remove :
      (bound id : ℕ) (m : Assoc ℕ Channel)
      → All (λ k. k < bound) (keys m)
      → All (λ k. k < bound) (keys (remove id m))
  unfolding remove
  All-keys-remove bound id [] h = tt
  All-keys-remove bound id ((k, v) ∷ m) (h, rest) =
      ground (arith, h, All-keys-remove bound id m rest)

  pub AreUsed-remove :
      (next : Option ℕ) (id : ℕ) (m : Assoc ℕ Channel)
      → AreUsed next (keys m)
      → AreUsed next (keys (remove id m))
  AreUsed-remove none id m h = tt
  AreUsed-remove (some next) id m h = All-keys-remove next id m h

  pub remove-IsDistinct : (id : ℕ) (m : Assoc ℕ Channel) → IsDistinct m → IsDistinct (remove id m)
  unfolding remove
  remove-IsDistinct id [] d = tt
  remove-IsDistinct id ((k, v) ∷ m) (fresh, d) =
      if_rule IsDistinct (k == id) (λ e. remove-IsDistinct id m d)
        (λ e. (ground (arith, fresh, get-remove id k m), remove-IsDistinct id m d))
