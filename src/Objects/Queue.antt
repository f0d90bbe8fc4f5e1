-- ===== src/Objects/Queue.antt =====
-- crates/smb/src/runtime/object_state.rs, `impl RecoveryQueue`.
use smb_rs.Prelude.{
  ℕ, Bool, true, false, Option, none, some, List, [], ◌∷◌, ◌++◌, if◌then◌else◌, ◌==◌, leb, ◌||◌,
  checked_add, u64_max, length, Result, ok, err, map,
}
use smb_rs.Clock.{MonotonicTime}
use smb_rs.Objects.Data.{
  ObjectToken, token_eq, ObjectEffect, revoked_token, replacement_published, ObjectRegistry,
  RecoveryQueue, RecoveryQueueError, full, RecoveryWaitOutcome, ready, cancelled, timed_out,
  ancestor_failed, RecoveryWait,
}
use smb_rs.Objects.Registry.{validate_active, is_descendant}

unfoldable pub new : ℕ → RecoveryQueue
new capacity = record { capacity = capacity; next_id = some 0; waits = [] }

unfoldable pub enqueue :
    RecoveryQueue → ObjectToken → Option MonotonicTime → RecoveryQueue × Result RecoveryQueueError ℕ
enqueue q dependency deadline =
    if leb q.capacity (length q.waits) then (q, err full) else elim q.next_id [
      | none ↦ (q, err RecoveryQueueError.id_exhausted)
      | some id ↦
          let wait : RecoveryWait = record {
            id = id;
            dependency = dependency;
            deadline = deadline;
          } in
          (record q { next_id = checked_add u64_max id 1; waits = q.waits ++ wait ∷ [] }, ok id)
    ]

-- `retain` with a closure that drops a wait and notes its outcome.
unfoldable pub retain :
    (RecoveryWait → Bool)
    → (ℕ → RecoveryWaitOutcome)
    → List RecoveryWait
    → List RecoveryWait × List RecoveryWaitOutcome
retain drops outcome [] = ([], [])
retain drops outcome (w ∷ ws) =
    let (kept, outcomes) = retain drops outcome ws in
    if drops w then (kept, outcome w.id ∷ outcomes) else (w ∷ kept, outcomes)

unfoldable pub release :
    (RecoveryWait → Bool)
    → (ℕ → RecoveryWaitOutcome)
    → RecoveryQueue
    → RecoveryQueue × List RecoveryWaitOutcome
release drops outcome q =
    let (kept, outcomes) = retain drops outcome q.waits in (record q { waits = kept }, outcomes)

-- The first wait with the id, by `position` and `remove`.
unfoldable pub remove_first : ℕ → List RecoveryWait → Option (List RecoveryWait)
remove_first id [] = none
remove_first id (w ∷ ws) =
    let rest = remove_first id ws in
    if w.id == id then some ws else elim rest [ none ↦ none | some kept ↦ some (w ∷ kept) ]

unfoldable pub cancel : RecoveryQueue → ℕ → RecoveryQueue × Option RecoveryWaitOutcome
unfolding remove_first
cancel q id = elim (remove_first id q.waits) [
  | none ↦ (q, none)
  | some kept ↦ (record q { waits = kept }, some (cancelled id))
]

abbrev pub is_expired : MonotonicTime → RecoveryWait → Bool
is_expired now w = elim w.deadline [ none ↦ false | some deadline ↦ leb deadline now ]

unfoldable pub advance_time :
    RecoveryQueue → MonotonicTime → RecoveryQueue × List RecoveryWaitOutcome
advance_time q now = release (is_expired now) timed_out q

abbrev pub is_ok {ℓ κ} : {E : Type ℓ} {A : Type κ} → Result E A → Bool
is_ok (ok a) = true
is_ok _ = false

unfoldable pub release_ready :
    RecoveryQueue → ObjectRegistry → RecoveryQueue × List RecoveryWaitOutcome
release_ready q registry = release (λ w. is_ok (validate_active registry w.dependency)) ready q

abbrev pub redirect : (previous replacement : ObjectToken) → RecoveryWait → RecoveryWait
redirect previous replacement w = record w {
  dependency = if token_eq w.dependency previous then replacement else w.dependency;
}

unfoldable pub publish_replacement : RecoveryQueue → ObjectEffect → RecoveryQueue
publish_replacement q (revoked_token token) = q
publish_replacement q (replacement_published previous replacement) = record q {
  waits = map (redirect previous replacement) q.waits;
}

unfoldable pub release_dependency :
    RecoveryQueue → ObjectToken → RecoveryQueue × List RecoveryWaitOutcome
release_dependency q dependency = release (λ w. token_eq w.dependency dependency) ready q

unfoldable pub fail_all : RecoveryQueue → RecoveryQueue × List RecoveryWaitOutcome
fail_all q = (record q { waits = [] }, map (λ w. ancestor_failed w.id) q.waits)

unfoldable pub drain_ancestor :
    RecoveryQueue → ObjectRegistry → ObjectToken → RecoveryQueue × List RecoveryWaitOutcome
drain_ancestor q registry ancestor =
    release (λ w. token_eq w.dependency ancestor || is_descendant registry w.dependency ancestor)
      ancestor_failed q
