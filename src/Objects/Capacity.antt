-- ===== src/Objects/Capacity.antt =====
-- The recovery queue of crates/smb/src/runtime/object_state.rs: how many can wait.
use smb_rs.Prelude.{
  ℕ, suc, ◌≤◌, ◌≡◌, refl, ap, inl, inr, Bool, some, List, [], ◌∷◌, map, arith, Option-cases, length,
  length-append, leb, Result, if_rule, option_rule,
}
use smb_rs.Objects.Data.{
  revoked_token, replacement_published, RecoveryQueue, RecoveryWait, RecoveryQueueError,
  RecoveryWaitOutcome, ready, timed_out, ancestor_failed,
}
use smb_rs.Objects.Queue.{
  enqueue, retain, release, remove_first, cancel, advance_time, release_ready, redirect,
  publish_replacement, release_dependency, fail_all, drain_ancestor,
}
use smb_rs.Objects.Waiting.{
  Call, enqueues, cancels, advances, releases_ready, replaces, releases, fails, drains, call, run,
}

length-retain :
    (drops : RecoveryWait → Bool) (outcome : ℕ → RecoveryWaitOutcome) (ws : List RecoveryWait)
    → length (retain drops outcome ws).0 ≤ length ws
unfolding retain
length-retain drops outcome [] = omega arith
length-retain drops outcome (w ∷ ws) = ground (arith, length-retain drops outcome ws)

length-remove_first :
    (id : ℕ) (ws : List RecoveryWait) {kept : List RecoveryWait}
    → remove_first id ws ≡ some kept
    → length kept ≤ length ws
unfolding remove_first
length-remove_first id [] h = absurd (ground arith)
length-remove_first id (w ∷ ws) h = elim (Option-cases (remove_first id ws)) [
  | inl none_there ↦ ground arith
  | inr (rest, e) ↦ ground (arith, length-remove_first id ws e)
]

length-map :
    (f : RecoveryWait → RecoveryWait) (ws : List RecoveryWait) → length (map f ws) ≡ length ws
length-map f [] = refl
length-map f (w ∷ ws) = ap suc (length-map f ws)

abbrev pub IsBounded : RecoveryQueue → Type 0
IsBounded q = length q.waits ≤ q.capacity

call-IsBounded : (q : RecoveryQueue) (c : Call) → IsBounded q → IsBounded (call q c).queue
unfolding call enqueue cancel advance_time release_ready release_dependency drain_ancestor fail_all
    publish_replacement release
call-IsBounded q (enqueues dependency deadline) h =
    let P = λ (x : RecoveryQueue × Result RecoveryQueueError ℕ). IsBounded x.0 in
    if_rule P (leb q.capacity (length q.waits)) (λ _. h)
      λ room. option_rule P q.next_id (λ _. h) (λ id e. rw (length-append q.waits) (ground arith))
call-IsBounded q (cancels id) h = elim (Option-cases (remove_first id q.waits)) [
  | inl e ↦ ground arith
  | inr (kept, e) ↦ ground (arith, length-remove_first id q.waits e)
]
call-IsBounded q (replaces (revoked_token token)) h = h
call-IsBounded q (replaces (replacement_published previous replacement)) h =
    rw (length-map (redirect previous replacement) q.waits) h
call-IsBounded q (advances now) h = omega (arith, length-retain _ timed_out q.waits)
call-IsBounded q (releases_ready registry) h = omega (arith, length-retain _ ready q.waits)
call-IsBounded q (releases dependency) h = omega (arith, length-retain _ ready q.waits)
call-IsBounded q fails h = omega arith
call-IsBounded q (drains registry ancestor) h =
    omega (arith, length-retain _ ancestor_failed q.waits)

-- A queue within its capacity stays so over any history of calls.
pub run-IsBounded : (q : RecoveryQueue) (cs : List Call) → IsBounded q → IsBounded (run q cs).queue
unfolding run
run-IsBounded q [] h = h
run-IsBounded q (c ∷ cs) h = run-IsBounded (call q c).queue cs (call-IsBounded q c h)
