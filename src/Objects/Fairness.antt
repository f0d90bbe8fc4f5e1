-- ===== src/Objects/Fairness.antt =====
-- The recovery queue of crates/smb/src/runtime/object_state.rs: who waits and who was answered.
use mathlib.Core.List.{Perm, perm_middle, append-nil, append_assoc, map-append}
use mathlib.Core.List.Perm
use smb_rs.Prelude.{
  ℕ, ◌≡◌, refl, ap, inl, inr, Bool, Option, some, List, [], ◌∷◌, ◌++◌, map, arith, Bool-cases,
  Option-cases, length, leb, Result, if_rule, option_rule, ◌==◌,
}
use smb_rs.Clock.{MonotonicTime}
use smb_rs.Objects.Data.{
  ObjectToken, revoked_token, replacement_published, RecoveryQueue, RecoveryWait,
  RecoveryQueueError, RecoveryWaitOutcome, ready, timed_out, ancestor_failed,
}
use smb_rs.Objects.Queue.{
  enqueue, retain, release, remove_first, cancel, advance_time, release_ready, redirect,
  publish_replacement, release_dependency, fail_all, drain_ancestor,
}
use smb_rs.Objects.Waiting.{
  settled, wait_ids, Call, enqueues, cancels, advances, releases_ready, replaces, releases, fails,
  drains, After, given_id, answers, call, run,
}

-- Nobody is lost or made up: who waits after, with who was answered, are who waited before, with
-- who was let in.
abbrev pub IsFair : RecoveryQueue → After → Type 0
IsFair q a = Perm (wait_ids a.queue.waits ++ map settled a.outcomes) (wait_ids q.waits ++ a.given)

retain-Perm :
    (drops : RecoveryWait → Bool) (outcome : ℕ → RecoveryWaitOutcome) (ws : List RecoveryWait)
    → ((id : ℕ) → settled (outcome id) ≡ id)
    → Perm
        (wait_ids (retain drops outcome ws).0 ++ map settled (retain drops outcome ws).1)
        (wait_ids ws)
unfolding retain
retain-Perm drops outcome [] same = Perm.refl []
retain-Perm drops outcome (w ∷ ws) same =
    let ih = retain-Perm drops outcome ws same in
    elim (Bool-cases (drops w)) [
      | inl gone ↦ rw (gone, same w.id) (Perm.trans (perm_middle _ _) (Perm.cons w.id ih))
      | inr kept ↦ rw kept (Perm.cons w.id ih)
    ]

release-IsFair :
    (drops : RecoveryWait → Bool) (outcome : ℕ → RecoveryWaitOutcome) (q : RecoveryQueue)
    → ((id : ℕ) → settled (outcome id) ≡ id)
    → IsFair q (answers (release drops outcome q))
unfolding release
release-IsFair drops outcome q same =
    rw (append-nil (wait_ids q.waits)) (retain-Perm drops outcome q.waits same)

append-perm_comm : (xs ys : List ℕ) → Perm (xs ++ ys) (ys ++ xs)
append-perm_comm [] ys = rw (append-nil ys) (Perm.refl ys)
append-perm_comm (x ∷ xs) ys =
    Perm.trans (Perm.cons x (append-perm_comm xs ys)) (Perm.symm (perm_middle ys xs))

remove_first-Perm :
    (id : ℕ) (ws : List RecoveryWait) {kept : List RecoveryWait}
    → remove_first id ws ≡ some kept
    → Perm (wait_ids kept ++ id ∷ []) (wait_ids ws)
unfolding remove_first
remove_first-Perm id [] h = absurd (ground arith)
remove_first-Perm id (w ∷ ws) {kept} h = elim (Bool-cases (w.id == id)) [
  | inl same ↦
      let now : kept ≡ ws = ground arith in
      let at : w.id ≡ id = ground arith in rw (now, at) (append-perm_comm _ (id ∷ []))
  | inr other ↦ elim (Option-cases (remove_first id ws)) [
    | inl none_there ↦ absurd (ground arith)
    | inr (rest, e) ↦
        let now : kept ≡ w ∷ rest = ground arith in
        rw now (Perm.cons w.id (remove_first-Perm id ws e))
  ]
]

cancel-IsFair : (q : RecoveryQueue) (id : ℕ) → IsFair q (call q (cancels id))
unfolding call cancel
cancel-IsFair q id = elim (Option-cases (remove_first id q.waits)) [
  | inl e ↦ rw (e, cancel, append-nil) (Perm.refl _)
  | inr (kept, e) ↦ rw (e, cancel, append-nil (wait_ids q.waits)) (remove_first-Perm id q.waits e)
]

enqueue-IsFair :
    (q : RecoveryQueue) (dependency : ObjectToken) (deadline : Option MonotonicTime)
    → IsFair q (call q (enqueues dependency deadline))
unfolding call enqueue
enqueue-IsFair q dependency deadline =
    let P = λ (x : RecoveryQueue × Result RecoveryQueueError ℕ).
      Perm (wait_ids x.0.waits ++ []) (wait_ids q.waits ++ given_id x.1) in
    if_rule P (leb q.capacity (length q.waits)) (λ _. Perm.refl _)
      λ _.
        option_rule P q.next_id (λ _. Perm.refl _)
          λ id e.
            rw
              (
                append-nil (wait_ids (q.waits ++ _ ∷ [])),
                map-append (λ (w : RecoveryWait). w.id) q.waits,
              )
              (Perm.refl _)

redirect-ids :
    (previous replacement : ObjectToken) (ws : List RecoveryWait)
    → wait_ids (map (redirect previous replacement) ws) ≡ wait_ids ws
redirect-ids previous replacement [] = refl
redirect-ids previous replacement (w ∷ ws) = ap (◌∷◌ w.id) (redirect-ids previous replacement ws)

fail_all-ids :
    (ws : List RecoveryWait) → map settled (map (λ w. ancestor_failed w.id) ws) ≡ wait_ids ws
fail_all-ids [] = refl
fail_all-ids (w ∷ ws) = ap (◌∷◌ w.id) (fail_all-ids ws)

call-IsFair : (q : RecoveryQueue) (c : Call) → IsFair q (call q c)
unfolding call advance_time release_ready release_dependency drain_ancestor fail_all
    publish_replacement
call-IsFair q (enqueues dependency deadline) = enqueue-IsFair q dependency deadline
call-IsFair q (cancels id) = cancel-IsFair q id
call-IsFair q (advances now) = release-IsFair _ timed_out q (λ id. refl)
call-IsFair q (releases_ready registry) = release-IsFair _ ready q (λ id. refl)
call-IsFair q (replaces (revoked_token token)) = Perm.refl _
call-IsFair q (replaces (replacement_published previous replacement)) =
    rw (redirect-ids previous replacement q.waits) (Perm.refl _)
call-IsFair q (releases dependency) = release-IsFair _ ready q (λ id. refl)
call-IsFair q fails = rw (fail_all-ids q.waits, append-nil (wait_ids q.waits)) (Perm.refl _)
call-IsFair q (drains registry ancestor) = release-IsFair _ ancestor_failed q (λ id. refl)

exchange :
    (last mid first o1 o2 g1 g2 : List ℕ) {o : List ℕ}
    → o ≡ o1 ++ o2
    → Perm (mid ++ o1) (first ++ g1)
    → Perm (last ++ o2) (mid ++ g2)
    → Perm (last ++ o) (first ++ (g1 ++ g2))
exchange last mid first o1 o2 g1 g2 e p q = rw e (
    Perm.trans (Perm.append_left last (append-perm_comm o1 o2)) (
      Perm.trans (rw (append_assoc last o2 o1) at (Perm.append_right o1 q)) (
        rw (append_assoc mid g2 o1) (
          Perm.trans (Perm.append_left mid (append-perm_comm g2 o1))
            (rw (append_assoc mid o1 g2, append_assoc first g1 g2) at (Perm.append_right g2 p))))))

-- Over any history of calls, the ids still waiting and the ids answered are, with multiplicity,
-- those that waited at first and those given out since.
pub run-IsFair : (q : RecoveryQueue) (cs : List Call) → IsFair q (run q cs)
unfolding run
run-IsFair q [] = Perm.refl _
run-IsFair q (c ∷ cs) =
    let a = call q c in
    let rest = run a.queue cs in
    exchange (wait_ids rest.queue.waits) (wait_ids a.queue.waits) (wait_ids q.waits)
      (map settled a.outcomes) (map settled rest.outcomes) a.given rest.given
      (map-append settled a.outcomes rest.outcomes) (call-IsFair q c) (run-IsFair a.queue cs)
