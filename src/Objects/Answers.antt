-- ===== src/Objects/Answers.antt =====
-- The recovery queue of crates/smb/src/runtime/object_state.rs: each wait is answered once.
use mathlib.Core.List.{Nodup, Mem, mem-cons, not-mem-nil, Nodup-cons, Nodup-nil}
use mathlib.Core.List.Perm
use mathlib.Core.Logic.Or
use mathlib.Core.HLevel.{⊥_prop}
use smb_rs.Prelude.{
  ℕ, ◌+◌, ◌≤◌, ◌<◌, ◌≡◌, refl, sym, subst, ◌⊎◌, inl, inr, Option, none, some, List, [], ◌∷◌, ◌++◌,
  if◌then◌else◌, map, arith, Bool-cases, Option-cases, length, leb, checked_add, u64_max,
}
use smb_rs.Objects.Data.{revoked_token, replacement_published, RecoveryQueue}
use smb_rs.Objects.Queue.{
  new, enqueue, release, cancel, advance_time, release_ready, publish_replacement,
  release_dependency, fail_all, drain_ancestor,
}
use smb_rs.Objects.Waiting.{
  settled, wait_ids, Call, enqueues, cancels, advances, releases_ready, replaces, releases, fails,
  drains, call, run,
}
use smb_rs.Objects.Fairness.{run-IsFair}

-- Ids given out from `n` on, in order.
abbrev Ascends : ℕ → List ℕ → Type 0
Ascends n [] = Unit {0}
Ascends n (i ∷ is) = (n ≤ i) × Ascends (i + 1) is

Ascends-le : (n m : ℕ) (is : List ℕ) → n ≤ m → Ascends m is → Ascends n is
Ascends-le n m [] h a = tt
Ascends-le n m (i ∷ is) h a = (omega arith, a.1)

not-mem-Ascends : (n i : ℕ) (is : List ℕ) → i < n → Ascends n is → ¬ (Mem i is)
not-mem-Ascends n i [] h a m = not-mem-nil m
not-mem-Ascends n i (j ∷ is) h a m =
    Or.elim ⊥_prop (mem-cons.0 m) (λ e. absurd (omega arith))
      (not-mem-Ascends (j + 1) i is (omega arith) a.1)

Ascends-Nodup : (n : ℕ) (is : List ℕ) → Ascends n is → Nodup is
Ascends-Nodup n [] a = Nodup-nil
Ascends-Nodup n (i ∷ is) a =
    Nodup-cons.1 (not-mem-Ascends (i + 1) i is (omega arith) a.1, Ascends-Nodup (i + 1) is a.1)

-- The ids that a history gives out ascend from the queue's next id; an exhausted queue gives none.
abbrev AscendsFrom : Option ℕ → List ℕ → Type 0
AscendsFrom none is = is ≡ []
AscendsFrom (some n) is = Ascends n is

-- A call gives out nothing, or the next id.
call_gives :
    (q : RecoveryQueue) (c : Call)
    → (((call q c).given ≡ []) × ((call q c).queue.next_id ≡ q.next_id))
      ⊎ ((id : ℕ) × ((call q c).given ≡ id ∷ [])
          × (q.next_id ≡ some id)
          × ((call q c).queue.next_id ≡ checked_add u64_max id 1))
unfolding call enqueue cancel advance_time release_ready release_dependency drain_ancestor fail_all
    publish_replacement release
call_gives q (enqueues dependency deadline) = elim (Bool-cases (leb q.capacity (length q.waits))) [
  | inl full_now ↦ inl (ground arith, ground arith)
  | inr room ↦ elim (Option-cases q.next_id) [
    | inl e ↦ inl (ground arith, ground arith)
    | inr (id, e) ↦ inr (id, ground arith, e, ground arith)
  ]
]
call_gives q (cancels id) = inl (refl, ground arith)
call_gives q (replaces (revoked_token token)) = inl (refl, refl)
call_gives q (replaces (replacement_published previous replacement)) = inl (refl, refl)
call_gives q (advances now) = inl (refl, refl)
call_gives q (releases_ready registry) = inl (refl, refl)
call_gives q (releases dependency) = inl (refl, refl)
call_gives q fails = inl (refl, refl)
call_gives q (drains registry ancestor) = inl (refl, refl)

AscendsFrom-next :
    (id : ℕ) (is : List ℕ) → AscendsFrom (checked_add u64_max id 1) is → Ascends (id + 1) is
AscendsFrom-next id is h = elim (Bool-cases (leb (id + 1) u64_max)) [
  | inl fits ↦ subst (λ b. AscendsFrom (if b then some (id + 1) else none) is) fits h
  | inr ends ↦
      let nothing : is ≡ [] =
        subst (λ b. AscendsFrom (if b then some (id + 1) else none) is) ends h in
      rw nothing tt
]

run-AscendsFrom : (q : RecoveryQueue) (cs : List Call) → AscendsFrom q.next_id (run q cs).given
unfolding run
run-AscendsFrom q [] = starts q.next_id
  where
    starts : (o : Option ℕ) → AscendsFrom o []
    starts none = refl
    starts (some n) = tt
run-AscendsFrom q (c ∷ cs) =
    let ih = run-AscendsFrom (call q c).queue cs in
    let given_later = (run (call q c).queue cs).given in
    elim (call_gives q c) [
      | inl (nothing, same) ↦ rw nothing (subst (λ o. AscendsFrom o given_later) same ih)
      | inr (id, given_is, was, now) ↦ rw given_is (
          subst (λ o. AscendsFrom o (id ∷ (run (call q c).queue cs).given)) (sym was)
            (
              omega arith,
              AscendsFrom-next id given_later (subst (λ o. AscendsFrom o given_later) now ih),
            ))
    ]

-- In any history of a new queue no wait is answered twice, nor answered while it still waits.
pub run-Nodup :
    (capacity : ℕ) (cs : List Call)
    → let a = run (new capacity) cs in Nodup (wait_ids a.queue.waits ++ map settled a.outcomes)
unfolding new
run-Nodup capacity cs =
    Perm.nodup (Perm.symm (run-IsFair (new capacity) cs))
      (Ascends-Nodup 0 _ (run-AscendsFrom (new capacity) cs))
