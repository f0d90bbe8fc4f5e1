-- ===== src/Objects/Waiting.antt =====
-- The recovery queue of crates/smb/src/runtime/object_state.rs over a history of calls: who waits,
-- and who has been answered.
use smb_rs.Prelude.{ℕ, Option, none, some, List, [], ◌∷◌, ◌++◌, map, Result, ok}
use smb_rs.Clock.{MonotonicTime}
use smb_rs.Objects.Data.{
  ObjectToken, ObjectEffect, ObjectRegistry, RecoveryQueue, RecoveryWait, RecoveryWaitOutcome,
  ready, cancelled, timed_out, ancestor_failed,
}
use smb_rs.Objects.Queue.{
  enqueue, cancel, advance_time, release_ready, publish_replacement, release_dependency, fail_all,
  drain_ancestor,
}

abbrev pub settled : RecoveryWaitOutcome → ℕ
settled (ready id) = id
settled (cancelled id) = id
settled (timed_out id) = id
settled (ancestor_failed id) = id

abbrev pub wait_ids : List RecoveryWait → List ℕ
wait_ids = map (λ w. w.id)

-- A call of the queue.
pub data Call : Type 0 where
  enqueues : ObjectToken → Option MonotonicTime → Call
  cancels : ℕ → Call
  advances : MonotonicTime → Call
  releases_ready : ObjectRegistry → Call
  replaces : ObjectEffect → Call
  releases : ObjectToken → Call
  fails : Call
  drains : ObjectRegistry → ObjectToken → Call

-- The queue after a call, the id that it gave out, and the outcomes that it returned.
pub record After : Type 0 where
  pub queue : RecoveryQueue
  pub given : List ℕ
  pub outcomes : List RecoveryWaitOutcome

abbrev pub given_id {ℓ} : {E : Type ℓ} → Result E ℕ → List ℕ
given_id (ok id) = id ∷ []
given_id _ = []

abbrev pub as_list {ℓ} : {A : Type ℓ} → Option A → List A
as_list none = []
as_list (some a) = a ∷ []

abbrev pub answers : RecoveryQueue × List RecoveryWaitOutcome → After
answers x = record { queue = x.0; given = []; outcomes = x.1 }

unfoldable pub call : RecoveryQueue → Call → After
call q (enqueues dependency deadline) =
    let x = enqueue q dependency deadline in
    record { queue = x.0; given = given_id x.1; outcomes = [] }
call q (cancels id) =
    let x = cancel q id in record { queue = x.0; given = []; outcomes = as_list x.1 }
call q (advances now) = answers (advance_time q now)
call q (releases_ready registry) = answers (release_ready q registry)
call q (replaces effect) = record {
  queue = publish_replacement q effect;
  given = [];
  outcomes = [];
}
call q (releases dependency) = answers (release_dependency q dependency)
call q fails = answers (fail_all q)
call q (drains registry ancestor) = answers (drain_ancestor q registry ancestor)

unfoldable pub run : RecoveryQueue → List Call → After
run q [] = record { queue = q; given = []; outcomes = [] }
run q (c ∷ cs) =
    let a = call q c in
    let rest = run a.queue cs in
    record {
      queue = rest.queue;
      given = a.given ++ rest.given;
      outcomes = a.outcomes ++ rest.outcomes;
    }
