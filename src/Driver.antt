-- ===== src/Driver.antt =====
-- crates/smb/src/runtime/recovery_driver.rs: the callers that wait for a connection to be recovered.
-- A reply channel is a value of a type of channels, and an operation returns the replies that it
-- sends, the earliest first.
pub mod Attempts
pub mod Waiting
pub mod Removal
pub mod Consistency
pub mod Steps
pub mod Loop
pub mod Outcome
use smb_rs.Prelude.{
  ℕ, Bool, true, false, Option, none, some, List, [], ◌∷◌, ◌++◌, if◌then◌else◌, ◌==◌, not, ◌||◌,
  Assoc, get, insert, remove, Result, ok, err, stuck, nat_eq,
}
use smb_rs.Clock.{MonotonicTime, Duration, saturating_add}
use smb_rs.Reducer.{GenerationId}
use smb_rs.Objects.Data.{
  ObjectToken, token_eq, replacement_published, RecoveryQueue, RecoveryQueueError, full,
  id_exhausted, RecoveryWaitOutcome, ready, cancelled, timed_out, ancestor_failed,
}
use smb_rs.Objects.Queue.{enqueue, cancel, publish_replacement, release_dependency, fail_all}

pub data RecoveryError : Type 0 where
  not_recoverable was_closed attempts_exhausted stale_generation generation_exhausted :
      RecoveryError
  mismatched_generation queue_full dependency_not_connection : RecoveryError
  wait_timed_out wait_cancelled wait_failed : RecoveryError

pub record RecoveryAdmissions (Channel : Type 0) : Type 0 where
  pub active_connection : ObjectToken
  pub recovering : Bool
  pub queue : RecoveryQueue
  pub completions : Assoc ℕ Channel

abbrev pub Replies : Type 0 → Type 0
Replies Channel = List (Channel × Result RecoveryError ObjectToken)

-- What the locked half of `resolve_dependency` decides.
pub data Admission : Type 0 where
  resolved : Result RecoveryError ObjectToken → Admission
  waits : (id : ℕ) (deadline : MonotonicTime) → Admission

abbrev pub outcome_id : RecoveryWaitOutcome → ℕ
outcome_id (ready id) = id
outcome_id (cancelled id) = id
outcome_id (timed_out id) = id
outcome_id (ancestor_failed id) = id

abbrev pub wait_result : RecoveryWaitOutcome → Option ObjectToken → Result RecoveryError ObjectToken
wait_result (ready id) (some replacement) = ok replacement
wait_result _ _ = err wait_failed

abbrev pub queue_error : RecoveryQueueError → RecoveryError
queue_error RecoveryQueueError.full = queue_full
queue_error RecoveryQueueError.id_exhausted = wait_failed

-- `deadline.unwrap_or_else(|| now + default_wait)`
abbrev pub wait_deadline : Duration → MonotonicTime → Option MonotonicTime → MonotonicTime
wait_deadline default_wait now none = saturating_add now default_wait
wait_deadline default_wait now (some deadline) = deadline

module _ {Channel : Type 0} where
  -- The part of `resolve_dependency` under the lock, with the channel that it opens.
  unfoldable pub admit :
      (default_wait : Duration) (now : MonotonicTime) (dependency : ObjectToken)
      → Option MonotonicTime
      → Channel
      → RecoveryAdmissions Channel
      → RecoveryAdmissions Channel × Admission
  admit default_wait now dependency deadline reply a =
      let until = wait_deadline default_wait now deadline in
      if not a.recovering
      then (a, resolved (ok dependency))
      else if not (token_eq dependency a.active_connection)
      then (a, resolved (err dependency_not_connection))
      else let (queue, answer) = enqueue a.queue dependency (some until) in
        elim answer [
          | ok id ↦ (
            record a { queue = queue; completions = insert id reply a.completions },
            waits id until,
          )
          | err e ↦ (record a { queue = queue }, resolved (err (queue_error e)))
          | stuck ↦ (a, resolved stuck)
        ]

  unfoldable pub begin_recovery :
      GenerationId → RecoveryAdmissions Channel → RecoveryAdmissions Channel × Option RecoveryError
  begin_recovery generation a =
      if not (a.active_connection.generation == generation) || a.recovering
      then (a, some stale_generation)
      else (record a { recovering = true }, none)

  -- The loop of `complete_waits` over the completions.
  unfoldable pub complete_waits :
      List RecoveryWaitOutcome
      → Option ObjectToken
      → Assoc ℕ Channel
      → Assoc ℕ Channel × Replies Channel
  complete_waits [] replacement completions = (completions, [])
  complete_waits (outcome ∷ outcomes) replacement completions =
      let (last, replies) =
        complete_waits outcomes replacement (remove (outcome_id outcome) completions) in
      elim (get (outcome_id outcome) completions) [
        | none ↦ (last, replies)
        | some reply ↦ (last, (reply, wait_result outcome replacement) ∷ replies)
      ]

  unfoldable pub finish_recovery :
      ObjectToken → RecoveryAdmissions Channel → RecoveryAdmissions Channel × Replies Channel
  finish_recovery replacement a =
      let renamed =
        publish_replacement a.queue (replacement_published a.active_connection replacement) in
      let (queue, outcomes) = release_dependency renamed replacement in
      let (completions, replies) = complete_waits outcomes (some replacement) a.completions in
      (
        record {
          active_connection = replacement;
          recovering = false;
          queue = queue;
          completions = completions;
        },
        replies,
      )

  unfoldable pub fail_waiters :
      RecoveryAdmissions Channel → RecoveryAdmissions Channel × Replies Channel
  fail_waiters a =
      let (queue, outcomes) = fail_all a.queue in
      let (completions, replies) = complete_waits outcomes none a.completions in
      (record a { recovering = false; queue = queue; completions = completions }, replies)

  unfoldable pub remove_wait : ℕ → RecoveryAdmissions Channel → RecoveryAdmissions Channel
  remove_wait id a = record a {
    queue = (cancel a.queue id).0;
    completions = remove id a.completions;
  }
