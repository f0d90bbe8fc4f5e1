-- ===== src/Driver/Attempts.antt =====
-- crates/smb/src/runtime/recovery_driver.rs: `recover` and its loop over the attempts.
-- What happens while the loop waits is the environment's: the callers' and the closer's steps between
-- two locks, the clock, and the answer of the bootstrap. A runtime stands as its connection's token.
use smb_rs.Prelude.{
  ℕ, zero, suc, ◌⊎◌, inl, inr, Bool, true, false, Option, none, some, List, [], ◌∷◌, ◌++◌,
  if◌then◌else◌, ◌==◌, not, Result, ok, err, stuck,
}
use smb_rs.Clock.{MonotonicTime, Duration}
use smb_rs.Reducer.{GenerationId, checked_next}
use smb_rs.Objects.Data.{ObjectToken}
use smb_rs.Objects.Queue
use smb_rs.Recovery.{
  RecoveryPolicy, RecoveryState, connected, RecoveryEvent, transport_lost, wake, attempt_succeeded,
  attempt_failed, close, RecoveryEffect, schedule_attempt, start_attempt, publish_generation,
  recovery_failed, reduce,
}
use smb_rs.Driver.{
  RecoveryError, not_recoverable, attempts_exhausted, stale_generation, generation_exhausted,
  mismatched_generation, RecoveryAdmissions, Replies, admit, begin_recovery, finish_recovery,
  fail_waiters, remove_wait,
}

pub record RecoveryDriver (Channel : Type 0) : Type 0 where
  pub policy : RecoveryPolicy
  pub coordinator : RecoveryState
  pub admissions : RecoveryAdmissions Channel
  pub closed_token : Bool
  -- The publications that have run, and the replies that were sent, the oldest first.
  pub published : List ObjectToken
  pub replies : Replies Channel

-- `RecoveryDriver::new`
unfoldable pub new : {Channel : Type 0} → ObjectToken → RecoveryPolicy → RecoveryDriver Channel
new connection policy = record {
  policy = policy;
  coordinator = connected connection.generation;
  admissions = record {
    active_connection = connection;
    recovering = false;
    queue = Queue.new policy.max_waiting_operations;
    completions = [];
  };
  closed_token = false;
  published = [];
  replies = [];
}

-- What ends the wait for a bootstrap: a candidate, `RuntimeError::Closed`, or another error, the
-- deadline of the attempt included.
pub data Bootstrap : Type 0 where
  candidate : ObjectToken → Bootstrap
  connection_gone bootstrap_failed : Bootstrap

-- The steps of other tasks: those of `resolve_dependency`, and the three of `close`.
pub data Interference (Channel : Type 0) : Type 0 where
  admits :
      (now : MonotonicTime) (dependency : ObjectToken)
      → Option MonotonicTime
      → Channel
      → Interference Channel
  removes_wait : (id : ℕ) → Interference Channel
  cancels_token reduces_close fails_waiters : Interference Channel

-- What other tasks do before the recovery is begun, during the wait of a turn, between it and the next
-- lock, and before the last lock; the clock after a wait; the bootstrap's answer; and the jitter of a
-- failed attempt.
pub record Environment (Channel : Type 0) : Type 0 where
  pub starting : List (Interference Channel)
  pub during : (turn : ℕ) → List (Interference Channel)
  pub after : (turn : ℕ) → List (Interference Channel)
  pub settling : List (Interference Channel)
  pub now : (turn : ℕ) → MonotonicTime
  pub bootstrap : (turn : ℕ) → Bootstrap
  pub jitter : (attempt : ℕ) → Duration

-- What a turn of `drive_attempts` leads to: the next effect, or the end of the loop.
abbrev pub Turn : Type 0 → Type 0
Turn Channel = RecoveryDriver Channel × (Option RecoveryEffect ⊎ Result RecoveryError ObjectToken)

module _ {Channel : Type 0} where
  unfoldable pub reduce_coordinator :
      RecoveryEvent → RecoveryDriver Channel → RecoveryDriver Channel × Option RecoveryEffect
  reduce_coordinator event d =
      let (coordinator, effect) = reduce d.policy d.coordinator event in
      (record d { coordinator = coordinator }, effect)

  -- An operation on the admissions, with the replies that it sends.
  unfoldable pub with_replies :
      RecoveryAdmissions Channel × Replies Channel → RecoveryDriver Channel → RecoveryDriver Channel
  with_replies (a, sent) d = record d { admissions = a; replies = d.replies ++ sent }

  unfoldable pub interfere : Interference Channel → RecoveryDriver Channel → RecoveryDriver Channel
  interfere (admits now dependency deadline reply) d = record d {
    admissions = (admit d.policy.total_timeout now dependency deadline reply d.admissions).0;
  }
  interfere (removes_wait id) d = record d { admissions = remove_wait id d.admissions }
  interfere cancels_token d = record d { closed_token = true }
  interfere reduces_close d = (reduce_coordinator close d).0
  interfere fails_waiters d = with_replies (fail_waiters d.admissions) d

  unfoldable pub interfere_all :
      List (Interference Channel) → RecoveryDriver Channel → RecoveryDriver Channel
  interfere_all [] d = d
  interfere_all (step ∷ steps) d = interfere_all steps (interfere step d)

  -- The end of an attempt, by the coordinator's answer to its success.
  unfoldable pub publish_candidate :
      List (Interference Channel)
      → GenerationId
      → ObjectToken
      → RecoveryDriver Channel
      → Option RecoveryEffect
      → Turn Channel
  publish_candidate settling next token d (some (publish_generation generation)) =
      let shown = interfere_all settling (record d { published = d.published ++ token ∷ [] }) in
      if generation == next
      then (with_replies (finish_recovery token shown.admissions) shown, inr (ok token))
      else (d, inr (err RecoveryError.was_closed))
  publish_candidate settling next token d _ = (d, inr (err RecoveryError.was_closed))

  -- A candidate of the generation that is due is published, if the coordinator is still connecting.
  unfoldable pub take_candidate :
      List (Interference Channel)
      → GenerationId
      → ObjectToken
      → RecoveryDriver Channel
      → Turn Channel
  take_candidate settling next token d =
      let (d', effect) = reduce_coordinator (attempt_succeeded next) d in
      publish_candidate settling next token d' effect

  -- The answer of a bootstrap, once the wait for it has ended.
  unfoldable pub bootstrapped :
      List (Interference Channel)
      → GenerationId
      → (attempt : ℕ) (now : MonotonicTime) (jitter : Duration) → Bootstrap
      → RecoveryDriver Channel
      → Turn Channel
  bootstrapped settling next attempt now jitter (candidate token) d =
      if token.generation == next
      then take_candidate settling next token d
      else (d, inr (err mismatched_generation))
  bootstrapped settling next attempt now jitter connection_gone d =
      (d, inr (err RecoveryError.was_closed))
  bootstrapped settling next attempt now jitter bootstrap_failed d =
      let (d', effect) = reduce_coordinator (attempt_failed now jitter) d in (d', inl effect)

  -- The loop goes on with the effect of a turn, or ends with its result.
  unfoldable pub go_on :
      (Option RecoveryEffect
        → RecoveryDriver Channel
        → RecoveryDriver Channel × Result RecoveryError ObjectToken)
      → Turn Channel
      → RecoveryDriver Channel × Result RecoveryError ObjectToken
  go_on loop (d, inl effect) = loop effect d
  go_on loop (d, inr result) = (d, result)

  module _ (env : Environment Channel) (next : GenerationId) where
    -- One turn of the loop. The wait ends at once if the close token is set.
    unfoldable pub drive_one :
        (turn : ℕ) → Option RecoveryEffect → RecoveryDriver Channel → Turn Channel
    drive_one turn none d = (d, inr (err RecoveryError.was_closed))
    drive_one turn (some RecoveryEffect.was_closed) d = (d, inr (err RecoveryError.was_closed))
    drive_one turn (some recovery_failed) d = (d, inr (err attempts_exhausted))
    drive_one turn (some (publish_generation generation)) d =
        (d, inr (err RecoveryError.was_closed))
    drive_one turn (some (schedule_attempt attempt wake_at)) d =
        let waited = interfere_all (env.during turn) d in
        let (d', effect) =
          reduce_coordinator (wake (env.now turn)) (interfere_all (env.after turn) waited) in
        if waited.closed_token
        then (waited, inr (err RecoveryError.was_closed))
        else (d', inl effect)
    drive_one turn (some (start_attempt attempt deadline)) d =
        let waited = interfere_all (env.during turn) d in
        if waited.closed_token
        then (waited, inr (err RecoveryError.was_closed))
        else bootstrapped env.settling next attempt (env.now turn) (env.jitter attempt)
            (env.bootstrap turn) (interfere_all (env.after turn) waited)

    -- `drive_attempts`, on fuel.
    unfoldable pub drive_attempts :
        (fuel turn : ℕ)
        → Option RecoveryEffect
        → RecoveryDriver Channel
        → RecoveryDriver Channel × Result RecoveryError ObjectToken
    drive_attempts zero turn effect d = (d, stuck)
    drive_attempts (suc fuel) turn effect d =
        go_on (drive_attempts fuel (suc turn)) (drive_one turn effect d)

-- The end of `recover`: any other end than a replacement releases those who wait.
unfoldable pub release_on_error :
    {Channel : Type 0}
    → List (Interference Channel)
    → RecoveryDriver Channel × Result RecoveryError ObjectToken
    → RecoveryDriver Channel × Result RecoveryError ObjectToken
release_on_error settling (d, ok token) = (d, ok token)
release_on_error settling (d, err e) =
    let settled = interfere_all settling d in
    (with_replies (fail_waiters settled.admissions) settled, err e)
release_on_error settling (d, stuck) = (d, stuck)

-- The connected state that `recover` asks for.
abbrev pub is_connected : GenerationId → RecoveryState → Bool
is_connected generation (connected active) = active == generation
is_connected generation _ = false

-- `recover` on the exit of a generation, by a transport's failure or not.
unfoldable pub recover :
    {Channel : Type 0} (env : Environment Channel) (fuel : ℕ) (generation : GenerationId)
    (by_transport : Bool) (lost_at : MonotonicTime)
    → RecoveryDriver Channel
    → RecoveryDriver Channel × Result RecoveryError ObjectToken
recover env fuel generation by_transport lost_at d =
    if not by_transport
    then (d, err not_recoverable)
    else if d.closed_token
    then (d, err RecoveryError.was_closed)
    else elim (checked_next generation) [
      | none ↦ (d, err generation_exhausted)
      | some next ↦
          if not (is_connected generation d.coordinator)
          then (d, err stale_generation)
          else let (d', effect) = reduce_coordinator (transport_lost generation lost_at) d in
            let started = interfere_all env.starting d' in
            let (admissions, refused) = begin_recovery generation started.admissions in
            let begun = record started { admissions = admissions } in
            elim refused [
              | some e ↦ (begun, err e)
              | none ↦ release_on_error env.settling (drive_attempts env next fuel 0 effect begun)
            ]
    ]
