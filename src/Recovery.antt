-- ===== src/Recovery.antt =====
-- crates/smb/src/runtime/recovery.rs: when a lost connection is tried again, and when it is given
-- up. `reduce` returns the new state beside the effect.
pub mod Budget
pub mod Timing
use smb_rs.Prelude.{
  ℕ, suc, ◌+◌, ◌-◌, ◌*◌, ◌^◌, min, Bool, true, false, Option, none, some, List, [], ◌∷◌, leb, ◌==◌,
  ◌||◌, if◌then◌else◌,
}
use smb_rs.Clock.{MonotonicTime, Duration, saturating_add}
use smb_rs.Reducer.{GenerationId}

pub record RecoveryPolicy : Type 0 where
  pub max_attempts : ℕ
  pub attempt_timeout : Duration
  pub total_timeout : Duration
  pub initial_backoff : Duration
  pub maximum_backoff : Duration
  pub maximum_jitter : Duration
  pub max_waiting_operations : ℕ

abbrev pub disabled : RecoveryPolicy
disabled = record {
  max_attempts = 0;
  attempt_timeout = 0;
  total_timeout = 0;
  initial_backoff = 0;
  maximum_backoff = 0;
  maximum_jitter = 0;
  max_waiting_operations = 0;
}

-- `Duration::MAX` in nanoseconds.
abbrev pub duration_max : Duration
duration_max = 18446744073709551615999999999

unfoldable pub backoff : RecoveryPolicy → ℕ → Duration
backoff p failed_attempt =
    if failed_attempt == 0
    then 0
    else let shift = min (failed_attempt - 1) 31 in
      min (min (p.initial_backoff * 2 ^ shift) duration_max) p.maximum_backoff

pub data RecoveryState : Type 0 where
  connected : GenerationId → RecoveryState
  waiting : (attempt : ℕ) (wake_at total_deadline : MonotonicTime) → RecoveryState
  connecting : (attempt : ℕ) (attempt_deadline total_deadline : MonotonicTime) → RecoveryState
  failed closed : RecoveryState

pub data RecoveryEvent : Type 0 where
  transport_lost : GenerationId → (now : MonotonicTime) → RecoveryEvent
  wake : (now : MonotonicTime) → RecoveryEvent
  attempt_succeeded : GenerationId → RecoveryEvent
  attempt_failed : (now : MonotonicTime) (jitter : Duration) → RecoveryEvent
  close : RecoveryEvent

pub data RecoveryEffect : Type 0 where
  schedule_attempt : (attempt : ℕ) (at : MonotonicTime) → RecoveryEffect
  start_attempt : (attempt : ℕ) (deadline : MonotonicTime) → RecoveryEffect
  publish_generation : GenerationId → RecoveryEffect
  recovery_failed was_closed : RecoveryEffect

abbrev pub Reply : Type 0
Reply = RecoveryState × Option RecoveryEffect

schedule : RecoveryPolicy → ℕ → MonotonicTime → MonotonicTime → Reply
schedule p attempt now total_deadline =
    let at = min (saturating_add now (backoff p (attempt - 1))) total_deadline in
    (waiting attempt at total_deadline, some (schedule_attempt attempt at))

abbrev pub fail : Reply
fail = (failed, some recovery_failed)

on_lost : RecoveryPolicy → GenerationId → GenerationId → MonotonicTime → Reply
on_lost p active generation now =
    if active == generation
    then if p.max_attempts == 0 then fail else schedule p 1 now (saturating_add now p.total_timeout)
    else (connected active, none)

on_wake : RecoveryPolicy → ℕ → (wake_at total_deadline now : MonotonicTime) → Reply
on_wake p attempt wake_at total_deadline now =
    let deadline = min (saturating_add now p.attempt_timeout) total_deadline in
    if leb wake_at now
    then if leb total_deadline now
      then fail
      else (connecting attempt deadline total_deadline, some (start_attempt attempt deadline))
    else (waiting attempt wake_at total_deadline, none)

on_failed : RecoveryPolicy → ℕ → (total_deadline now : MonotonicTime) → Duration → Reply
on_failed p attempt total_deadline now jitter =
    if leb p.max_attempts attempt || leb total_deadline now
    then fail
    else schedule p (attempt + 1) (saturating_add now (min jitter p.maximum_jitter)) total_deadline

unfoldable pub reduce : RecoveryPolicy → RecoveryState → RecoveryEvent → Reply
unfolding on_lost on_wake on_failed schedule
reduce p closed e = (closed, none)
reduce p failed e = (failed, none)
reduce p (connected active) close = (closed, some was_closed)
reduce p (waiting attempt wake_at total) close = (closed, some was_closed)
reduce p (connecting attempt deadline total) close = (closed, some was_closed)
reduce p (connected active) (transport_lost generation now) = on_lost p active generation now
reduce p (waiting attempt wake_at total) (wake now) = on_wake p attempt wake_at total now
reduce p (connecting attempt deadline total) (attempt_succeeded generation) =
    (connected generation, some (publish_generation generation))
reduce p (connecting attempt deadline total) (attempt_failed now jitter) =
    on_failed p attempt total now jitter
reduce p state e = (state, none)

-- A history of events, with the effects in order.
unfoldable pub run :
    RecoveryPolicy
    → RecoveryState
    → List RecoveryEvent
    → RecoveryState × List (Option RecoveryEffect)
run p s [] = (s, [])
run p s (e ∷ es) =
    let (s', effect) = reduce p s e in let (last, effects) = run p s' es in (last, effect ∷ effects)
