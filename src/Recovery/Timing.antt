-- ===== src/Recovery/Timing.antt =====
-- When crates/smb/src/runtime/recovery.rs tries: backoffs, and what is due when.
use smb_rs.Prelude.{
  ℕ, zero, suc, ◌+◌, ◌*◌, ◌^◌, ◌≤◌, ◌<◌, ◌≡◌, ◌≢◌, ◌⊎◌, none, refl, min, Option, some, List, [],
  ◌∷◌, arith,
}
use native.Mathlib.Nat.{pow-suc}
use smb_rs.Clock.{MonotonicTime, Duration, saturating_add}
use smb_rs.Reducer.{GenerationId}
use smb_rs.Recovery.{
  RecoveryPolicy, RecoveryState, connected, waiting, connecting, RecoveryEvent, transport_lost,
  wake, attempt_failed, attempt_succeeded, close, RecoveryEffect, schedule_attempt, start_attempt,
  recovery_failed, was_closed, publish_generation, backoff, duration_max,
}

-- What an observer of the events and effects knows: whether a connection is up, an attempt is
-- scheduled or under way, or all is over; when the outage ends at the latest, which attempt was
-- scheduled last, and for when.
pub data Phase : Type 0 where
  up : GenerationId → Phase
  scheduled trying over : Phase

pub record Timetable : Type 0 where
  pub phase : Phase
  pub deadline : MonotonicTime
  pub attempt : ℕ
  pub due : MonotonicTime

abbrev pub before_loss : GenerationId → Timetable
before_loss generation = record { phase = up generation; deadline = 0; attempt = 0; due = 0 }

abbrev pub phase_after : Phase → Option RecoveryEffect → Phase
phase_after phase none = phase
phase_after phase (some (schedule_attempt attempt at)) = scheduled
phase_after phase (some (start_attempt attempt until)) = trying
phase_after phase (some (publish_generation generation)) = up generation
phase_after phase (some recovery_failed) = over
phase_after phase (some was_closed) = over

-- The deadline of an outage is fixed once, by the event that begins it.
abbrev pub deadline_after :
    RecoveryPolicy → MonotonicTime → RecoveryEvent → Option RecoveryEffect → MonotonicTime
deadline_after p deadline (transport_lost generation now) (some (schedule_attempt attempt at)) =
    saturating_add now p.total_timeout
deadline_after p deadline e effect = deadline

abbrev pub attempt_after : ℕ → Option RecoveryEffect → ℕ
attempt_after last (some (schedule_attempt attempt at)) = attempt
attempt_after last effect = last

abbrev pub due_after : MonotonicTime → Option RecoveryEffect → MonotonicTime
due_after due (some (schedule_attempt attempt at)) = at
due_after due effect = due

abbrev pub observed : RecoveryPolicy → Timetable → RecoveryEvent → Option RecoveryEffect → Timetable
observed p t e effect = record {
  phase = phase_after t.phase effect;
  deadline = deadline_after p t.deadline e effect;
  attempt = attempt_after t.attempt effect;
  due = due_after t.due effect;
}

-- An event that asks for nothing now.
abbrev pub MayIgnore : Phase → (due : MonotonicTime) → RecoveryEvent → Type 0
MayIgnore over due e = Unit {0}
MayIgnore phase due close = ⊥
MayIgnore (up active) due (transport_lost generation now) = active ≢ generation
MayIgnore scheduled due (wake now) = now < due
MayIgnore trying due (attempt_succeeded generation) = ⊥
MayIgnore trying due (attempt_failed now jitter) = ⊥
MayIgnore phase due e = Unit {0}

-- An effect in answer to an event, where the outage ends at `deadline`.
abbrev pub IsPunctual :
    RecoveryPolicy
    → (deadline : MonotonicTime) → Timetable
    → RecoveryEvent
    → Option RecoveryEffect
    → Type 0
IsPunctual p deadline t e none = MayIgnore t.phase t.due e
IsPunctual p deadline t (transport_lost generation now) (some (schedule_attempt attempt at)) =
    (t.phase ≡ up generation) × (attempt ≡ 1) × (at ≤ now) × (at ≤ deadline)
IsPunctual p deadline t (attempt_failed now jitter) (some (schedule_attempt attempt at)) =
    (t.phase ≡ trying)
    × (attempt ≡ t.attempt + 1)
    × (attempt ≤ p.max_attempts)
    × (now < deadline)
    × (at ≤ deadline)
    × (min (saturating_add now (backoff p t.attempt)) deadline ≤ at)
    × (at ≤ saturating_add (saturating_add now p.maximum_jitter) (backoff p t.attempt))
IsPunctual p deadline t (wake now) (some (start_attempt attempt until)) =
    (t.phase ≡ scheduled)
    × (attempt ≡ t.attempt)
    × (t.due ≤ now)
    × (now < deadline)
    × (until ≤ deadline)
    × (until ≤ saturating_add now p.attempt_timeout)
IsPunctual p deadline t (attempt_succeeded generation) (some (publish_generation published)) =
    (t.phase ≡ trying) × (published ≡ generation)
IsPunctual p deadline t (transport_lost generation now) (some recovery_failed) =
    (t.phase ≡ up generation) × (p.max_attempts ≡ 0)
IsPunctual p deadline t (attempt_failed now jitter) (some recovery_failed) =
    (t.phase ≡ trying) × ((p.max_attempts ≤ t.attempt) ⊎ (deadline ≤ now))
IsPunctual p deadline t (wake now) (some recovery_failed) = (t.phase ≡ scheduled) × (deadline ≤ now)
IsPunctual p deadline t close (some was_closed) = t.phase ≢ over
IsPunctual p deadline t e effect = ⊥

-- Every effect of a history is punctual.
abbrev pub ArePunctual :
    RecoveryPolicy → Timetable → List RecoveryEvent → List (Option RecoveryEffect) → Type 0
ArePunctual p t [] [] = Unit {0}
ArePunctual p t (e ∷ es) (effect ∷ effects) =
    let t' = observed p t e effect in
    IsPunctual p t'.deadline t e effect × ArePunctual p t' es effects
ArePunctual p t _ _ = ⊥

-- The state agrees with what an observer knows.
abbrev Agrees : Timetable → RecoveryState → Type 0
Agrees t (connected active) = t.phase ≡ up active
Agrees t (waiting attempt wake_at total) =
    (t.phase ≡ scheduled) × (attempt ≡ t.attempt) × (wake_at ≡ t.due) × (total ≡ t.deadline)
Agrees t (connecting attempt until total) =
    (t.phase ≡ trying) × (attempt ≡ t.attempt) × (total ≡ t.deadline)
Agrees t _ = t.phase ≡ over

-- No wait before the first attempt; then the initial backoff, and twice the last one each time, as
-- far as the maximum.
pub doubled : RecoveryPolicy → ℕ → Duration
doubled p zero = 0
doubled p (suc zero) = min p.initial_backoff p.maximum_backoff
doubled p (suc (suc n)) = min (2 * doubled p (suc n)) p.maximum_backoff

doubled_lem :
    (p : RecoveryPolicy) (n : ℕ)
    → doubled p (suc n) ≡ min (p.initial_backoff * 2 ^ n) p.maximum_backoff
unfolding doubled
doubled_lem p zero = omega arith
doubled_lem p (suc n) =
    let power : p.initial_backoff * 2 ^ suc n ≡ 2 * (p.initial_backoff * 2 ^ n) =
      rw (pow-suc 2 n) (grind arith) in
    omega (arith, doubled_lem p n, power)

-- The backoff doubles with each failed attempt as far as the policy's maximum, if that is a
-- `Duration`, and stays as it is after the thirty-second.
pub backoff-doubled :
    (p : RecoveryPolicy) (n : ℕ)
    → p.maximum_backoff ≤ duration_max
    → backoff p n ≡ doubled p (min n 32)
unfolding backoff doubled
backoff-doubled p zero h = refl
backoff-doubled p (suc n) h =
    let capped : min (suc n) 32 ≡ suc (min n 31) = omega arith in
    let last = doubled_lem p (min n 31) in rw (capped, last) (ground arith)
