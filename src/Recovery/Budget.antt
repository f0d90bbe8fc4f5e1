-- ===== src/Recovery/Budget.antt =====
-- How often crates/smb/src/runtime/recovery.rs tries: the attempts of an outage are counted.
use smb_rs.Prelude.{ℕ, ◌+◌, ◌-◌, ◌*◌, ◌≤◌, ◌≡◌, refl, Option, some, List, [], ◌∷◌, arith}
use smb_rs.Reducer.{GenerationId}
use smb_rs.Recovery.{
  RecoveryPolicy, RecoveryState, connected, waiting, connecting, failed, closed, RecoveryEvent,
  RecoveryEffect, start_attempt, publish_generation, reduce, run,
}

-- Attempts started and generations published by a list of effects.
abbrev pub is_start : Option RecoveryEffect → ℕ
is_start (some (start_attempt attempt deadline)) = 1
is_start _ = 0

abbrev pub is_publication : Option RecoveryEffect → ℕ
is_publication (some (publish_generation generation)) = 1
is_publication _ = 0

pub starts : List (Option RecoveryEffect) → ℕ
starts [] = 0
starts (e ∷ es) = is_start e + starts es

pub publications : List (Option RecoveryEffect) → ℕ
publications [] = 0
publications (e ∷ es) = is_publication e + publications es

-- The attempts that may still be started before a generation is published.
abbrev pub budget : RecoveryPolicy → RecoveryState → ℕ
budget p (connected generation) = p.max_attempts
budget p (waiting attempt wake_at total) = p.max_attempts + 1 - attempt
budget p (connecting attempt deadline total) = p.max_attempts - attempt
budget p failed = 0
budget p closed = 0

-- The attempt under way is one of those that the policy allows.
abbrev pub IsCounted : RecoveryPolicy → RecoveryState → Type 0
IsCounted p (waiting attempt wake_at total) = (1 ≤ attempt) × (attempt ≤ p.max_attempts)
IsCounted p (connecting attempt deadline total) = (1 ≤ attempt) × (attempt ≤ p.max_attempts)
IsCounted p _ = Unit {0}

reduce-IsCounted :
    (p : RecoveryPolicy) (s : RecoveryState) (e : RecoveryEvent)
    → IsCounted p s
    → IsCounted p (reduce p s e).0
unfolding reduce
reduce-IsCounted p s e h = ground arith

reduce-budget :
    (p : RecoveryPolicy) (s : RecoveryState) (e : RecoveryEvent)
    → IsCounted p s
    → is_start (reduce p s e).1 + budget p (reduce p s e).0
      ≤ budget p s + p.max_attempts * is_publication (reduce p s e).1
unfolding reduce
reduce-budget p s e h = ground arith

run-budget :
    (p : RecoveryPolicy) (s : RecoveryState) (es : List RecoveryEvent)
    → IsCounted p s
    → starts (run p s es).1 + budget p (run p s es).0
      ≤ budget p s + p.max_attempts * publications (run p s es).1
unfolding run starts publications
run-budget p s [] h = omega arith
run-budget p s (e ∷ es) h =
    omega
      (arith, reduce-budget p s e h, run-budget p (reduce p s e).0 es (reduce-IsCounted p s e h))

-- Over any history from a connection, the attempts started are at most `max_attempts` for the first
-- outage and for each generation published since.
pub run-starts :
    (p : RecoveryPolicy) (g : GenerationId) (es : List RecoveryEvent)
    → let effects = (run p (connected g) es).1 in
      starts effects ≤ p.max_attempts * (1 + publications effects)
run-starts p g es = omega (arith, run-budget p (connected g) es tt)

-- A recovery that has failed stays failed, whatever comes: it starts no attempt and publishes no
-- generation.
pub over_silent :
    (p : RecoveryPolicy) (es : List RecoveryEvent)
    → (starts (run p failed es).1 ≡ 0)
      × (publications (run p failed es).1 ≡ 0)
      × ((run p failed es).0 ≡ failed)
unfolding run starts publications reduce
over_silent p [] = (refl, refl, refl)
over_silent p (e ∷ es) =
    let ih = over_silent p es in (omega (arith, ih.0), omega (arith, ih.1), ih.2)
