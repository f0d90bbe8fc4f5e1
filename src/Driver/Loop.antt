-- ===== src/Driver/Loop.antt =====
-- crates/smb/src/runtime/recovery_driver.rs: how the loop over the attempts ends.
use smb_rs.Prelude.{
  ℕ, zero, suc, ◌+◌, ◌-◌, ◌*◌, ◌≤◌, ◌<◌, ◌≡◌, refl, sym, ap, ◌∙◌, subst, inl, inr, Option, none,
  some, List, [], ◌∷◌, ◌++◌, arith, false, ==_iff, if_rule, ◌==◌, Result, ok, err, stuck,
}
use smb_rs.Reducer.{GenerationId}
use smb_rs.Clock.{MonotonicTime, Duration}
use smb_rs.Objects.Data.{ObjectToken}
use smb_rs.Recovery.{
  RecoveryPolicy, RecoveryEvent, wake, attempt_succeeded, attempt_failed, RecoveryEffect,
  schedule_attempt, start_attempt, publish_generation, recovery_failed, was_closed, reduce,
}
use smb_rs.Driver.{RecoveryError, RecoveryAdmissions, finish_recovery, fail_waiters}
use smb_rs.Driver.Waiting.{IsConsistent, finish_recovery_lem, fail_waiters_lem}
use smb_rs.Driver.Steps.{
  IsConnecting, Tracks, rank, Leads, wake-Leads, attempt_failed-Leads, Keeps, interfere_all-Keeps,
  Keeps-trans, Tracks-Keeps,
}
use smb_rs.Driver.Attempts.{
  RecoveryDriver, Bootstrap, candidate, connection_gone, bootstrap_failed, Interference,
  Environment, reduce_coordinator, with_replies, interfere_all, Turn, publish_candidate,
  take_candidate, bootstrapped, go_on, drive_one, drive_attempts, release_on_error,
}

module _ {Channel : Type 0} where
  -- Nobody is recovering, and nobody waits.
  pub record IsIdle (a : RecoveryAdmissions Channel) : Type 0 where
    pub not_recovering : a.recovering ≡ false
    pub nobody_queued : a.queue.waits ≡ []
    pub nobody_answered : a.completions ≡ []

  -- A replacement of the generation that is due has been published, once, and is the connection that
  -- is active now. Without one nothing has been published. Either way nobody is left waiting.
  abbrev pub Recovered :
      (published : List ObjectToken)
      → GenerationId
      → RecoveryDriver Channel
      → Result RecoveryError ObjectToken
      → Type 0
  Recovered published next d (ok token) =
      (token.generation ≡ next)
      × (d.published ≡ published ++ token ∷ [])
      × (d.admissions.active_connection ≡ token)
      × IsIdle d.admissions
  Recovered published next d (err e) = (d.published ≡ published) × IsIdle d.admissions
  Recovered published next d stuck = ⊥

  finish-IsIdle :
      (token : ObjectToken) (a : RecoveryAdmissions Channel)
      → IsConsistent a
      → ((finish_recovery token a).0.active_connection ≡ token) × IsIdle (finish_recovery token a).0
  finish-IsIdle token a v =
      rw (finish_recovery_lem a token v)
        (refl, record { not_recovering = refl; nobody_queued = refl; nobody_answered = refl })

  fail-IsIdle : (a : RecoveryAdmissions Channel) → IsConsistent a → IsIdle (fail_waiters a).0
  fail-IsIdle a v =
      rw (fail_waiters_lem a v)
        (record { not_recovering = refl; nobody_queued = refl; nobody_answered = refl })

  module _ (p : RecoveryPolicy) (published : List ObjectToken) (next : GenerationId) where
    -- What holds at the head of the loop.
    pub record IsDriving (d : RecoveryDriver Channel) : Type 0 where
      pub consistent : IsConsistent d.admissions
      pub policy : d.policy ≡ p
      pub unpublished : d.published ≡ published

    -- Before the last step of `recover`, a failure still has to release those who wait.
    abbrev pub Finished : RecoveryDriver Channel → Result RecoveryError ObjectToken → Type 0
    Finished d (ok token) = Recovered published next d (ok token)
    Finished d (err e) = IsDriving d
    Finished d stuck = ⊥

    abbrev Proceeds : (bound : ℕ) → Turn Channel → Type 0
    Proceeds bound (d, inl effect) =
        IsDriving d × Tracks p effect d.coordinator × (rank p effect < bound)
    Proceeds bound (d, inr result) = Finished d result

    IsDriving-Keeps : (d d' : RecoveryDriver Channel) → Keeps d d' → IsDriving d → IsDriving d'
    IsDriving-Keeps d d' k v = record {
      consistent = k.consistent;
      policy = k.same_policy ∙ v.policy;
      unpublished = k.same_published ∙ v.unpublished;
    }

    reduce_coordinator-IsDriving :
        (event : RecoveryEvent) (d : RecoveryDriver Channel)
        → IsDriving d
        → IsDriving (reduce_coordinator event d).0
    unfolding reduce_coordinator
    reduce_coordinator-IsDriving event d v = record {
      consistent = v.consistent;
      policy = v.policy;
      unpublished = v.unpublished;
    }

    publish_candidate-Proceeds :
        (settling : List (Interference Channel)) (bound : ℕ) (token : ObjectToken)
        → token.generation ≡ next
        → (d : RecoveryDriver Channel) (effect : Option RecoveryEffect) → IsDriving d
        → Proceeds bound (publish_candidate settling next token d effect)
    unfolding publish_candidate with_replies
    publish_candidate-Proceeds settling bound token due d none v = v
    publish_candidate-Proceeds settling bound token due d (some (schedule_attempt attempt at)) v = v
    publish_candidate-Proceeds settling bound token due d (some (start_attempt attempt at)) v = v
    publish_candidate-Proceeds settling bound token due d (some recovery_failed) v = v
    publish_candidate-Proceeds settling bound token due d (some was_closed) v = v
    publish_candidate-Proceeds settling bound token due d (some (publish_generation generation)) v =
        let named = record d { published = d.published ++ token ∷ [] } in
        let shown = interfere_all settling named in
        let k = interfere_all-Keeps settling named v.consistent in
        let (active, idle) = finish-IsIdle token shown.admissions k.consistent in
        if_rule (Proceeds bound) (generation == next)
          (λ same. (
            due,
            k.same_published
                ∙ ap (λ (tokens : List ObjectToken). tokens ++ token ∷ []) v.unpublished,
            active,
            idle,
          ))
          (λ other. v)

    take_candidate-Proceeds :
        (settling : List (Interference Channel)) (bound : ℕ) (token : ObjectToken)
        (d : RecoveryDriver Channel)
        → token.generation ≡ next
        → IsDriving d
        → Proceeds bound (take_candidate settling next token d)
    unfolding take_candidate
    take_candidate-Proceeds settling bound token d due v =
        publish_candidate-Proceeds settling bound token due
          (reduce_coordinator (attempt_succeeded next) d).0
          (reduce_coordinator (attempt_succeeded next) d).1
          (reduce_coordinator-IsDriving (attempt_succeeded next) d v)

    bootstrapped-Proceeds :
        (settling : List (Interference Channel)) (attempt : ℕ) (now : MonotonicTime)
        (jitter : Duration) (answer : Bootstrap) (d : RecoveryDriver Channel)
        → attempt ≤ p.max_attempts
        → IsConnecting attempt d.coordinator
        → IsDriving d
        → Proceeds
            (2 * (p.max_attempts - attempt) + 1)
            (bootstrapped settling next attempt now jitter answer d)
    unfolding bootstrapped reduce_coordinator
    bootstrapped-Proceeds settling attempt now jitter (candidate token) d h e v =
        if_rule (Proceeds (2 * (p.max_attempts - attempt) + 1)) (token.generation == next)
          (λ due.
            take_candidate-Proceeds settling (2 * (p.max_attempts - attempt) + 1) token d
              ((==_iff token.generation next).0 due) v)
          (λ other. v)
    bootstrapped-Proceeds settling attempt now jitter connection_gone d h e v = v
    bootstrapped-Proceeds settling attempt now jitter bootstrap_failed d h e v =
        let leads =
          subst
            (λ q.
              Leads p (2 * (p.max_attempts - attempt) + 1)
                (reduce q d.coordinator (attempt_failed now jitter)))
            (sym v.policy) (attempt_failed-Leads p attempt now jitter d.coordinator h e) in
        (reduce_coordinator-IsDriving (attempt_failed now jitter) d v, leads.0, leads.1)

    go_on-Finished :
        (bound : ℕ)
        (loop : Option RecoveryEffect
          → RecoveryDriver Channel
          → RecoveryDriver Channel × Result RecoveryError ObjectToken)
        (turn : Turn Channel)
        → Proceeds bound turn
        → ((effect : Option RecoveryEffect) (d : RecoveryDriver Channel)
            → IsDriving d
            → Tracks p effect d.coordinator
            → rank p effect < bound
            → Finished (loop effect d).0 (loop effect d).1)
        → Finished (go_on loop turn).0 (go_on loop turn).1
    unfolding go_on
    go_on-Finished bound loop (d, inl effect) (v, h, less) goes = goes effect d v h less
    go_on-Finished bound loop (d, inr result) h goes = h

    module _ (env : Environment Channel) where
      drive_one-Proceeds :
          (turn : ℕ) (effect : Option RecoveryEffect) (d : RecoveryDriver Channel)
          → IsDriving d
          → Tracks p effect d.coordinator
          → Proceeds (rank p effect) (drive_one env next turn effect d)
      unfolding drive_one reduce_coordinator
      drive_one-Proceeds turn none d v h = v
      drive_one-Proceeds turn (some was_closed) d v h = v
      drive_one-Proceeds turn (some recovery_failed) d v h = v
      drive_one-Proceeds turn (some (publish_generation generation)) d v h = v
      drive_one-Proceeds turn (some (schedule_attempt attempt wake_at)) d v h =
          let waited = interfere_all (env.during turn) d in
          let k = interfere_all-Keeps (env.during turn) d v.consistent in
          let later = interfere_all (env.after turn) waited in
          let k' = interfere_all-Keeps (env.after turn) waited k.consistent in
          let driving = IsDriving-Keeps d later (Keeps-trans k k') v in
          let tracked =
            Tracks-Keeps p (some (schedule_attempt attempt wake_at)) d later (Keeps-trans k k') h in
          let bound = 2 * (p.max_attempts - attempt) + 2 in
          let leads =
            subst (λ q. Leads p bound (reduce q later.coordinator (wake (env.now turn))))
              (sym driving.policy)
              (wake-Leads p attempt (env.now turn) later.coordinator tracked.0 tracked.1) in
          if_rule (Proceeds bound) waited.closed_token (λ over. IsDriving-Keeps d waited k v)
            (λ open_still.
              (reduce_coordinator-IsDriving (wake (env.now turn)) later driving, leads.0, leads.1))
      drive_one-Proceeds turn (some (start_attempt attempt deadline)) d v h =
          let waited = interfere_all (env.during turn) d in
          let k = interfere_all-Keeps (env.during turn) d v.consistent in
          let later = interfere_all (env.after turn) waited in
          let k' = interfere_all-Keeps (env.after turn) waited k.consistent in
          let driving = IsDriving-Keeps d later (Keeps-trans k k') v in
          let tracked =
            Tracks-Keeps p (some (start_attempt attempt deadline)) d later (Keeps-trans k k') h in
          if_rule (Proceeds (2 * (p.max_attempts - attempt) + 1)) waited.closed_token
            (λ over. IsDriving-Keeps d waited k v)
            (λ open_still.
              bootstrapped-Proceeds env.settling attempt (env.now turn) (env.jitter attempt)
                (env.bootstrap turn) later tracked.0 tracked.1 driving)

      pub drive_attempts-Finished :
          (fuel turn : ℕ) (effect : Option RecoveryEffect) (d : RecoveryDriver Channel)
          → IsDriving d
          → Tracks p effect d.coordinator
          → rank p effect < fuel
          → Finished
              (drive_attempts env next fuel turn effect d).0
              (drive_attempts env next fuel turn effect d).1
      unfolding drive_attempts
      drive_attempts-Finished zero turn effect d v h enough = absurd (omega arith)
      drive_attempts-Finished (suc fuel) turn effect d v h enough =
          go_on-Finished (rank p effect) (drive_attempts env next fuel (suc turn))
            (drive_one env next turn effect d) (drive_one-Proceeds turn effect d v h)
            (λ effect' d' v' h' less.
              drive_attempts-Finished fuel (suc turn) effect' d' v' h'
                (omega (arith, less, enough)))

      pub release_on_error-Recovered :
          (settling : List (Interference Channel)) (d : RecoveryDriver Channel)
          (result : Result RecoveryError ObjectToken)
          → Finished d result
          → Recovered published next
              (release_on_error settling (d, result)).0
              (release_on_error settling (d, result)).1
      unfolding release_on_error with_replies
      release_on_error-Recovered settling d (ok token) h = h
      release_on_error-Recovered settling d (err e) v =
          let k = interfere_all-Keeps settling d v.consistent in
          (
            k.same_published ∙ v.unpublished,
            fail-IsIdle (interfere_all settling d).admissions k.consistent,
          )
      release_on_error-Recovered settling d stuck h = absurd h
