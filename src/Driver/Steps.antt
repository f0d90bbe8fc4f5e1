-- ===== src/Driver/Steps.antt =====
-- crates/smb/src/runtime/recovery_driver.rs: what the steps of other tasks, and the answers of the
-- coordinator, leave to the loop over the attempts.
use smb_rs.Prelude.{
  ℕ, ◌+◌, ◌-◌, ◌*◌, ◌≤◌, ◌<◌, ◌≡◌, refl, sym, ◌∙◌, subst, ◌⊎◌, inl, inr, Option, none, some, List,
  [], ◌∷◌, arith, true, if_rule, leb, ◌==◌, ◌||◌,
}
use smb_rs.Reducer.{GenerationId}
use smb_rs.Clock.{MonotonicTime, Duration}
use smb_rs.Recovery.{
  RecoveryPolicy, RecoveryState, connected, waiting, connecting, failed, closed, transport_lost,
  wake, attempt_failed, close, RecoveryEffect, schedule_attempt, start_attempt, publish_generation,
  recovery_failed, was_closed, reduce, Reply,
}
use smb_rs.Driver.Waiting.{IsConsistent}
use smb_rs.Driver.Consistency.{
  admit-IsConsistent, remove_wait-IsConsistent, fail_waiters-IsConsistent,
}
use smb_rs.Driver.Attempts.{
  RecoveryDriver, Interference, admits, removes_wait, cancels_token, reduces_close, fails_waiters,
  reduce_coordinator, with_replies, interfere, interfere_all,
}

-- The coordinator waits for an attempt, or is closed.
abbrev pub IsWaiting : (attempt : ℕ) → RecoveryState → Type 0
IsWaiting attempt (waiting k wake_at total) = k ≡ attempt
IsWaiting attempt closed = Unit {0}
IsWaiting attempt _ = ⊥

abbrev pub IsConnecting : (attempt : ℕ) → RecoveryState → Type 0
IsConnecting attempt (connecting k deadline total) = k ≡ attempt
IsConnecting attempt closed = Unit {0}
IsConnecting attempt _ = ⊥

module _ (p : RecoveryPolicy) where
  -- The effect that the loop carries is that of the coordinator's state.
  abbrev pub Tracks : Option RecoveryEffect → RecoveryState → Type 0
  Tracks (some (schedule_attempt attempt wake_at)) s =
      (attempt ≤ p.max_attempts) × IsWaiting attempt s
  Tracks (some (start_attempt attempt deadline)) s =
      (attempt ≤ p.max_attempts) × IsConnecting attempt s
  Tracks _ s = Unit {0}

  -- The turns that an effect has left.
  abbrev pub rank : Option RecoveryEffect → ℕ
  rank (some (schedule_attempt attempt wake_at)) = 2 * (p.max_attempts - attempt) + 2
  rank (some (start_attempt attempt deadline)) = 2 * (p.max_attempts - attempt) + 1
  rank _ = 0

  -- A reply that leads on has fewer turns left.
  abbrev pub Leads : (bound : ℕ) → Reply → Type 0
  Leads bound r = Tracks r.1 r.0 × (rank r.1 < bound)

  Tracks-closed :
      (effect : Option RecoveryEffect) (s : RecoveryState) → Tracks effect s → Tracks effect closed
  Tracks-closed none s h = tt
  Tracks-closed (some (schedule_attempt attempt wake_at)) s h = (h.0, tt)
  Tracks-closed (some (start_attempt attempt deadline)) s h = (h.0, tt)
  Tracks-closed (some (publish_generation generation)) s h = tt
  Tracks-closed (some recovery_failed) s h = tt
  Tracks-closed (some was_closed) s h = tt

  pub wake-Leads :
      (attempt : ℕ) (now : MonotonicTime) (s : RecoveryState)
      → attempt ≤ p.max_attempts
      → IsWaiting attempt s
      → Leads (2 * (p.max_attempts - attempt) + 2) (reduce p s (wake now))
  unfolding reduce
  wake-Leads attempt now (waiting k wake_at total) h e =
      let bound = 2 * (p.max_attempts - attempt) + 2 in
      if_rule (Leads bound) (leb wake_at now)
        (λ reached.
          if_rule (Leads bound) (leb total now) (λ over. (tt, omega arith))
            (λ left. ((omega (arith, e, h), refl), omega (arith, e, h))))
        (λ early. (tt, omega arith))
  wake-Leads attempt now closed h e = (tt, omega arith)
  wake-Leads attempt now (connected generation) h e = absurd e
  wake-Leads attempt now (connecting k deadline total) h e = absurd e
  wake-Leads attempt now failed h e = absurd e

  pub attempt_failed-Leads :
      (attempt : ℕ) (now : MonotonicTime) (jitter : Duration) (s : RecoveryState)
      → attempt ≤ p.max_attempts
      → IsConnecting attempt s
      → Leads (2 * (p.max_attempts - attempt) + 1) (reduce p s (attempt_failed now jitter))
  unfolding reduce
  attempt_failed-Leads attempt now jitter (connecting k deadline total) h e =
      if_rule (Leads (2 * (p.max_attempts - attempt) + 1)) (leb p.max_attempts k || leb total now)
        (λ over. (tt, omega arith))
        (λ left.
          let below : k < p.max_attempts = ground (arith, left) in
          ((omega (arith, below), refl), omega (arith, e, below)))
  attempt_failed-Leads attempt now jitter closed h e = (tt, omega arith)
  attempt_failed-Leads attempt now jitter (connected generation) h e = absurd e
  attempt_failed-Leads attempt now jitter (waiting k wake_at total) h e = absurd e
  attempt_failed-Leads attempt now jitter failed h e = absurd e

  pub transport_lost-Leads :
      (generation active : GenerationId) (now : MonotonicTime)
      → (active == generation) ≡ true
      → Leads (2 * p.max_attempts + 2) (reduce p (connected active) (transport_lost generation now))
  unfolding reduce
  transport_lost-Leads generation active now same = rw same (
      if_rule (Leads (2 * p.max_attempts + 2)) (p.max_attempts == 0) (λ over. (tt, omega arith))
        (λ left.
          let some_left : 1 ≤ p.max_attempts = ground (arith, left) in
          ((some_left, refl), omega (arith, some_left))))

reduce-close :
    (p : RecoveryPolicy) (s : RecoveryState)
    → ((reduce p s close).0 ≡ s) ⊎ ((reduce p s close).0 ≡ closed)
unfolding reduce
reduce-close p closed = inl refl
reduce-close p failed = inl refl
reduce-close p (connected active) = inr refl
reduce-close p (waiting attempt wake_at total) = inr refl
reduce-close p (connecting attempt deadline total) = inr refl

module _ {Channel : Type 0} where
  -- What the steps of other tasks leave as it was.
  pub record Keeps (d d' : RecoveryDriver Channel) : Type 0 where
    pub consistent : IsConsistent d'.admissions
    pub same_policy : d'.policy ≡ d.policy
    pub same_published : d'.published ≡ d.published
    pub same_or_closed : (d'.coordinator ≡ d.coordinator) ⊎ (d'.coordinator ≡ closed)

  pub Keeps-itself : (d : RecoveryDriver Channel) → IsConsistent d.admissions → Keeps d d
  Keeps-itself d v = record {
    consistent = v;
    same_policy = refl;
    same_published = refl;
    same_or_closed = inl refl;
  }

  pub Keeps-trans : {a b c : RecoveryDriver Channel} → Keeps a b → Keeps b c → Keeps a c
  Keeps-trans {a} {b} {c} h k = record {
    consistent = k.consistent;
    same_policy = k.same_policy ∙ h.same_policy;
    same_published = k.same_published ∙ h.same_published;
    same_or_closed = elim k.same_or_closed [
      | inr over ↦ inr over
      | inl same ↦ elim h.same_or_closed [
        | inl before ↦ inl (same ∙ before)
        | inr over ↦ inr (same ∙ over)
      ]
    ];
  }

  interfere-Keeps :
      (step : Interference Channel) (d : RecoveryDriver Channel)
      → IsConsistent d.admissions
      → Keeps d (interfere step d)
  unfolding interfere with_replies reduce_coordinator
  interfere-Keeps (admits now dependency deadline reply) d v = record {
    consistent =
        admit-IsConsistent d.policy.total_timeout now dependency deadline reply d.admissions v;
    same_policy = refl;
    same_published = refl;
    same_or_closed = inl refl;
  }
  interfere-Keeps (removes_wait id) d v = record {
    consistent = remove_wait-IsConsistent id d.admissions v;
    same_policy = refl;
    same_published = refl;
    same_or_closed = inl refl;
  }
  interfere-Keeps cancels_token d v = record {
    consistent = v;
    same_policy = refl;
    same_published = refl;
    same_or_closed = inl refl;
  }
  interfere-Keeps reduces_close d v = record {
    consistent = v;
    same_policy = refl;
    same_published = refl;
    same_or_closed = reduce-close d.policy d.coordinator;
  }
  interfere-Keeps fails_waiters d v = record {
    consistent = fail_waiters-IsConsistent d.admissions v;
    same_policy = refl;
    same_published = refl;
    same_or_closed = inl refl;
  }

  pub interfere_all-Keeps :
      (steps : List (Interference Channel)) (d : RecoveryDriver Channel)
      → IsConsistent d.admissions
      → Keeps d (interfere_all steps d)
  unfolding interfere_all
  interfere_all-Keeps [] d v = Keeps-itself d v
  interfere_all-Keeps (step ∷ steps) d v =
      let first = interfere-Keeps step d v in
      Keeps-trans first (interfere_all-Keeps steps (interfere step d) first.consistent)

  pub Tracks-Keeps :
      (p : RecoveryPolicy) (effect : Option RecoveryEffect) (d d' : RecoveryDriver Channel)
      → Keeps d d'
      → Tracks p effect d.coordinator
      → Tracks p effect d'.coordinator
  Tracks-Keeps p effect d d' k h = elim k.same_or_closed [
    | inl same ↦ subst (Tracks p effect) (sym same) h
    | inr over ↦ subst (Tracks p effect) (sym over) (Tracks-closed p effect d.coordinator h)
  ]
