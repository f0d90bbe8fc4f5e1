-- ===== src/Driver/Outcome.antt =====
-- crates/smb/src/runtime/recovery_driver.rs: how `recover` ends.
use smb_rs.Prelude.{
  ℕ, ◌+◌, ◌*◌, ◌<◌, ◌≡◌, refl, sym, subst, Option, none, some, arith, true, false, ◌==◌,
}
use smb_rs.Reducer.{GenerationId, checked_next}
use smb_rs.Clock.{MonotonicTime}
use smb_rs.Recovery.{
  RecoveryState, connected, waiting, connecting, failed, closed, transport_lost, RecoveryEffect,
  reduce,
}
use smb_rs.Driver.{begin_recovery}
use smb_rs.Driver.Waiting.{IsConsistent}
use smb_rs.Driver.Consistency.{begin_recovery-IsConsistent}
use smb_rs.Driver.Steps.{
  Tracks, rank, Leads, transport_lost-Leads, interfere_all-Keeps, Tracks-Keeps,
}
use smb_rs.Driver.Attempts.{
  RecoveryDriver, Environment, reduce_coordinator, interfere_all, drive_attempts, release_on_error,
  is_connected, recover,
}
use smb_rs.Driver.Loop.{Recovered, IsDriving, drive_attempts-Finished, release_on_error-Recovered}

-- A recovery begins: the exit is a transport's, the driver is not closed, a generation is left, the
-- coordinator is connected in the one that was lost, and the admissions take it up.
pub record Begins {Channel : Type 0} (env : Environment Channel) (lost next : GenerationId)
    (lost_at : MonotonicTime) (d : RecoveryDriver Channel) : Type 0 where
  pub open_still : d.closed_token ≡ false
  pub next_one : checked_next lost ≡ some next
  pub was_connected : is_connected lost d.coordinator ≡ true
  pub consistent : IsConsistent d.admissions
  pub accepted :
      (begin_recovery lost
        (interfere_all env.starting
          (reduce_coordinator (transport_lost lost lost_at) d).0).admissions).1
      ≡ none

-- The coordinator's answer to the loss, and the driver once the recovery is begun.
abbrev lost_effect :
    {Channel : Type 0}
    → GenerationId
    → MonotonicTime
    → RecoveryDriver Channel
    → Option RecoveryEffect
lost_effect lost lost_at d = (reduce_coordinator (transport_lost lost lost_at) d).1

abbrev started :
    {Channel : Type 0}
    → Environment Channel
    → GenerationId
    → MonotonicTime
    → RecoveryDriver Channel
    → RecoveryDriver Channel
started env lost lost_at d =
    interfere_all env.starting (reduce_coordinator (transport_lost lost lost_at) d).0

abbrev begun :
    {Channel : Type 0}
    → Environment Channel
    → GenerationId
    → MonotonicTime
    → RecoveryDriver Channel
    → RecoveryDriver Channel
begun env lost lost_at d = record (started env lost lost_at d) {
  admissions = (begin_recovery lost (started env lost lost_at d).admissions).0;
}

is_connected-eq :
    (lost : GenerationId) (s : RecoveryState)
    → is_connected lost s ≡ true
    → (active : GenerationId) × (s ≡ connected active) × ((active == lost) ≡ true)
is_connected-eq lost (connected active) h = (active, refl, h)
is_connected-eq lost (waiting attempt wake_at total) h = cc
is_connected-eq lost (connecting attempt deadline total) h = cc
is_connected-eq lost failed h = cc
is_connected-eq lost closed h = cc

module _ {Channel : Type 0} (env : Environment Channel) (lost next : GenerationId)
    (lost_at : MonotonicTime) (d : RecoveryDriver Channel)
    (b : Begins env lost next lost_at d) where
  recover_begins :
      (fuel : ℕ)
      → recover env fuel lost true lost_at d
        ≡ release_on_error env.settling
            (drive_attempts env next fuel 0 (lost_effect lost lost_at d) (begun env lost lost_at d))
  unfolding recover
  recover_begins fuel = simp (b.open_still, b.next_one, b.was_connected, b.accepted)

  begun-IsDriving : IsDriving d.policy d.published next (begun env lost lost_at d)
  unfolding reduce_coordinator
  begun-IsDriving =
      let lost_one = (reduce_coordinator (transport_lost lost lost_at) d).0 in
      let k = interfere_all-Keeps env.starting lost_one b.consistent in
      record {
        consistent =
            begin_recovery-IsConsistent lost (started env lost lost_at d).admissions k.consistent;
        policy = k.same_policy;
        unpublished = k.same_published;
      }

  begun-Tracks :
      Tracks d.policy (lost_effect lost lost_at d) (begun env lost lost_at d).coordinator
      × (rank d.policy (lost_effect lost lost_at d) < 2 * d.policy.max_attempts + 2)
  unfolding reduce_coordinator
  begun-Tracks =
      let lost_one = (reduce_coordinator (transport_lost lost lost_at) d).0 in
      let k = interfere_all-Keeps env.starting lost_one b.consistent in
      let (active, at, same) = is_connected-eq lost d.coordinator b.was_connected in
      let leads =
        subst
          (λ s.
            Leads d.policy (2 * d.policy.max_attempts + 2)
              (reduce d.policy s (transport_lost lost lost_at)))
          (sym at) (transport_lost-Leads d.policy lost active lost_at same) in
      (
        Tracks-Keeps d.policy (lost_effect lost lost_at d) lost_one (started env lost lost_at d) k
            leads.0,
        leads.1,
      )

-- A recovery that begins, with reply channels and waits that belong to one another, ends within twice
-- the allowed attempts and three turns, whatever other tasks, the clock and the bootstrap do meanwhile.
-- It ends with a connection of the next generation, published once and active from then on, or with an
-- error and nothing published. Either way no recovery is under way and no caller is left waiting.
pub recover-Recovered :
    {Channel : Type 0} (env : Environment Channel) (lost next : GenerationId)
    (lost_at : MonotonicTime) (d : RecoveryDriver Channel)
    → Begins env lost next lost_at d
    → Recovered d.published next
        (recover env (2 * d.policy.max_attempts + 3) lost true lost_at d).0
        (recover env (2 * d.policy.max_attempts + 3) lost true lost_at d).1
recover-Recovered env lost next lost_at d b =
    let effect = lost_effect lost lost_at d in
    let first = begun env lost lost_at d in
    let (tracks, less) = begun-Tracks env lost next lost_at d b in
    let fuel = 2 * d.policy.max_attempts + 3 in
    let finished =
      drive_attempts-Finished d.policy d.published next env fuel 0 effect first
        (begun-IsDriving env lost next lost_at d b) tracks (omega (arith, less)) in
    subst (λ out. Recovered d.published next out.0 out.1)
      (sym (recover_begins env lost next lost_at d b fuel))
      (release_on_error-Recovered d.policy d.published next env env.settling
        (drive_attempts env next fuel 0 effect first).0
        (drive_attempts env next fuel 0 effect first).1 finished)
