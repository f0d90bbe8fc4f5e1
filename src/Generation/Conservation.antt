-- ===== src/Generation/Conservation.antt =====
-- The account of the credits at hand in crates/smb/src/runtime/state.rs, move by move.
use smb_rs.Prelude.{
  ℕ, ◌+◌, ◌-◌, ◌≤◌, ◌≡◌, refl, ◌||◌, inl, inr, true, false, none, some, if◌then◌else◌, get, insert,
  sum_by, sum_by-insert, arith, Option-cases, Bool-cases, checked_add, u64_max, u32_max,
}
use smb_rs.Reducer.{RequestKey, request_key_Eq, RequestEvent, RequestRecord, ResponseProgress}
use smb_rs.Reducer
use smb_rs.Clock.{MonotonicTime}
use smb_rs.Generation.Data.{GenerationState, OwnedRequest, DeadlineKind}
use smb_rs.Generation.Ledger.{schedule_deadline, release_payload, release_admission, return_credits}
use smb_rs.Generation.Handlers.{rejection, reserve, new_request, credit_request_of}
use smb_rs.Generation.Response.{settle, settle_totals, observe, record_async, conclude, or_else}
use smb_rs.Generation.Moves.{
  Move, touch, schedule, free_payload, free_slot, give_back, settles, overflow, interim, concludes,
  pop, degrade, Moves, here, next,
}
use smb_rs.Generation.Evolution.{return_credits-cases}
use smb_rs.Generation.Counts.{IsFresh}
use smb_rs.Generation.Identity.{Identity, Identity-IsFresh, Moves-Identity}

-- The credits that a request took and that its final response has not settled.
abbrev pub owed : OwnedRequest → ℕ
owed r = if r.credit_obligation then r.credit_charge else 0

-- The credits that a request took and that were not given back before a response.
abbrev pub taken : OwnedRequest → ℕ
taken r = if r.credit_obligation || r.credit_response_seen then r.credit_charge else 0

-- `given` credits have come in: those at hand and those owed are no more, those at hand and those
-- taken are no fewer.
pub record IsBalanced (given : ℕ) (s : GenerationState) : Type 0 where
  pub not_more : s.available_credits + sum_by owed s.requests ≤ given
  pub not_fewer : given ≤ s.available_credits + sum_by taken s.requests

module _ (given : ℕ) where
  -- A write that leaves what a request took and owes alone.
  IsBalanced-write :
      (s t : GenerationState) (key : RequestKey) (r r' : OwnedRequest)
      → IsBalanced given s
      → get key s.requests ≡ some r
      → t.requests ≡ insert key r' s.requests
      → owed r' ≡ owed r
      → taken r' ≡ taken r
      → t.available_credits ≡ s.available_credits
      → IsBalanced given t
  IsBalanced-write s t key r r' c found w e f a =
      ground (arith, sum_by-insert owed key r' s.requests, sum_by-insert taken key r' s.requests)

  release_payload-IsBalanced :
      (s : GenerationState) (key : RequestKey)
      → IsBalanced given s
      → IsBalanced given (release_payload s key)
  unfolding release_payload
  release_payload-IsBalanced s key c = elim (Option-cases (get key s.requests)) [
    | inl e ↦ rw (e, release_payload) c
    | inr (r, e) ↦ elim (Bool-cases r.payload_held) [
      | inl w ↦
          rw (e, release_payload) (rw w (IsBalanced-write s _ key r _ c e refl refl refl refl))
      | inr w ↦ rw (e, release_payload) (rw w c)
    ]
  ]

  release_admission-IsBalanced :
      (s : GenerationState) (key : RequestKey)
      → IsBalanced given s
      → IsBalanced given (release_admission s key)
  unfolding release_admission
  release_admission-IsBalanced s key c = elim (Option-cases (get key s.requests)) [
    | inl e ↦ rw (e, release_admission) c
    | inr (r, e) ↦ elim (Bool-cases r.admission_held) [
      | inl w ↦
          rw (e, release_admission) (rw w (IsBalanced-write s _ key r _ c e refl refl refl refl))
      | inr w ↦ rw (e, release_admission) (rw w c)
    ]
  ]

  schedule_deadline-IsBalanced :
      (s : GenerationState) (key : RequestKey) (at : MonotonicTime) (kind : DeadlineKind)
      → IsBalanced given s
      → IsBalanced given (schedule_deadline s key at kind).0
  unfolding schedule_deadline
  schedule_deadline-IsBalanced s key at kind c = elim (Option-cases (get key s.requests)) [
    | inl e ↦ rw (e, schedule_deadline) c
    | inr (r, e) ↦
        let later = record r { deadline_version = r.deadline_version + 1 } in
        rw (e, schedule_deadline)
          (ground (
            arith,
            sum_by-insert owed key later s.requests,
            sum_by-insert taken key later s.requests,
          ))
  ]

  give_back-IsBalanced :
      (s : GenerationState) (key : RequestKey) (r : OwnedRequest) {t : GenerationState}
      → get key s.requests ≡ some r
      → return_credits s key r ≡ some t
      → IsBalanced given s
      → IsBalanced given t
  give_back-IsBalanced s key r found e c = elim (return_credits-cases s key r e) [
    | inl (_, same) ↦ rw same c
    | inr (was_owed, _, same) ↦
        let settled = record r { credit_obligation = false } in
        rw same (
          ground (
            arith,
            sum_by-insert owed key settled s.requests,
            sum_by-insert taken key settled s.requests,
          ))
  ]

  reserve-IsBalanced :
      (s : GenerationState) (payload_bytes credit_charge id : ℕ)
      → rejection s payload_bytes credit_charge ≡ none
      → s.next_message_id ≡ some id
      → IsFresh s
      → IsBalanced given s
      → IsBalanced given (reserve s id payload_bytes credit_charge)
  unfolding reserve rejection new_request
  reserve-IsBalanced s payload_bytes credit_charge id passed e fresh c =
      let key : RequestKey = record { generation = s.generation; message_id = id } in
      let made =
        new_request key payload_bytes credit_charge
          (credit_request_of s credit_charge - credit_charge) in
      ground (
        arith,
        fresh id e,
        sum_by-insert owed key made s.requests,
        sum_by-insert taken key made s.requests,
      )

  conclude-IsBalanced :
      (s : GenerationState) (key : RequestKey) (r : OwnedRequest) (l : RequestRecord)
      (previous : ResponseProgress)
      → get key s.requests ≡ some r
      → r.credit_response_seen ≡ true
      → IsBalanced given s
      → IsBalanced given (conclude s key (record r { lifecycle = l }) previous)
  unfolding conclude
  conclude-IsBalanced s key r l previous found seen c =
      let v = or_else (checked_add u64_max r.deadline_version 1) r.deadline_version in
      let settled = record r { lifecycle = l; credit_obligation = false; deadline_version = v } in
      ground (
        arith,
        sum_by-insert owed key settled s.requests,
        sum_by-insert taken key settled s.requests,
      )

  -- No move but a response's brings credits in.
  Move-IsBalanced :
      {s t : GenerationState} → Move false s t → IsFresh s → IsBalanced given s → IsBalanced given t
  unfolding record_async
  Move-IsBalanced {s} (touch key r cs found l) f c =
      IsBalanced-write s _ key r _ c found refl refl refl refl
  Move-IsBalanced {s} (schedule key at kind) f c = schedule_deadline-IsBalanced s key at kind c
  Move-IsBalanced {s} (free_payload key) f c = release_payload-IsBalanced s key c
  Move-IsBalanced {s} (free_slot key) f c = release_admission-IsBalanced s key c
  Move-IsBalanced {s} (give_back key r found e) f c = give_back-IsBalanced s key r found e c
  Move-IsBalanced {s} (Move.admit payload_bytes credit_charge id passed e) f c =
      reserve-IsBalanced s payload_bytes credit_charge id passed e f c
  Move-IsBalanced (settles key r grant available found u e by_response) f c =
      absurd (cc by_response)
  Move-IsBalanced (overflow key r grant found u by_response) f c = absurd (cc by_response)
  Move-IsBalanced {s} (interim key r id found u free same) f c =
      IsBalanced-write s _ key r _ c found refl refl refl refl
  Move-IsBalanced {s} (concludes key r found u seen) f c =
      conclude-IsBalanced s key r (Reducer.reduce r.lifecycle (RequestEvent.final_response key)).0
        r.lifecycle.progress found seen c
  Move-IsBalanced (pop d ds e) f c = ground arith
  Move-IsBalanced degrade f c = ground arith

  pub Moves-IsBalanced :
      {s t : GenerationState}
      → Moves false s t
      → Identity s
      → IsBalanced given s
      → IsBalanced given t
  Moves-IsBalanced here v c = c
  Moves-IsBalanced (next {t = t} p m) v c =
      Move-IsBalanced m (Identity-IsFresh t (Moves-Identity p v)) (Moves-IsBalanced p v c)

  pub settles-IsBalanced :
      (s : GenerationState) (key : RequestKey) (r : OwnedRequest) (grant available : ℕ)
      → get key s.requests ≡ some r
      → checked_add u32_max s.available_credits grant ≡ some available
      → IsBalanced given s
      → IsBalanced (given + grant) (record (settle s key r grant) { available_credits = available })
  unfolding settle settle_totals observe
  settles-IsBalanced s key r grant available found e c = ground (
    arith,
    sum_by-insert owed key (observe r) s.requests,
    sum_by-insert taken key (observe r) s.requests,
  )

  pub overflow-IsBalanced :
      (s : GenerationState) (key : RequestKey) (r : OwnedRequest) (grant : ℕ)
      → get key s.requests ≡ some r
      → IsBalanced given s
      → IsBalanced given (record (settle s key r grant) { unhealthy = true })
  unfolding settle settle_totals observe
  overflow-IsBalanced s key r grant found c = ground (
    arith,
    sum_by-insert owed key (observe r) s.requests,
    sum_by-insert taken key (observe r) s.requests,
  )

  pub unhealthy-IsBalanced :
      (s : GenerationState) → IsBalanced given s → IsBalanced given (record s { unhealthy = true })
  unhealthy-IsBalanced s c = ground arith
