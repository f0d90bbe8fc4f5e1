-- ===== src/Generation/Credits.antt =====
-- The credits of crates/smb/src/runtime/state.rs: what the totals stand for.
use smb_rs.Prelude.{
  Bool, ℕ, ◌+◌, ◌-◌, ◌≤◌, ◌≡◌, refl, ◌⊎◌, inl, inr, true, false, none, some, List, if◌then◌else◌,
  get, insert, sum_by, sum_by-insert, arith, Option-cases, Bool-cases, checked_add, u64_max,
}
use smb_rs.Reducer.{RequestKey, request_key_Eq, RequestEvent, RequestRecord, ResponseProgress}
use smb_rs.Reducer
use smb_rs.Clock.{MonotonicTime}
use smb_rs.Generation.Data.{
  GenerationState, OwnedRequest, DeadlineKind, OwnerEvent, AdmissionLimits,
}
use smb_rs.Generation.Data
use smb_rs.Generation.Ledger.{schedule_deadline, release_payload, release_admission, return_credits}
use smb_rs.Generation.Handlers.{rejection, reserve, new_request, credit_request_of}
use smb_rs.Generation.Response.{settle, settle_totals, observe, record_async, conclude, or_else}
use smb_rs.Generation.Owner.{run}
use smb_rs.Generation.Moves.{
  Move, touch, schedule, free_payload, free_slot, give_back, settles, overflow, interim, concludes,
  pop, degrade, Moves, here, next,
}
use smb_rs.Generation.Evolution.{return_credits-cases}
use smb_rs.Generation.Counts.{IsFresh}
use smb_rs.Generation.Identity.{Identity, Identity-IsFresh, new-Identity, Moves-Identity}
use smb_rs.Generation.Paths.{run-Moves}

-- A request that owes its credits, and that no response has settled: the credits that it took.
abbrev pub outstanding : OwnedRequest → ℕ
outstanding r =
    if r.credit_response_seen then 0 else if r.credit_obligation then r.credit_charge else 0

-- The credits that such a request has asked for beyond its charge.
abbrev pub awaited : OwnedRequest → ℕ
awaited r =
    if r.credit_response_seen
    then 0
    else if r.credit_obligation
    then r.requested_extra_credits
    else 0

-- The totals are covered by what is at hand and what unanswered requests stand for.
pub record IsCovered (s : GenerationState) : Type 0 where
  pub pending : s.pending_extra_credits ≤ sum_by awaited s.requests
  pub total :
      (s.unhealthy ≡ true) ⊎ (s.total_credits ≤ s.available_credits + sum_by outstanding s.requests)

-- A write that leaves what a request owes alone.
IsCovered-write :
    (s t : GenerationState) (key : RequestKey) (r r' : OwnedRequest)
    → IsCovered s
    → get key s.requests ≡ some r
    → t.requests ≡ insert key r' s.requests
    → outstanding r' ≡ outstanding r
    → awaited r' ≡ awaited r
    → t.pending_extra_credits ≡ s.pending_extra_credits
    → t.total_credits ≡ s.total_credits
    → t.available_credits ≡ s.available_credits
    → t.unhealthy ≡ s.unhealthy
    → IsCovered t
IsCovered-write s t key r r' c found w e f a b l h =
    ground
      (arith, sum_by-insert outstanding key r' s.requests, sum_by-insert awaited key r' s.requests)

release_payload-IsCovered :
    (s : GenerationState) (key : RequestKey) → IsCovered s → IsCovered (release_payload s key)
unfolding release_payload
release_payload-IsCovered s key c = elim (Option-cases (get key s.requests)) [
  | inl e ↦ rw (e, release_payload) c
  | inr (r, e) ↦ elim (Bool-cases r.payload_held) [
    | inl w ↦
        rw (e, release_payload)
          (rw w (IsCovered-write s _ key r _ c e refl refl refl refl refl refl refl))
    | inr w ↦ rw (e, release_payload) (rw w c)
  ]
]

release_admission-IsCovered :
    (s : GenerationState) (key : RequestKey) → IsCovered s → IsCovered (release_admission s key)
unfolding release_admission
release_admission-IsCovered s key c = elim (Option-cases (get key s.requests)) [
  | inl e ↦ rw (e, release_admission) c
  | inr (r, e) ↦ elim (Bool-cases r.admission_held) [
    | inl w ↦
        rw (e, release_admission)
          (rw w (IsCovered-write s _ key r _ c e refl refl refl refl refl refl refl))
    | inr w ↦ rw (e, release_admission) (rw w c)
  ]
]

schedule_deadline-IsCovered :
    (s : GenerationState) (key : RequestKey) (at : MonotonicTime) (kind : DeadlineKind)
    → IsCovered s
    → IsCovered (schedule_deadline s key at kind).0
unfolding schedule_deadline
schedule_deadline-IsCovered s key at kind c = elim (Option-cases (get key s.requests)) [
  | inl e ↦ rw (e, schedule_deadline) c
  | inr (r, e) ↦
      rw (e, schedule_deadline)
        (ground (
          arith,
          sum_by-insert outstanding key (record r { deadline_version = r.deadline_version + 1 })
              s.requests,
          sum_by-insert awaited key (record r { deadline_version = r.deadline_version + 1 })
              s.requests,
        ))
]

settles-IsCovered :
    (s : GenerationState) (key : RequestKey) (r : OwnedRequest) (grant : ℕ)
    → get key s.requests ≡ some r
    → IsCovered s
    → IsCovered (record (settle s key r grant) { available_credits = s.available_credits + grant })
unfolding settle settle_totals observe
settles-IsCovered s key r grant found c = ground (
  arith,
  sum_by-insert outstanding key (observe r) s.requests,
  sum_by-insert awaited key (observe r) s.requests,
)

overflow-IsCovered :
    (s : GenerationState) (key : RequestKey) (r : OwnedRequest) (grant : ℕ)
    → get key s.requests ≡ some r
    → IsCovered s
    → IsCovered (record (settle s key r grant) { unhealthy = true })
unfolding settle settle_totals observe
overflow-IsCovered s key r grant found c =
    ground (arith, sum_by-insert awaited key (observe r) s.requests)

reserve-IsCovered :
    (s : GenerationState) (payload_bytes credit_charge id : ℕ)
    → rejection s payload_bytes credit_charge ≡ none
    → s.next_message_id ≡ some id
    → IsFresh s
    → IsCovered s
    → IsCovered (reserve s id payload_bytes credit_charge)
unfolding reserve rejection new_request
reserve-IsCovered s payload_bytes credit_charge id passed e fresh c = ground (
  arith,
  fresh id e,
  sum_by-insert outstanding (record { generation = s.generation; message_id = id })
      (new_request (record { generation = s.generation; message_id = id }) payload_bytes
        credit_charge (credit_request_of s credit_charge - credit_charge))
      s.requests,
  sum_by-insert awaited (record { generation = s.generation; message_id = id })
      (new_request (record { generation = s.generation; message_id = id }) payload_bytes
        credit_charge (credit_request_of s credit_charge - credit_charge))
      s.requests,
)

give_back-IsCovered :
    (s : GenerationState) (key : RequestKey) (r : OwnedRequest) {t : GenerationState}
    → get key s.requests ≡ some r
    → return_credits s key r ≡ some t
    → IsCovered s
    → IsCovered t
give_back-IsCovered s key r found e c = elim (return_credits-cases s key r e) [
  | inl (_, same) ↦ rw same c
  | inr (owed, _, same) ↦ rw same (
      ground (
        arith,
        sum_by-insert outstanding key (record r { credit_obligation = false }) s.requests,
        sum_by-insert awaited key (record r { credit_obligation = false }) s.requests,
      ))
]

conclude-IsCovered :
    (s : GenerationState) (key : RequestKey) (r : OwnedRequest) (l : RequestRecord)
    (previous : ResponseProgress)
    → get key s.requests ≡ some r
    → r.credit_response_seen ≡ true
    → IsCovered s
    → IsCovered (conclude s key (record r { lifecycle = l }) previous)
unfolding conclude
conclude-IsCovered s key r l previous found seen c =
    let v = or_else (checked_add u64_max r.deadline_version 1) r.deadline_version in
    let settled = record r { lifecycle = l; credit_obligation = false; deadline_version = v } in
    ground (
      arith,
      sum_by-insert outstanding key settled s.requests,
      sum_by-insert awaited key settled s.requests,
    )

Move-IsCovered :
    {credited : Bool} {s t : GenerationState}
    → Move credited s t
    → IsFresh s
    → IsCovered s
    → IsCovered t
unfolding record_async
Move-IsCovered {s} (touch key r cs found l) f c =
    IsCovered-write s _ key r _ c found refl refl refl refl refl refl refl
Move-IsCovered {s} (schedule key at kind) f c = schedule_deadline-IsCovered s key at kind c
Move-IsCovered {s} (free_payload key) f c = release_payload-IsCovered s key c
Move-IsCovered {s} (free_slot key) f c = release_admission-IsCovered s key c
Move-IsCovered {s} (give_back key r found e) f c = give_back-IsCovered s key r found e c
Move-IsCovered {s} (Move.admit payload_bytes credit_charge id passed e) f c =
    reserve-IsCovered s payload_bytes credit_charge id passed e f c
Move-IsCovered {s} (settles key r grant available found u e by_response) f c =
    let d = settles-IsCovered s key r grant found c in ground arith
Move-IsCovered {s} (overflow key r grant found u by_response) f c =
    overflow-IsCovered s key r grant found c
Move-IsCovered {s} (interim key r id found u free same) f c =
    IsCovered-write s _ key r _ c found refl refl refl refl refl refl refl
Move-IsCovered {s} (concludes key r found u seen) f c =
    conclude-IsCovered s key r (Reducer.reduce r.lifecycle (RequestEvent.final_response key)).0
      r.lifecycle.progress found seen c
Move-IsCovered {s} (pop d ds e) f c = ground arith
Move-IsCovered {s} degrade f c = ground arith

Moves-IsCovered :
    {credited : Bool} {s t : GenerationState}
    → Moves credited s t
    → Identity s
    → IsCovered s
    → IsCovered t
Moves-IsCovered here v c = c
Moves-IsCovered (next {t = t} p m) v c =
    Move-IsCovered m (Identity-IsFresh t (Moves-Identity p v)) (Moves-IsCovered p v c)

new-IsCovered :
    (g id credits target : ℕ) (limits : AdmissionLimits) (timeout : ℕ)
    → IsCovered (Data.new g id credits target limits timeout)
unfolding Data.new
new-IsCovered g id credits target limits timeout = ground arith

-- After any history of a new generation, the extra credits that count as pending are at most what
-- the unanswered requests have asked for; and unless the generation is unhealthy, the total of its
-- credits is at most what is available and what the unanswered requests took. A request counts until
-- its first response or until its credits are given back.
pub run-IsCovered :
    (g id credits target : ℕ) (limits : AdmissionLimits) (timeout : ℕ) (es : List OwnerEvent)
    → IsCovered (run (Data.new g id credits target limits timeout) es).0
run-IsCovered g id credits target limits timeout es =
    Moves-IsCovered (run-Moves (Data.new g id credits target limits timeout) es)
      (new-Identity g id credits target limits timeout)
      (new-IsCovered g id credits target limits timeout)
