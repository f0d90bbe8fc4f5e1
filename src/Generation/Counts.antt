-- ===== src/Generation/Counts.antt =====
-- The admission limits of crates/smb/src/runtime/state.rs: what the counters count.
use smb_rs.Prelude.{
  Bool, ℕ, ◌+◌, ◌-◌, ◌≤◌, ◌≡◌, refl, false, none, some, if◌then◌else◌, get, insert, sum_by,
  sum_by-insert, measure-le-sum_by, arith, Option-cases, inl, inr,
}
use smb_rs.Reducer.{RequestKey, request_key_Eq}
use smb_rs.Clock.{MonotonicTime}
use smb_rs.Generation.Data.{GenerationState, OwnedRequest, DeadlineKind}
use smb_rs.Generation.Ledger.{schedule_deadline, release_payload, release_admission, return_credits}
use smb_rs.Generation.Handlers.{rejection, reserve, new_request, credit_request_of}
use smb_rs.Generation.Response.{settle, settle_totals, observe, record_async, conclude}
use smb_rs.Generation.Moves.{
  Move, touch, schedule, free_payload, free_slot, give_back, settles, overflow, interim, concludes,
  pop, degrade,
}

abbrev pub slot : OwnedRequest → ℕ
slot r = if r.admission_held then 1 else 0

abbrev pub held_bytes : OwnedRequest → ℕ
held_bytes r = if r.payload_held then r.payload_bytes else 0

-- The counters are the sums over the requests that still hold a slot or a payload, and lie within
-- the limits.
pub record Counts (s : GenerationState) : Type 0 where
  pub slots : sum_by slot s.requests ≡ s.admitted_operations
  pub bytes : sum_by held_bytes s.requests ≡ s.retained_payload_bytes
  pub slots_limit : s.admitted_operations ≤ s.limits.max_operations
  pub bytes_limit : s.retained_payload_bytes ≤ s.limits.max_payload_bytes

-- A write that leaves the slot and the payload of a request alone.
Counts-write :
    (s t : GenerationState) (key : RequestKey) (r r' : OwnedRequest)
    → Counts s
    → get key s.requests ≡ some r
    → t.requests ≡ insert key r' s.requests
    → slot r' ≡ slot r
    → held_bytes r' ≡ held_bytes r
    → t.admitted_operations ≡ s.admitted_operations
    → t.retained_payload_bytes ≡ s.retained_payload_bytes
    → t.limits ≡ s.limits
    → Counts t
Counts-write s t key r r' c found w e f a b l =
    ground (arith, sum_by-insert slot key r' s.requests, sum_by-insert held_bytes key r' s.requests)

release_payload-Counts :
    (s : GenerationState) (key : RequestKey) → Counts s → Counts (release_payload s key)
unfolding release_payload
release_payload-Counts s key c = elim (Option-cases (get key s.requests)) [
  | inl e ↦ rw (e, release_payload) c
  | inr (r, e) ↦
      rw (e, release_payload)
        (ground (
          arith,
          sum_by-insert slot key (record r { payload_held = false }) s.requests,
          sum_by-insert held_bytes key (record r { payload_held = false }) s.requests,
          measure-le-sum_by held_bytes key s.requests,
        ))
]

release_admission-Counts :
    (s : GenerationState) (key : RequestKey) → Counts s → Counts (release_admission s key)
unfolding release_admission
release_admission-Counts s key c = elim (Option-cases (get key s.requests)) [
  | inl e ↦ rw (e, release_admission) c
  | inr (r, e) ↦
      rw (e, release_admission)
        (ground (
          arith,
          sum_by-insert slot key (record r { admission_held = false }) s.requests,
          sum_by-insert held_bytes key (record r { admission_held = false }) s.requests,
          measure-le-sum_by slot key s.requests,
        ))
]

schedule_deadline-Counts :
    (s : GenerationState) (key : RequestKey) (at : MonotonicTime) (kind : DeadlineKind)
    → Counts s
    → Counts (schedule_deadline s key at kind).0
unfolding schedule_deadline
schedule_deadline-Counts s key at kind c = elim (Option-cases (get key s.requests)) [
  | inl e ↦ rw (e, schedule_deadline) c
  | inr (r, e) ↦
      rw (e, schedule_deadline)
        (ground (
          arith,
          sum_by-insert slot key (record r { deadline_version = r.deadline_version + 1 })
              s.requests,
          sum_by-insert held_bytes key (record r { deadline_version = r.deadline_version + 1 })
              s.requests,
        ))
]

settle-Counts :
    (s : GenerationState) (key : RequestKey) (r : OwnedRequest) (grant : ℕ)
    → get key s.requests ≡ some r
    → Counts s
    → Counts (settle s key r grant)
unfolding settle settle_totals observe
settle-Counts s key r grant found c = ground (
  arith,
  sum_by-insert slot key (observe r) s.requests,
  sum_by-insert held_bytes key (observe r) s.requests,
  measure-le-sum_by held_bytes key s.requests,
)

-- The message ids that are still to be given out have no request.
abbrev pub IsFresh : GenerationState → Type 0
IsFresh s =
    (id : ℕ)
    → s.next_message_id ≡ some id
    → get (record { generation = s.generation; message_id = id }) s.requests ≡ none

reserve-Counts :
    (s : GenerationState) (payload_bytes credit_charge id : ℕ)
    → rejection s payload_bytes credit_charge ≡ none
    → s.next_message_id ≡ some id
    → IsFresh s
    → Counts s
    → Counts (reserve s id payload_bytes credit_charge)
unfolding reserve rejection new_request
reserve-Counts s payload_bytes credit_charge id passed e fresh c = ground (
  arith,
  fresh id e,
  sum_by-insert slot (record { generation = s.generation; message_id = id })
      (new_request (record { generation = s.generation; message_id = id }) payload_bytes
        credit_charge (credit_request_of s credit_charge - credit_charge))
      s.requests,
  sum_by-insert held_bytes (record { generation = s.generation; message_id = id })
      (new_request (record { generation = s.generation; message_id = id }) payload_bytes
        credit_charge (credit_request_of s credit_charge - credit_charge))
      s.requests,
)

pub Move-Counts :
    {credited : Bool} {s t : GenerationState} → Move credited s t → IsFresh s → Counts s → Counts t
unfolding return_credits record_async conclude
Move-Counts {s} (touch key r cs found l) f c =
    Counts-write s _ key r _ c found refl refl refl refl refl refl
Move-Counts {s} (schedule key at kind) f c = schedule_deadline-Counts s key at kind c
Move-Counts {s} (free_payload key) f c = release_payload-Counts s key c
Move-Counts {s} (free_slot key) f c = release_admission-Counts s key c
Move-Counts {s} {t} (give_back key r found e) f c = ground (
  arith,
  sum_by-insert slot key (record r { credit_obligation = false }) s.requests,
  sum_by-insert held_bytes key (record r { credit_obligation = false }) s.requests,
)
Move-Counts {s} (Move.admit payload_bytes credit_charge id passed e) f c =
    reserve-Counts s payload_bytes credit_charge id passed e f c
Move-Counts {s} (settles key r grant available found u e by_response) f c =
    let d = settle-Counts s key r grant found c in ground arith
Move-Counts {s} (overflow key r grant found u by_response) f c =
    let d = settle-Counts s key r grant found c in ground arith
Move-Counts {s} (interim key r id found u free same) f c =
    Counts-write s _ key r _ c found refl refl refl refl refl refl
Move-Counts {s} (concludes key r found u seen) f c =
    Counts-write s _ key r _ c found refl refl refl refl refl refl
Move-Counts {s} (pop d ds e) f c = ground arith
Move-Counts {s} degrade f c = ground arith
