-- ===== src/Generation/Async.antt =====
-- The async index of crates/smb/src/runtime/state.rs against the requests' own progress.
use smb_rs.Prelude.{
  Bool, ℕ, ◌+◌, ◌-◌, ◌≡◌, refl, inl, inr, false, Option, none, some, List, ◌↔◌, get, insert,
  get-insert, get-remove, arith, Option-cases, Assoc, nat_eq, checked_add, u64_max,
}
use smb_rs.Clock.{MonotonicTime}
use smb_rs.Reducer.{
  RequestKey, request_key_Eq, request_key_eq, request_key_iff, RequestRecord, RequestEvent,
  ResponseProgress, async_pending, no_response, final, is_final, publish_terminal,
  observe_response_commitment,
}
use smb_rs.Reducer
use smb_rs.Generation.Data.{
  GenerationState, OwnedRequest, OwnerEvent, DeadlineKind, AdmissionLimits, ResponseEvent,
}
use smb_rs.Generation.Data
use smb_rs.Generation.Ledger.{schedule_deadline, release_payload, release_admission, return_credits}
use smb_rs.Generation.Handlers.{reserve, new_request, credit_request_of}
use smb_rs.Generation.Response.{
  settle, settle_totals, observe, record_async, conclude, conflict, changed, or_else,
}
use smb_rs.Generation.Owner.{reduce, run}
use smb_rs.Generation.Moves.{
  Touch, by_event, by_publish, untouched, Move, touch, schedule, free_payload, free_slot, give_back,
  settles, overflow, interim, concludes, pop, degrade, Moves, here, next, answered,
}
use smb_rs.Generation.Evolution.{return_credits-cases}
use smb_rs.Generation.Identity.{Identity, Identity-IsFresh, Moves-Identity, new-Identity, Inv}
use smb_rs.Generation.Paths.{reduce-Moves, run-Moves}

abbrev pub progress_of : Option OwnedRequest → Option ResponseProgress
progress_of none = none
progress_of (some r) = some r.lifecycle.progress

abbrev pub progress_at : GenerationState → RequestKey → Option ResponseProgress
progress_at s k = progress_of (get k s.requests)

-- The index leads from an async id to a request exactly when that request is pending under the id.
abbrev pub IsIndexed : GenerationState → Type 0
IsIndexed s =
    (a : ℕ) (k : RequestKey)
    → (get a s.async_index ≡ some k) ↔ (progress_at s k ≡ some (async_pending a))

SameProgress : GenerationState → GenerationState → Type 0
SameProgress s t =
    (t.async_index ≡ s.async_index) × ((k : RequestKey) → progress_at t k ≡ progress_at s k)

progress_at-write :
    (m : Assoc RequestKey OwnedRequest) (key k : RequestKey) (r r' : OwnedRequest)
    → get key m ≡ some r
    → r'.lifecycle.progress ≡ r.lifecycle.progress
    → progress_of (get k (insert key r' m)) ≡ progress_of (get k m)
progress_at-write m key k r r' found same =
    ground (arith, get-insert key k r' m, request_key_iff key k)

Touch-progress : {l l' : RequestRecord} → Touch l l' → l'.progress ≡ l.progress
unfolding Reducer.reduce publish_terminal
Touch-progress {l} (by_event e h) = ground arith
Touch-progress {l} (by_publish o) = ground arith
Touch-progress {l} untouched = refl

schedule_deadline-progress :
    (s : GenerationState) (key : RequestKey) (at : MonotonicTime) (kind : DeadlineKind)
    → SameProgress s (schedule_deadline s key at kind).0
unfolding schedule_deadline SameProgress
schedule_deadline-progress s key at kind = (
  ground arith,
  λ k. elim (Option-cases (get key s.requests)) [
    | inl e ↦ ground arith
    | inr (r, e) ↦ ground (
      arith,
      progress_at-write s.requests key k r (record r { deadline_version = r.deadline_version + 1 })
          e refl,
    )
  ],
)

release_payload-progress :
    (s : GenerationState) (key : RequestKey) → SameProgress s (release_payload s key)
unfolding release_payload SameProgress
release_payload-progress s key = (
  ground arith,
  λ k. elim (Option-cases (get key s.requests)) [
    | inl e ↦ ground arith
    | inr (r, e) ↦
        ground
          (arith, progress_at-write s.requests key k r (record r { payload_held = false }) e refl)
  ],
)

release_admission-progress :
    (s : GenerationState) (key : RequestKey) → SameProgress s (release_admission s key)
unfolding release_admission SameProgress
release_admission-progress s key = (
  ground arith,
  λ k. elim (Option-cases (get key s.requests)) [
    | inl e ↦ ground arith
    | inr (r, e) ↦
        ground
          (arith, progress_at-write s.requests key k r (record r { admission_held = false }) e refl)
  ],
)

return_credits-progress :
    (s : GenerationState) (key : RequestKey) (r : OwnedRequest) {t : GenerationState}
    → get key s.requests ≡ some r
    → return_credits s key r ≡ some t
    → SameProgress s t
unfolding SameProgress
return_credits-progress s key r found e = elim (return_credits-cases s key r e) [
  | inl (_, same) ↦ rw same (refl, λ k. refl)
  | inr (_, _, same) ↦ rw same (
    refl,
    λ k. progress_at-write s.requests key k r (record r { credit_obligation = false }) found refl,
  )
]

settle-progress :
    (s : GenerationState) (key : RequestKey) (r : OwnedRequest) (grant : ℕ)
    → get key s.requests ≡ some r
    → SameProgress s (settle s key r grant)
unfolding SameProgress settle settle_totals observe observe_response_commitment
settle-progress s key r grant found =
    (refl, λ k. progress_at-write s.requests key k r (observe r) found refl)

SameProgress-IsIndexed : (s t : GenerationState) → SameProgress s t → IsIndexed s → IsIndexed t
unfolding SameProgress
SameProgress-IsIndexed s t (index, progress) v a k = rw (index, progress k) (v a k)

-- A request without a response is under no async id.
reserve-IsIndexed :
    (s : GenerationState) (payload_bytes credit_charge id : ℕ)
    → get (record { generation = s.generation; message_id = id }) s.requests ≡ none
    → IsIndexed s
    → IsIndexed (reserve s id payload_bytes credit_charge)
unfolding reserve new_request Reducer.new
reserve-IsIndexed s payload_bytes credit_charge id fresh v a k =
    let key : RequestKey = record { generation = s.generation; message_id = id } in
    let added =
      new_request key payload_bytes credit_charge
        (credit_request_of s credit_charge - credit_charge) in
    ground (arith, v a k, get-insert key k added s.requests, request_key_iff key k)

pending-progress :
    (r : OwnedRequest) (key : RequestKey) (id : ℕ)
    → r.lifecycle.key ≡ key
    → is_final r.lifecycle.progress ≡ false
    → (answered r (RequestEvent.pending key id)).lifecycle.progress ≡ async_pending id
unfolding Reducer.reduce
pending-progress r key id own u = ground arith

final-progress :
    (r : OwnedRequest) (key : RequestKey)
    → r.lifecycle.key ≡ key
    → (answered r (RequestEvent.final_response key)).lifecycle.progress ≡ final
unfolding Reducer.reduce
final-progress r key own = ground arith

interim-IsIndexed :
    (s : GenerationState) (key : RequestKey) (r r' : OwnedRequest) (id : ℕ)
    → get key s.requests ≡ some r
    → conflict (ResponseEvent.pending id) s.async_index key ≡ none
    → changed (ResponseEvent.pending id) r.lifecycle.progress ≡ none
    → r'.lifecycle.progress ≡ async_pending id
    → IsIndexed s
    → IsIndexed (record_async s key r' id)
unfolding record_async
interim-IsIndexed s key r r' id found free same now v a k = ground (
  arith,
  v a k,
  v a key,
  v id k,
  get-insert id a key s.async_index,
  get-insert key k r' s.requests,
  request_key_iff key k,
)

conclude-case :
    (s : GenerationState) (key : RequestKey) (r r' : OwnedRequest) (previous : ResponseProgress)
    → get key s.requests ≡ some r
    → r.lifecycle.progress ≡ previous
    → r'.lifecycle.progress ≡ final
    → IsIndexed s
    → IsIndexed (conclude s key r' previous)
unfolding conclude
conclude-case s key r r' (async_pending id) found was now v a k =
    let r'' = record r' {
      credit_obligation = false;
      deadline_version = or_else (checked_add u64_max r'.deadline_version 1) r'.deadline_version;
    } in
    ground (
      arith,
      v a k,
      v a key,
      v id k,
      v id key,
      get-remove id a s.async_index,
      get-insert key k r'' s.requests,
      request_key_iff key k,
    )
conclude-case s key r r' _ found was now v a k =
    let r'' = record r' {
      credit_obligation = false;
      deadline_version = or_else (checked_add u64_max r'.deadline_version 1) r'.deadline_version;
    } in
    ground (arith, v a k, v a key, get-insert key k r'' s.requests, request_key_iff key k)

conclude-IsIndexed :
    (s : GenerationState) (key : RequestKey) (r r' : OwnedRequest)
    → get key s.requests ≡ some r
    → r'.lifecycle.progress ≡ final
    → IsIndexed s
    → IsIndexed (conclude s key r' r.lifecycle.progress)
conclude-IsIndexed s key r r' found now v a k =
    conclude-case s key r r' r.lifecycle.progress found refl now v a k

new-IsIndexed :
    (g id credits target : ℕ) (limits : AdmissionLimits) (timeout : ℕ)
    → IsIndexed (Data.new g id credits target limits timeout)
unfolding Data.new get
new-IsIndexed g id credits target limits timeout a k = (λ h. cc, λ h. cc)

Move-IsIndexed :
    {credited : Bool} {s t : GenerationState}
    → Move credited s t
    → Identity s
    → IsIndexed s
    → IsIndexed t
unfolding SameProgress
Move-IsIndexed {s} {t} (touch key r c found l) d v =
    SameProgress-IsIndexed s t
      (refl, λ k. progress_at-write s.requests key k r _ found (Touch-progress l)) v
Move-IsIndexed {s} {t} (schedule key at kind) d v =
    SameProgress-IsIndexed s t (schedule_deadline-progress s key at kind) v
Move-IsIndexed {s} {t} (free_payload key) d v =
    SameProgress-IsIndexed s t (release_payload-progress s key) v
Move-IsIndexed {s} {t} (free_slot key) d v =
    SameProgress-IsIndexed s t (release_admission-progress s key) v
Move-IsIndexed {s} {t} (give_back key r found e) d v =
    SameProgress-IsIndexed s t (return_credits-progress s key r found e) v
Move-IsIndexed {s} (Move.admit payload_bytes credit_charge id passed e) d v =
    reserve-IsIndexed s payload_bytes credit_charge id (Identity-IsFresh s d id e) v
Move-IsIndexed {s} {t} (settles key r grant available found u e by_response) d v =
    SameProgress-IsIndexed s t (settle-progress s key r grant found) v
Move-IsIndexed {s} {t} (overflow key r grant found u by_response) d v =
    SameProgress-IsIndexed s t (settle-progress s key r grant found) v
Move-IsIndexed {s} (interim key r id found u free same) d v =
    interim-IsIndexed s key r _ id found free same
      (pending-progress r key id (d.owns key r found).own_key u) v
Move-IsIndexed {s} (concludes key r found u seen) d v =
    conclude-IsIndexed s key r _ found (final-progress r key (d.owns key r found).own_key) v
Move-IsIndexed {s} {t} (pop e es h) d v = SameProgress-IsIndexed s t (refl, λ k. refl) v
Move-IsIndexed {s} {t} degrade d v = SameProgress-IsIndexed s t (refl, λ k. refl) v

Moves-IsIndexed :
    {credited : Bool} {s t : GenerationState}
    → Moves credited s t
    → Identity s
    → IsIndexed s
    → IsIndexed t
Moves-IsIndexed here d v = v
Moves-IsIndexed (next p m) d v = Move-IsIndexed m (Moves-Identity p d) (Moves-IsIndexed p d v)

-- Every event keeps the async index and the requests' progress in step.
pub reduce-IsIndexed :
    (s : GenerationState) (e : OwnerEvent) → Inv s → IsIndexed s → IsIndexed (reduce s e).0
reduce-IsIndexed s e i v = Moves-IsIndexed (reduce-Moves s e) i.identity v

-- After any history of a new generation an async id leads to a request exactly when the request is
-- pending under it.
pub run-IsIndexed :
    (g id credits target : ℕ) (limits : AdmissionLimits) (timeout : ℕ) (es : List OwnerEvent)
    → IsIndexed (run (Data.new g id credits target limits timeout) es).0
run-IsIndexed g id credits target limits timeout es =
    Moves-IsIndexed (run-Moves (Data.new g id credits target limits timeout) es)
      (new-Identity g id credits target limits timeout)
      (new-IsIndexed g id credits target limits timeout)

-- After any history of a new generation no two requests are pending under one async id.
pub pending_once :
    (g id credits target : ℕ) (limits : AdmissionLimits) (timeout : ℕ) (es : List OwnerEvent)
    (async_id : ℕ) (k j : RequestKey)
    → let s = (run (Data.new g id credits target limits timeout) es).0 in
      progress_at s k ≡ some (async_pending async_id)
      → progress_at s j ≡ some (async_pending async_id)
      → k ≡ j
pending_once g id credits target limits timeout es async_id k j p q =
    let indexed = run-IsIndexed g id credits target limits timeout es in
    ground (arith, indexed async_id k, indexed async_id j)
