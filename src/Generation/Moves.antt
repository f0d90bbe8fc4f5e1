-- ===== src/Generation/Moves.antt =====
-- The handlers of crates/smb/src/runtime/state.rs as sequences of elementary moves, over which the
-- invariants are proved once.
use smb_rs.Prelude.{ℕ, ◌≡◌, Bool, true, false, none, some, List, ◌∷◌, get, checked_add, u32_max}
use smb_rs.Reducer.{
  RequestKey, request_key_Eq, RequestRecord, RequestEvent, TerminalOutcome, publish_terminal,
  is_final,
}
use smb_rs.Reducer
use smb_rs.Clock.{MonotonicTime}
use smb_rs.Generation.Data.{
  GenerationState, OwnedRequest, DeadlineEntry, DeadlineKind, ResponseEvent,
}
use smb_rs.Generation.Ledger.{
  set_request, schedule_deadline, release_payload, release_admission, return_credits,
}
use smb_rs.Generation.Handlers.{rejection, reserve}
use smb_rs.Generation.Response.{conflict, changed, settle, record_async, conclude}

-- The events by which the handlers other than `response` change a lifecycle.
abbrev pub is_local : RequestEvent → Bool
is_local (RequestEvent.pending key async_id) = false
is_local (RequestEvent.final_response key) = false
is_local _ = true

pub data Touch (l : RequestRecord) : RequestRecord → Type 0 where
  by_event : (e : RequestEvent) → is_local e ≡ true → Touch l (Reducer.reduce l e).0
  by_publish : (o : TerminalOutcome) → Touch l (publish_terminal l o).0
  untouched : Touch l l

-- A response's event on the lifecycle of a request.
abbrev pub answered : OwnedRequest → RequestEvent → OwnedRequest
answered r e = record r { lifecycle = (Reducer.reduce r.lifecycle e).0 }

-- The moves by which a response settles credits are made only where `credited` is true.
pub data Move (credited : Bool) (s : GenerationState) : GenerationState → Type 0 where
  touch :
      (key : RequestKey) (r : OwnedRequest) {l : RequestRecord} (c : Bool)
      → get key s.requests ≡ some r
      → Touch r.lifecycle l
      → Move credited s (set_request s key (record r { lifecycle = l; cancel_seen = c }))
  schedule :
      (key : RequestKey) (at : MonotonicTime) (kind : DeadlineKind)
      → Move credited s (schedule_deadline s key at kind).0
  free_payload : (key : RequestKey) → Move credited s (release_payload s key)
  free_slot : (key : RequestKey) → Move credited s (release_admission s key)
  give_back :
      (key : RequestKey) (r : OwnedRequest) {t : GenerationState}
      → get key s.requests ≡ some r
      → return_credits s key r ≡ some t
      → Move credited s t
  admit :
      (payload_bytes credit_charge message_id : ℕ)
      → rejection s payload_bytes credit_charge ≡ none
      → s.next_message_id ≡ some message_id
      → Move credited s (reserve s message_id payload_bytes credit_charge)
  settles :
      (key : RequestKey) (r : OwnedRequest) (credit_grant available : ℕ)
      → get key s.requests ≡ some r
      → is_final r.lifecycle.progress ≡ false
      → checked_add u32_max s.available_credits credit_grant ≡ some available
      → credited ≡ true
      → Move credited s (record (settle s key r credit_grant) { available_credits = available })
  overflow :
      (key : RequestKey) (r : OwnedRequest) (credit_grant : ℕ)
      → get key s.requests ≡ some r
      → is_final r.lifecycle.progress ≡ false
      → credited ≡ true
      → Move credited s (record (settle s key r credit_grant) { unhealthy = true })
  interim :
      (key : RequestKey) (r : OwnedRequest) (async_id : ℕ)
      → get key s.requests ≡ some r
      → is_final r.lifecycle.progress ≡ false
      → conflict (ResponseEvent.pending async_id) s.async_index key ≡ none
      → changed (ResponseEvent.pending async_id) r.lifecycle.progress ≡ none
      → Move credited s
          (record_async s key (answered r (RequestEvent.pending key async_id)) async_id)
  concludes :
      (key : RequestKey) (r : OwnedRequest)
      → get key s.requests ≡ some r
      → is_final r.lifecycle.progress ≡ false
      → r.credit_response_seen ≡ true
      → Move credited s
          (conclude s key (answered r (RequestEvent.final_response key)) r.lifecycle.progress)
  pop :
      (d : DeadlineEntry) (ds : List DeadlineEntry)
      → s.deadlines ≡ d ∷ ds
      → Move credited s (record s { deadlines = ds })
  degrade : Move credited s (record s { unhealthy = true })

pub data Moves (credited : Bool) (s : GenerationState) : GenerationState → Type 0 where
  here : Moves credited s s
  next : {t u : GenerationState} → Moves credited s t → Move credited t u → Moves credited s u

pub Moves-trans :
    {credited : Bool} {s t u : GenerationState}
    → Moves credited s t
    → Moves credited t u
    → Moves credited s u
Moves-trans p here = p
Moves-trans p (next q m) = next (Moves-trans p q) m

-- The first part of a result is reached by moves.
abbrev pub From {κ} : {B : Type κ} → Bool → GenerationState → GenerationState × B → Type 0
From credited s result = Moves credited s result.0
