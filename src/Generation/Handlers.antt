-- ===== src/Generation/Handlers.antt =====
-- crates/smb/src/runtime/state.rs: admission, send progress, cancellation, failed preparation,
-- recovery hints and disconnection.
use smb_rs.Prelude.{
  ℕ, ◌+◌, ◌-◌, min, Bool, true, false, not, Option, none, some, List, [], ◌∷◌, ◌++◌, if◌then◌else◌,
  get, insert, keys, ltb, leb, ◌==◌, checked_add, saturating_add, u16_max, u32_max, u64_max,
}
use smb_rs.Clock.{MonotonicTime}
use smb_rs.Clock
use smb_rs.Reducer.{
  RequestKey, request_key_Eq, RequestEvent, TerminalOutcome, NetworkFailure, RequestRecord,
  ReduceEffect, bookkeeping_only, ignored_foreign_generation, wire_committed, caller_is_open,
  publish_terminal,
}
use smb_rs.Reducer
use smb_rs.Generation.Data.{
  GenerationState, OwnedRequest, DeadlineKind, OwnerEffect, AdmissionError, PreparationPlan,
  RequestProgress, operations_exhausted, payload_bytes_exhausted, credits_exhausted,
  message_id_exhausted, invalid_credit_charge, admitted, admission_rejected,
  reservation_rolled_back, cancel_control_queued, duplicate_cancel, best_effort_wire_cancel,
  generation_unhealthy, unknown_request,
}
use smb_rs.Generation.Ledger.{
  set_request, schedule_deadline, release_payload, release_request_ownership, rollback,
}

abbrev pub Step : Type 0
Step = GenerationState × List OwnerEffect

abbrev pub foreign : RequestKey → List OwnerEffect
foreign key = OwnerEffect.request key ignored_foreign_generation ∷ []

-- `self.retained_payload_bytes.checked_add(payload).is_none_or(|total| total > max)`
abbrev pub exceeds : Option ℕ → ℕ → Bool
exceeds none limit = true
exceeds (some total) limit = ltb limit total

unfoldable pub rejection :
    GenerationState → (payload_bytes credit_charge : ℕ) → Option AdmissionError
rejection s payload_bytes credit_charge =
    if credit_charge == 0
    then some invalid_credit_charge
    else if leb s.limits.max_operations s.admitted_operations
    then some operations_exhausted
    else if exceeds (checked_add u64_max s.retained_payload_bytes payload_bytes)
        s.limits.max_payload_bytes
    then some payload_bytes_exhausted
    else if ltb s.available_credits credit_charge
    then some (credits_exhausted s.available_credits credit_charge)
    else elim s.next_message_id [ none ↦ some message_id_exhausted | some id ↦ none ]

-- The credits to ask for: the charge, and what the total lacks of the target, in a `u16`.
unfoldable pub credit_request_of : GenerationState → ℕ → ℕ
credit_request_of s credit_charge =
    let projected_total = saturating_add u32_max s.total_credits s.pending_extra_credits in
    min (saturating_add u32_max credit_charge (s.target_credits - projected_total)) u16_max

unfoldable pub new_request : RequestKey → (payload_bytes credit_charge extra : ℕ) → OwnedRequest
new_request key payload_bytes credit_charge extra = record {
  lifecycle = Reducer.new key;
  payload_bytes = payload_bytes;
  credit_charge = credit_charge;
  requested_extra_credits = extra;
  credit_response_seen = false;
  admission_held = true;
  payload_held = true;
  credit_obligation = true;
  cancel_seen = false;
  deadline_version = 0;
}

-- The state after the reservation, before the caller's deadline is scheduled.
unfoldable pub reserve :
    GenerationState → (message_id payload_bytes credit_charge : ℕ) → GenerationState
reserve s message_id payload_bytes credit_charge =
    let extra = credit_request_of s credit_charge - credit_charge in
    let key : RequestKey = record { generation = s.generation; message_id = message_id } in
    record s {
      next_message_id = checked_add u64_max message_id credit_charge;
      available_credits = s.available_credits - credit_charge;
      pending_extra_credits = saturating_add u32_max s.pending_extra_credits extra;
      admitted_operations = s.admitted_operations + 1;
      retained_payload_bytes = s.retained_payload_bytes + payload_bytes;
      requests = insert key (new_request key payload_bytes credit_charge extra) s.requests;
    }

unfoldable pub schedule_caller :
    GenerationState → RequestKey → Option MonotonicTime → GenerationState
schedule_caller s key none = s
schedule_caller s key (some deadline) = (schedule_deadline s key deadline DeadlineKind.caller).0

-- Past the checks, with the next message id at hand.
unfoldable pub admit_as :
    GenerationState
    → ℕ
    → (payload_bytes credit_charge : ℕ) → Option MonotonicTime
    → GenerationState × OwnerEffect
admit_as s message_id payload_bytes credit_charge caller_deadline =
    let key : RequestKey = record { generation = s.generation; message_id = message_id } in
    let plan : PreparationPlan = record {
      key = key;
      payload_bytes = payload_bytes;
      credit_charge = credit_charge;
      credit_request = credit_request_of s credit_charge;
      caller_deadline = caller_deadline;
    } in
    (
      schedule_caller (reserve s message_id payload_bytes credit_charge) key caller_deadline,
      admitted plan,
    )

unfoldable pub admit :
    GenerationState
    → (payload_bytes credit_charge : ℕ) → Option MonotonicTime
    → GenerationState × OwnerEffect
admit s payload_bytes credit_charge caller_deadline =
    elim (rejection s payload_bytes credit_charge) [
      | some error ↦ (s, admission_rejected error)
      | none ↦ elim s.next_message_id [
        | none ↦ (s, admission_rejected message_id_exhausted)
        | some id ↦ admit_as s id payload_bytes credit_charge caller_deadline
      ]
    ]

abbrev pub lifecycle_event : RequestProgress → RequestEvent
lifecycle_event RequestProgress.queued = RequestEvent.queue
lifecycle_event (RequestProgress.write_progress bytes) = RequestEvent.write_progress bytes
lifecycle_event RequestProgress.write_complete = RequestEvent.write_complete

abbrev pub completes_write : RequestProgress → Bool
completes_write RequestProgress.write_complete = true
completes_write _ = false

unfoldable pub request_event : GenerationState → RequestKey → RequestProgress → Step
request_event s key event =
    if not (key.generation == s.generation) then (s, foreign key) else elim (get key s.requests) [
      | none ↦ (s, unknown_request key ∷ [])
      | some r ↦
          let (lifecycle, effect) = Reducer.reduce r.lifecycle (lifecycle_event event) in
          let s' = set_request s key (record r { lifecycle = lifecycle }) in
          (
            if completes_write event then release_payload s' key else s',
            OwnerEffect.request key effect ∷ [],
          )
    ]

-- The uncommitted end of a cancel or a deadline.
unfoldable pub roll_back : GenerationState → RequestKey → Step
roll_back s key =
    let (s', done) = rollback s key in (s', if done then reservation_rolled_back key ∷ [] else [])

-- The committed end: the tombstone's drain deadline.
unfoldable pub drain : GenerationState → RequestKey → MonotonicTime → Step
drain s key now =
    let (s', done) =
      schedule_deadline s key (Clock.saturating_add now s.tombstone_drain_timeout)
        DeadlineKind.tombstone in
    (s', best_effort_wire_cancel key ∷ (if done then [] else generation_unhealthy key ∷ []))

unfoldable pub cancel : GenerationState → RequestKey → MonotonicTime → Step
cancel s key now =
    if not (key.generation == s.generation) then (s, foreign key) else elim (get key s.requests) [
      | none ↦ (s, unknown_request key ∷ [])
      | some r ↦
          if r.cancel_seen
          then (s, duplicate_cancel key ∷ [])
          else if not (caller_is_open r.lifecycle)
          then (set_request s key (record r { cancel_seen = true }), duplicate_cancel key ∷ [])
          else let (lifecycle, effect) = Reducer.reduce r.lifecycle RequestEvent.cancel in
            let s' = set_request s key (record r { lifecycle = lifecycle; cancel_seen = true }) in
            let (s'', effects) =
              if wire_committed r.lifecycle then drain s' key now else roll_back s' key in
            (s'', cancel_control_queued key ∷ OwnerEffect.request key effect ∷ effects)
    ]

unfoldable pub prepare_failed : GenerationState → RequestKey → Step
prepare_failed s key =
    if not (key.generation == s.generation) then (s, foreign key) else elim (get key s.requests) [
      | none ↦ (s, unknown_request key ∷ [])
      | some r ↦
          if wire_committed r.lifecycle
          then (s, OwnerEffect.request key bookkeeping_only ∷ [])
          else let (lifecycle, effect) =
              publish_terminal r.lifecycle TerminalOutcome.preparation_failed in
            let (s', effects) =
              roll_back (set_request s key (record r { lifecycle = lifecycle })) key in
            (s', OwnerEffect.request key effect ∷ effects)
    ]

unfoldable pub recovery_hint : GenerationState → RequestKey → Step
recovery_hint s key =
    if not (key.generation == s.generation) then (s, foreign key) else elim (get key s.requests) [
      | none ↦ (s, unknown_request key ∷ [])
      | some r ↦
          let (lifecycle, effect) = Reducer.reduce r.lifecycle (RequestEvent.recovery_hint key) in
          (
            release_request_ownership (set_request s key (record r { lifecycle = lifecycle })) key,
            OwnerEffect.request key effect ∷ [],
          )
    ]

unfoldable pub disconnect_one : GenerationState → Option NetworkFailure → RequestKey → Step
disconnect_one s network key = elim (get key s.requests) [
  | none ↦ (release_request_ownership s key, [])
  | some r ↦
      let (lifecycle, effect) = Reducer.reduce r.lifecycle (RequestEvent.disconnect network) in
      (
        release_request_ownership (set_request s key (record r { lifecycle = lifecycle })) key,
        OwnerEffect.request key effect ∷ [],
      )
]

-- The loop of `disconnect` over the keys that it has collected.
unfoldable pub disconnect_all : GenerationState → Option NetworkFailure → List RequestKey → Step
disconnect_all s network [] = (s, [])
disconnect_all s network (key ∷ rest) =
    let (s', effects) = disconnect_one s network key in
    let (last, more) = disconnect_all s' network rest in (last, effects ++ more)

unfoldable pub disconnect : GenerationState → Option NetworkFailure → Step
disconnect s network = disconnect_all s network (keys s.requests)
