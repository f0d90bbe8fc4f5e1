-- ===== src/Generation/Ledger.antt =====
-- crates/smb/src/runtime/state.rs: the steps that the handlers share. They reserve and give back
-- admission slots, payload bytes and credits, and schedule deadlines.
use smb_rs.Prelude.{
  ◌-◌, Bool, true, false, not, ◌&&◌, Option, none, some, if◌then◌else◌, get, insert, checked_add,
  saturating_add, u32_max, u64_max,
}
use smb_rs.Clock.{MonotonicTime}
use smb_rs.Reducer.{RequestKey, request_key_Eq}
use smb_rs.Generation.Data.{GenerationState, OwnedRequest, DeadlineKind, DeadlineEntry, push}

-- A write through `self.requests.get_mut(&key)`.
abbrev pub set_request : GenerationState → RequestKey → OwnedRequest → GenerationState
set_request s key r = record s { requests = insert key r s.requests }

unfoldable pub schedule_deadline :
    GenerationState → RequestKey → MonotonicTime → DeadlineKind → GenerationState × Bool
schedule_deadline s key at kind = elim (get key s.requests) [
  | none ↦ (s, false)
  | some r ↦ elim (checked_add u64_max r.deadline_version 1) [
    | none ↦ (record s { unhealthy = true }, false)
    | some version ↦
        let entry : DeadlineEntry = record {
          at = at;
          sequence = s.next_deadline_sequence;
          key = key;
          kind = kind;
          version = version;
        } in
        (
          record s {
            requests = insert key (record r { deadline_version = version }) s.requests;
            next_deadline_sequence = saturating_add u64_max s.next_deadline_sequence 1;
            deadlines = push entry s.deadlines;
          },
          true,
        )
  ]
]

-- The subtraction is exact while the request's bytes are part of the total.
unfoldable pub release_payload : GenerationState → RequestKey → GenerationState
release_payload s key = elim (get key s.requests) [
  | none ↦ s
  | some r ↦
      if r.payload_held
      then record s {
        retained_payload_bytes = s.retained_payload_bytes - r.payload_bytes;
        requests = insert key (record r { payload_held = false }) s.requests;
      }
      else s
]

unfoldable pub release_admission : GenerationState → RequestKey → GenerationState
release_admission s key = elim (get key s.requests) [
  | none ↦ s
  | some r ↦
      if r.admission_held
      then record s {
        admitted_operations = s.admitted_operations - 1;
        requests = insert key (record r { admission_held = false }) s.requests;
      }
      else s
]

unfoldable pub release_request_ownership : GenerationState → RequestKey → GenerationState
release_request_ownership s key = release_admission (release_payload s key) key

-- The credits of a request that never reached the wire.
unfoldable pub return_credits : GenerationState → RequestKey → OwnedRequest → Option GenerationState
return_credits s key r =
    if r.credit_obligation
    then elim (checked_add u32_max s.available_credits r.credit_charge) [
      | none ↦ none
      | some available ↦ some (record s {
        available_credits = available;
        pending_extra_credits = s.pending_extra_credits - r.requested_extra_credits;
        requests = insert key (record r { credit_obligation = false }) s.requests;
      })
    ]
    else some s

unfoldable pub rollback : GenerationState → RequestKey → GenerationState × Bool
rollback s key = elim (get key s.requests) [
  | none ↦ (s, false)
  | some r ↦
      if not r.credit_obligation && not r.admission_held
      then (s, false)
      else elim (return_credits s key r) [
        | none ↦ (s, false)
        | some s' ↦ (release_request_ownership s' key, true)
      ]
]
