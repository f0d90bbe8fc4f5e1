-- ===== src/Generation/Owner.antt =====
-- crates/smb/src/runtime/state.rs, `reduce` and the queries.
use smb_rs.Prelude.{ℕ, Option, none, some, List, [], ◌∷◌, ◌++◌, get, sum_by, nat_eq}
use smb_rs.Clock.{MonotonicTime}
use smb_rs.Reducer.{RequestKey, request_key_Eq, RequestRecord, TerminalOutcome, CallerOutcome}
use smb_rs.Generation.Data.{GenerationState, OwnedRequest, OwnerEvent}
use smb_rs.Generation.Handlers.{
  Step, admit, request_event, prepare_failed, cancel, recovery_hint, disconnect,
}
use smb_rs.Generation.Response.{response}
use smb_rs.Generation.Deadlines.{advance_time}

unfoldable pub reduce : GenerationState → OwnerEvent → Step
reduce s (OwnerEvent.admit payload_bytes credit_charge caller_deadline) =
    let (s', effect) = admit s payload_bytes credit_charge caller_deadline in (s', effect ∷ [])
reduce s (OwnerEvent.request key event) = request_event s key event
reduce s (OwnerEvent.prepare_failed key) = prepare_failed s key
reduce s (OwnerEvent.cancel key now) = cancel s key now
reduce s (OwnerEvent.response key event credit_grant) = response s key event credit_grant
reduce s (OwnerEvent.recovery_hint key) = recovery_hint s key
reduce s (OwnerEvent.advance_time now) = advance_time s now
reduce s (OwnerEvent.disconnect network) = disconnect s network

-- A history of events on one generation.
unfoldable pub run : GenerationState → List OwnerEvent → Step
run s [] = (s, [])
run s (e ∷ es) =
    let (s', effects) = reduce s e in let (last, more) = run s' es in (last, effects ++ more)

unfoldable pub request : GenerationState → RequestKey → Option RequestRecord
request s key = elim (get key s.requests) [ none ↦ none | some r ↦ some r.lifecycle ]

unfoldable pub request_for_async_id : GenerationState → ℕ → Option RequestKey
request_for_async_id s async_id = get async_id s.async_index

unfoldable pub next_deadline : GenerationState → Option MonotonicTime
next_deadline s = elim s.deadlines [ [] ↦ none | entry ∷ rest ↦ some entry.at ]

abbrev pub open_count : OwnedRequest → ℕ
open_count r = elim r.lifecycle.caller [
  | CallerOutcome.still_open ↦ 1
  | CallerOutcome.terminal outcome ↦ 0
]

unfoldable pub unresolved_callers : GenerationState → ℕ
unresolved_callers s = sum_by open_count s.requests

unfoldable pub terminal_outcome : GenerationState → RequestKey → Option TerminalOutcome
terminal_outcome s key = elim (get key s.requests) [
  | none ↦ none
  | some r ↦ elim r.lifecycle.caller [
    | CallerOutcome.still_open ↦ none
    | CallerOutcome.terminal outcome ↦ some outcome
  ]
]
