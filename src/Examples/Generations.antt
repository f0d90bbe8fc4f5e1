-- ===== src/Examples/Generations.antt =====
-- Histories of one connection generation, for the theorems on crates/smb/src/runtime/state.rs.
use smb_rs.Prelude.{
  refl, get, insert, ◌+◌, ◌-◌, ◌≤◌, ◌≡◌, ◌↔◌, max, map, IsDistinct, none, some, List, [], ◌∷◌,
  arith, u16_max,
}
use smb_rs.Reducer.{RequestKey, request_key_Eq, NetworkFailure, observe_response_commitment}
use smb_rs.Reducer
use smb_rs.Generation.Data.{
  AdmissionLimits, GenerationState, OwnerEvent, RequestProgress, ResponseEvent, new,
}
use smb_rs.Generation.Handlers.{
  admit, admit_as, rejection, reserve, new_request, credit_request_of, schedule_caller, cancel,
  roll_back,
}
use smb_rs.Generation.Ledger.{
  rollback, return_credits, release_request_ownership, release_payload, release_admission,
}
use smb_rs.Generation.Response.{
  response, accept, settle, settle_totals, observe, index_response, finish, conclude,
}
use smb_rs.Generation.Deadlines.{advance_time}
use smb_rs.Generation.Owner.{reduce, run, unresolved_callers}
use smb_rs.Generation.Identity.{Inv, run-Inv}
use smb_rs.Generation.Async.{IsIndexed, run-IsIndexed}
use smb_rs.Generation.Told.{told}
use smb_rs.Generation.Closing.{run-disconnect}
use smb_rs.Generation.Heap.{NoneDue}
use smb_rs.Generation.Expiry.{run-NoneDue}
use smb_rs.Generation.Admission.{HasRoom, admitted_id, admit_iff, credit_request_bounds}

abbrev limits : AdmissionLimits
limits = record { max_operations = 2; max_payload_bytes = 100 }

abbrev first : RequestKey
first = record { generation = 3; message_id = 40 }

abbrev second : RequestKey
second = record { generation = 3; message_id = 41 }

-- Two requests; the first is written and pending under async id 77, and its caller's time runs out;
-- the second is written in part and cancelled.
abbrev busy : List OwnerEvent
busy =
    OwnerEvent.admit 10 1 (some 100)
    ∷ OwnerEvent.admit 20 2 none
    ∷ OwnerEvent.request first RequestProgress.write_complete
    ∷ OwnerEvent.response first (ResponseEvent.pending 77) 1
    ∷ OwnerEvent.request second (RequestProgress.write_progress 5)
    ∷ OwnerEvent.cancel second 60
    ∷ OwnerEvent.advance_time 100
    ∷ []

abbrev fresh : GenerationState
unfolding new
fresh = new 3 40 4 4 limits 5

run-Inv_example : Inv (run (new 3 40 4 4 limits 5) busy).0
run-Inv_example = run-Inv 3 40 4 4 limits 5 busy

run-IsIndexed_example : IsIndexed (run (new 3 40 4 4 limits 5) busy).0
run-IsIndexed_example = run-IsIndexed 3 40 4 4 limits 5 busy

run-disconnect_example :
    let s = (run (new 3 40 4 4 limits 5) busy).0 in
    let lost = some NetworkFailure.connection_lost in
    let (t, effects) = reduce s (OwnerEvent.disconnect lost) in
    IsDistinct s.requests
    × (effects ≡ map (told lost) s.requests)
    × (unresolved_callers t ≡ 0)
    × (t.admitted_operations ≡ 0)
    × (t.retained_payload_bytes ≡ 0)
run-disconnect_example = run-disconnect 3 40 4 4 limits 5 busy (some NetworkFailure.connection_lost)

run-NoneDue_example :
    NoneDue 200 (advance_time (run (new 3 40 4 4 limits 5) busy).0 200).0.deadlines
run-NoneDue_example = run-NoneDue 3 40 4 4 limits 5 busy 200

admit_iff_example :
    (admitted_id (admit fresh 10 2 none).1 ≡ some 40)
    ↔ (HasRoom fresh 10 2 × (fresh.next_message_id ≡ some 40))
admit_iff_example = admit_iff fresh 10 2 none 40

credit_request_bounds_example :
    let request = credit_request_of fresh 2 in
    (2 ≤ request) × (request ≤ u16_max) × (4 + 0 + (request - 2) ≤ max 4 (4 + 0))
unfolding fresh
credit_request_bounds_example = credit_request_bounds fresh 2 (omega arith) (omega arith)

-- A response to a request that was rolled back: the total falls below the credits at hand.
rolled_back_answered :
    let s =
      (run (new 3 40 4 4 limits 5) (
        OwnerEvent.admit 10 2 none
        ∷ OwnerEvent.cancel first 0
        ∷ OwnerEvent.response first ResponseEvent.final 1
        ∷ [])).0 in
    (s.available_credits ≡ 5) × (s.total_credits ≡ 3)
unfolding run reduce new admit admit_as rejection reserve new_request credit_request_of
    schedule_caller cancel roll_back rollback return_credits release_request_ownership
    release_payload release_admission response accept settle settle_totals observe
    observe_response_commitment index_response finish conclude get insert Reducer.new Reducer.reduce
rolled_back_answered = (refl, refl)
