-- ===== src/Generation/Distinct.antt =====
-- The keys of the table of requests of crates/smb/src/runtime/state.rs.
use smb_rs.Prelude.{
  if_rule, option_rule, inl, inr, Bool, get, insert, insert-IsDistinct, IsDistinct, Assoc,
  checked_add, u64_max,
}
use smb_rs.Reducer.{RequestKey, request_key_Eq}
use smb_rs.Generation.Data.{GenerationState, OwnedRequest}
use smb_rs.Generation.Ledger.{schedule_deadline, release_payload, release_admission}
use smb_rs.Generation.Handlers.{reserve}
use smb_rs.Generation.Response.{settle, settle_totals, record_async, conclude}
use smb_rs.Generation.Moves.{
  Move, touch, schedule, free_payload, free_slot, give_back, settles, overflow, interim, concludes,
  pop, degrade, Moves, here, next,
}
use smb_rs.Generation.Evolution.{return_credits-cases}

module _ {ℓ} (P : Assoc RequestKey OwnedRequest → Type ℓ)
    (write : (key : RequestKey) (r : OwnedRequest) (m : Assoc RequestKey OwnedRequest)
      → P m
      → P (insert key r m)) where
  -- A property of the table that every write keeps is kept by every move.
  Move-table :
      {credited : Bool} {s t : GenerationState} → Move credited s t → P s.requests → P t.requests
  unfolding schedule_deadline release_payload release_admission settle settle_totals record_async
      conclude reserve
  Move-table {s} (touch key r c found l) h = write key _ s.requests h
  Move-table {s} (schedule key at kind) h =
      option_rule (λ (x : GenerationState × Bool). P x.0.requests) (get key s.requests) (λ _. h)
        λ r found.
          option_rule (λ (x : GenerationState × Bool). P x.0.requests)
            (checked_add u64_max r.deadline_version 1) (λ _. h) (λ v e. write key _ s.requests h)
  Move-table {s} (free_payload key) h =
      option_rule (λ (x : GenerationState). P x.requests) (get key s.requests) (λ _. h)
        λ r found.
          if_rule (λ (x : GenerationState). P x.requests) r.payload_held
            (λ _. write key _ s.requests h) (λ _. h)
  Move-table {s} (free_slot key) h =
      option_rule (λ (x : GenerationState). P x.requests) (get key s.requests) (λ _. h)
        λ r found.
          if_rule (λ (x : GenerationState). P x.requests) r.admission_held
            (λ _. write key _ s.requests h) (λ _. h)
  Move-table {s} (give_back key r found e) h = elim (return_credits-cases s key r e) [
    | inl (_, same) ↦ rw same h
    | inr (_, _, same) ↦ rw same (write key _ s.requests h)
  ]
  Move-table {s} (Move.admit payload_bytes credit_charge id passed e) h = write _ _ s.requests h
  Move-table {s} (settles key r grant available found u e by_response) h = write key _ s.requests h
  Move-table {s} (overflow key r grant found u by_response) h = write key _ s.requests h
  Move-table {s} (interim key r id found u free same) h = write key _ s.requests h
  Move-table {s} (concludes key r found u seen) h = write key _ s.requests h
  Move-table (pop d ds e) h = h
  Move-table degrade h = h

pub Moves-IsDistinct :
    {credited : Bool} {s t : GenerationState}
    → Moves credited s t
    → IsDistinct s.requests
    → IsDistinct t.requests
Moves-IsDistinct here h = h
Moves-IsDistinct (next p m) h = Move-table IsDistinct insert-IsDistinct m (Moves-IsDistinct p h)
