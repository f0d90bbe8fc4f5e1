-- ===== src/Generation/Grants.antt =====
-- Which effects of crates/smb/src/runtime/state.rs apply a credit grant.
use smb_rs.Prelude.{
  ℕ, zero, suc, ◌+◌, ◌≡◌, refl, Option, List, [], ◌∷◌, ◌++◌, arith, if_rule, list_rule, leb,
}
use smb_rs.Clock.{MonotonicTime}
use smb_rs.Reducer.{RequestKey, ResponseProgress, NetworkFailure}
use smb_rs.Generation.Data.{
  GenerationState, OwnedRequest, DeadlineEntry, DeadlineKind, ResponseEvent, RequestProgress,
  OwnerEffect, credit_grant_applied,
}
use smb_rs.Generation.Handlers.{
  Step, admit, admit_as, request_event, roll_back, drain, cancel, prepare_failed, recovery_hint,
  disconnect_one, disconnect_all,
}
use smb_rs.Generation.Response.{finish, index_response}
use smb_rs.Generation.Deadlines.{expire, fire, advance_loop}

abbrev pub grant_of : OwnerEffect → ℕ
grant_of (credit_grant_applied key grant available) = grant
grant_of effect = 0

-- The credits that a list of effects grants.
unfoldable pub granted : List OwnerEffect → ℕ
granted [] = 0
granted (e ∷ es) = grant_of e + granted es

pub granted-append : (es fs : List OwnerEffect) → granted (es ++ fs) ≡ granted es + granted fs
unfolding granted
granted-append [] fs = omega arith
granted-append (e ∷ es) fs = omega (arith, granted-append es fs)

pub admit-granted :
    (s : GenerationState) (payload_bytes credit_charge : ℕ) (deadline : Option MonotonicTime)
    → grant_of (admit s payload_bytes credit_charge deadline).1 ≡ 0
unfolding admit admit_as
admit-granted s payload_bytes credit_charge deadline = ground arith

pub request_event-granted :
    (s : GenerationState) (key : RequestKey) (e : RequestProgress)
    → granted (request_event s key e).1 ≡ 0
unfolding request_event granted
request_event-granted s key e = ground arith

roll_back-granted : (s : GenerationState) (key : RequestKey) → granted (roll_back s key).1 ≡ 0
unfolding roll_back granted
roll_back-granted s key = ground arith

drain-granted :
    (s : GenerationState) (key : RequestKey) (now : MonotonicTime) → granted (drain s key now).1 ≡ 0
unfolding drain granted
drain-granted s key now = ground arith

pub cancel-granted :
    (s : GenerationState) (key : RequestKey) (now : MonotonicTime)
    → granted (cancel s key now).1 ≡ 0
unfolding cancel granted
cancel-granted s key now = grind (arith, drain-granted, roll_back-granted)

pub prepare_failed-granted :
    (s : GenerationState) (key : RequestKey) → granted (prepare_failed s key).1 ≡ 0
unfolding prepare_failed granted
prepare_failed-granted s key = grind (arith, roll_back-granted)

pub recovery_hint-granted :
    (s : GenerationState) (key : RequestKey) → granted (recovery_hint s key).1 ≡ 0
unfolding recovery_hint granted
recovery_hint-granted s key = ground arith

disconnect_one-granted :
    (s : GenerationState) (network : Option NetworkFailure) (key : RequestKey)
    → granted (disconnect_one s network key).1 ≡ 0
unfolding disconnect_one granted
disconnect_one-granted s network key = ground arith

pub disconnect_all-granted :
    (s : GenerationState) (network : Option NetworkFailure) (ks : List RequestKey)
    → granted (disconnect_all s network ks).1 ≡ 0
unfolding disconnect_all granted
disconnect_all-granted s network [] = refl
disconnect_all-granted s network (key ∷ ks) = omega (
  arith,
  granted-append (disconnect_one s network key).1
      (disconnect_all (disconnect_one s network key).0 network ks).1,
  disconnect_one-granted s network key,
  disconnect_all-granted (disconnect_one s network key).0 network ks,
)

expire-granted :
    (s : GenerationState) (now : MonotonicTime) (d : DeadlineEntry) (r : OwnedRequest)
    (kind : DeadlineKind)
    → granted (expire s now d r kind).1 ≡ 0
unfolding expire granted
expire-granted s now d r DeadlineKind.caller = grind (arith, drain-granted, roll_back-granted)
expire-granted s now d r DeadlineKind.tombstone = ground arith

fire-granted :
    (s : GenerationState) (now : MonotonicTime) (d : DeadlineEntry) → granted (fire s now d).1 ≡ 0
unfolding fire granted
fire-granted s now d = grind (arith, expire-granted)

pub advance_loop-granted :
    (fuel : ℕ) (s : GenerationState) (now : MonotonicTime) → granted (advance_loop fuel s now).1 ≡ 0
unfolding advance_loop granted
advance_loop-granted zero s now = refl
advance_loop-granted (suc fuel) s now =
    list_rule (λ (x : Step). granted x.1 ≡ 0) s.deadlines (λ _. refl)
      λ d rest e.
        if_rule (λ (x : Step). granted x.1 ≡ 0) (leb d.at now)
          (λ _.
            let fired = fire (record s { deadlines = rest }) now d in
            omega (
              arith,
              granted-append fired.1 (advance_loop fuel fired.0 now).1,
              fire-granted (record s { deadlines = rest }) now d,
              advance_loop-granted fuel fired.0 now,
            ))
          (λ _. refl)

pub index_response-granted :
    (s : GenerationState) (key : RequestKey) (r : OwnedRequest) (e : ResponseEvent)
    (previous : ResponseProgress)
    → granted (index_response s key r e previous).1 ≡ 0
unfolding index_response finish granted
index_response-granted s key r e previous = ground arith
