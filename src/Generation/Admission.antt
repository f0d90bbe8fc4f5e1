-- ===== src/Generation/Admission.antt =====
-- `admit` of crates/smb/src/runtime/state.rs: when it admits, and how many credits it asks for.
use smb_rs.Prelude.{
  ℕ, ◌+◌, ◌-◌, ◌≤◌, ◌<◌, ◌≡◌, ◌↔◌, Option, none, some, arith, u16_max, u32_max, u64_max, max,
}
use smb_rs.Clock.{MonotonicTime}
use smb_rs.Reducer.{request_key_Eq}
use smb_rs.Generation.Data.{GenerationState, OwnerEffect, admitted}
use smb_rs.Generation.Handlers.{admit, admit_as, rejection, credit_request_of}

-- A positive charge within the credits, and room for the operation and its payload.
pub record HasRoom (s : GenerationState) (payload_bytes credit_charge : ℕ) : Type 0 where
  pub charged : 0 < credit_charge
  pub operation_fits : s.admitted_operations < s.limits.max_operations
  pub payload_u64 : s.retained_payload_bytes + payload_bytes ≤ u64_max
  pub payload_fits : s.retained_payload_bytes + payload_bytes ≤ s.limits.max_payload_bytes
  pub credits_fit : credit_charge ≤ s.available_credits

has_room→passes :
    (s : GenerationState) (payload_bytes credit_charge id : ℕ)
    → HasRoom s payload_bytes credit_charge
    → s.next_message_id ≡ some id
    → rejection s payload_bytes credit_charge ≡ none
unfolding rejection
has_room→passes s payload_bytes credit_charge id h e = ground arith

passes→has_room :
    (s : GenerationState) (payload_bytes credit_charge : ℕ)
    → rejection s payload_bytes credit_charge ≡ none
    → HasRoom s payload_bytes credit_charge
unfolding rejection
passes→has_room s payload_bytes credit_charge h = ground arith

-- The message id of an admission, `none` for a rejection.
abbrev pub admitted_id : OwnerEffect → Option ℕ
admitted_id (admitted plan) = some plan.key.message_id
admitted_id _ = none

-- A request is admitted under an id exactly when there is room and the id is the next.
pub admit_iff :
    (s : GenerationState) (payload_bytes credit_charge : ℕ) (deadline : Option MonotonicTime)
    (id : ℕ)
    → (admitted_id (admit s payload_bytes credit_charge deadline).1 ≡ some id)
      ↔ (HasRoom s payload_bytes credit_charge × (s.next_message_id ≡ some id))
unfolding admit admit_as
admit_iff s payload_bytes credit_charge deadline id = (
  λ h. (passes→has_room s payload_bytes credit_charge (ground arith), ground arith),
  λ h. ground (arith, has_room→passes s payload_bytes credit_charge id h.0 h.1),
)

-- An admission that is refused leaves the state as it was.
pub admit-refused :
    (s : GenerationState) (payload_bytes credit_charge : ℕ) (deadline : Option MonotonicTime)
    → admitted_id (admit s payload_bytes credit_charge deadline).1 ≡ none
    → (admit s payload_bytes credit_charge deadline).0 ≡ s
unfolding admit admit_as
admit-refused s payload_bytes credit_charge deadline h = ground arith

-- For a charge that fits a `u16` and a projected total that fits a `u32`, the credits asked for cover
-- the charge, fit a `u16`, and what they add to the charge does not lift the projected total past
-- the target, or past itself where it is there already.
pub credit_request_bounds :
    (s : GenerationState) (credit_charge : ℕ)
    → credit_charge ≤ u16_max
    → s.total_credits + s.pending_extra_credits ≤ u32_max
    → let request = credit_request_of s credit_charge in
      (credit_charge ≤ request)
      × (request ≤ u16_max)
      × (s.total_credits + s.pending_extra_credits + (request - credit_charge)
          ≤ max s.target_credits (s.total_credits + s.pending_extra_credits))
unfolding credit_request_of
credit_request_bounds s credit_charge h k = omega arith
