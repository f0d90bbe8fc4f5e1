-- ===== src/Generation/Response.antt =====
-- crates/smb/src/runtime/state.rs, `response`: the credit ledger, the async index and the
-- lifecycle on an interim or a final response.
use smb_rs.Prelude.{
  ℕ, ◌-◌, Bool, true, false, not, ◌||◌, Option, none, some, [], ◌∷◌, if◌then◌else◌, get, insert,
  remove, ◌==◌, checked_add, saturating_add, u32_max, u64_max, Assoc, nat_eq,
}
use smb_rs.Reducer.{
  RequestKey, request_key_Eq, request_key_eq, RequestEvent, RequestRecord, ResponseProgress,
  ReduceEffect, is_final, observe_response_commitment,
}
use smb_rs.Reducer
use smb_rs.Generation.Data.{
  GenerationState, OwnedRequest, ResponseEvent, OwnerEffect, credit_grant_applied,
  duplicate_response, generation_unhealthy, async_id_conflict, async_id_changed,
  credit_ledger_overflow, unknown_request,
}
use smb_rs.Generation.Ledger.{release_request_ownership}
use smb_rs.Generation.Handlers.{Step, foreign}

-- Another request holds the async id of an interim response.
abbrev pub conflict : ResponseEvent → Assoc ℕ RequestKey → RequestKey → Option (ℕ × RequestKey)
conflict ResponseEvent.final index key = none
conflict (ResponseEvent.pending async_id) index key = elim (get async_id index) [
  | none ↦ none
  | some existing ↦ if request_key_eq existing key then none else some (async_id, existing)
]

-- The request had another async id before.
abbrev pub changed : ResponseEvent → ResponseProgress → Option (ℕ × ℕ)
changed (ResponseEvent.pending async_id) (ResponseProgress.async_pending existing) =
    if existing == async_id then none else some (existing, async_id)
changed _ _ = none

abbrev pub response_event : ResponseEvent → RequestKey → RequestEvent
response_event (ResponseEvent.pending async_id) key = RequestEvent.pending key async_id
response_event ResponseEvent.final key = RequestEvent.final_response key

-- The totals, which count the charge and the extra credits of a request until its first response.
unfoldable pub settle_totals : GenerationState → OwnedRequest → ℕ → GenerationState
settle_totals s r credit_grant = record s {
  pending_extra_credits =
      if r.credit_response_seen
      then s.pending_extra_credits
      else s.pending_extra_credits - r.requested_extra_credits;
  total_credits =
      if r.credit_response_seen
      then saturating_add u32_max s.total_credits credit_grant
      else saturating_add u32_max (s.total_credits - r.credit_charge) credit_grant;
}

-- The response proves that the request reached the wire, and frees its payload.
unfoldable pub observe : OwnedRequest → OwnedRequest
observe r = record r {
  lifecycle = observe_response_commitment r.lifecycle;
  credit_response_seen = true;
  payload_held = false;
}

unfoldable pub settle : GenerationState → RequestKey → OwnedRequest → ℕ → GenerationState
settle s key r credit_grant =
    let s' = settle_totals s r credit_grant in
    record s' {
      retained_payload_bytes =
          if r.payload_held
          then s.retained_payload_bytes - r.payload_bytes
          else s.retained_payload_bytes;
      requests = insert key (observe r) s.requests;
    }

abbrev pub forget : ResponseProgress → Assoc ℕ RequestKey → Assoc ℕ RequestKey
forget (ResponseProgress.async_pending async_id) index = remove async_id index
forget _ index = index

abbrev pub or_else : Option ℕ → ℕ → ℕ
or_else none n = n
or_else (some m) n = m

abbrev pub is_none : Option ℕ → Bool
is_none none = true
is_none (some m) = false

-- The final response settles the request, and a new version makes its deadlines stale; a version
-- that cannot grow stays and marks the generation unhealthy.
unfoldable pub conclude :
    GenerationState → RequestKey → OwnedRequest → ResponseProgress → GenerationState
conclude s key r previous =
    let version = checked_add u64_max r.deadline_version 1 in
    record s {
      async_index = forget previous s.async_index;
      requests =
          insert key
            (record r {
              credit_obligation = false;
              deadline_version = or_else version r.deadline_version;
            })
            s.requests;
      unhealthy = s.unhealthy || is_none version;
    }

unfoldable pub finish : GenerationState → RequestKey → OwnedRequest → ResponseProgress → Step
finish s key r previous = (
  release_request_ownership (conclude s key r previous) key,
  if is_none (checked_add u64_max r.deadline_version 1) then generation_unhealthy key ∷ [] else [],
)

-- The bookkeeping of an interim response.
unfoldable pub record_async : GenerationState → RequestKey → OwnedRequest → ℕ → GenerationState
record_async s key r async_id = record s {
  async_index = insert async_id key s.async_index;
  requests = insert key r s.requests;
}

unfoldable pub index_response :
    GenerationState → RequestKey → OwnedRequest → ResponseEvent → ResponseProgress → Step
index_response s key r (ResponseEvent.pending async_id) previous =
    (record_async s key r async_id, [])
index_response s key r ResponseEvent.final previous = finish s key r previous

-- Past the guards: `r` is the request as it was found.
unfoldable pub accept : GenerationState → RequestKey → OwnedRequest → ResponseEvent → ℕ → Step
accept s key r event credit_grant =
    let settled = settle s key r credit_grant in
    let seen = observe r in
    elim (checked_add u32_max s.available_credits credit_grant) [
      | none ↦ (
        record settled { unhealthy = true },
        credit_ledger_overflow key s.available_credits credit_grant ∷ generation_unhealthy key ∷ [],
      )
      | some available ↦
          let (lifecycle, effect) = Reducer.reduce seen.lifecycle (response_event event key) in
          let (s', effects) =
            index_response (record settled { available_credits = available }) key
              (record seen { lifecycle = lifecycle }) event r.lifecycle.progress in
          (
            s',
            credit_grant_applied key credit_grant available
                ∷ OwnerEffect.request key effect
                ∷ effects,
          )
    ]

unfoldable pub response : GenerationState → RequestKey → ResponseEvent → ℕ → Step
response s key event credit_grant =
    if not (key.generation == s.generation)
    then (s, foreign key)
    else elim (conflict event s.async_index key) [
      | some (async_id, existing) ↦ (
        record s { unhealthy = true },
        async_id_conflict async_id existing key ∷ generation_unhealthy key ∷ [],
      )
      | none ↦ elim (get key s.requests) [
        | none ↦ (s, unknown_request key ∷ [])
        | some r ↦ elim (changed event r.lifecycle.progress) [
          | some (existing, incoming) ↦ (
            record s { unhealthy = true },
            async_id_changed key existing incoming ∷ generation_unhealthy key ∷ [],
          )
          | none ↦
              if is_final r.lifecycle.progress
              then (s, duplicate_response key ∷ [])
              else accept s key r event credit_grant
        ]
      ]
    ]
