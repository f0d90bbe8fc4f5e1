-- ===== src/Generation/Data.antt =====
-- crates/smb/src/runtime/state.rs, lines 11 to 205: the types of the owner of one generation.
use smb_rs.Prelude.{
  ℕ, Bool, true, false, Option, some, List, [], ◌∷◌, Assoc, ltb, ◌==◌, if◌then◌else◌, max,
}
use smb_rs.Clock.{MonotonicTime, Duration}
use smb_rs.Reducer.{GenerationId, RequestKey, RequestRecord, NetworkFailure, ReduceEffect}

pub record AdmissionLimits : Type 0 where
  pub max_operations : ℕ
  pub max_payload_bytes : ℕ

pub data AdmissionError : Type 0 where
  operations_exhausted payload_bytes_exhausted : AdmissionError
  credits_exhausted : (available requested : ℕ) → AdmissionError
  message_id_exhausted invalid_credit_charge : AdmissionError

pub record PreparationPlan : Type 0 where
  pub key : RequestKey
  pub payload_bytes : ℕ
  pub credit_charge : ℕ
  pub credit_request : ℕ
  pub caller_deadline : Option MonotonicTime

pub data ResponseEvent : Type 0 where
  pending : ℕ → ResponseEvent
  final : ResponseEvent

pub data RequestProgress : Type 0 where
  queued : RequestProgress
  write_progress : ℕ → RequestProgress
  write_complete : RequestProgress

pub data DeadlineKind : Type 0 where
  caller tombstone : DeadlineKind

pub record DeadlineEntry : Type 0 where
  pub at : MonotonicTime
  pub sequence : ℕ
  pub key : RequestKey
  pub kind : DeadlineKind
  pub version : ℕ

pub data OwnerEvent : Type 0 where
  admit : (payload_bytes credit_charge : ℕ) → Option MonotonicTime → OwnerEvent
  request : RequestKey → RequestProgress → OwnerEvent
  prepare_failed : RequestKey → OwnerEvent
  cancel : RequestKey → MonotonicTime → OwnerEvent
  response : RequestKey → ResponseEvent → (credit_grant : ℕ) → OwnerEvent
  recovery_hint : RequestKey → OwnerEvent
  advance_time : MonotonicTime → OwnerEvent
  disconnect : Option NetworkFailure → OwnerEvent

pub data OwnerEffect : Type 0 where
  admitted : PreparationPlan → OwnerEffect
  admission_rejected : AdmissionError → OwnerEffect
  request : RequestKey → ReduceEffect → OwnerEffect
  reservation_rolled_back : RequestKey → OwnerEffect
  credit_grant_applied : RequestKey → (grant available : ℕ) → OwnerEffect
  duplicate_response cancel_control_queued duplicate_cancel : RequestKey → OwnerEffect
  best_effort_wire_cancel stale_deadline_ignored generation_unhealthy : RequestKey → OwnerEffect
  async_id_conflict : (async_id : ℕ) → (existing incoming : RequestKey) → OwnerEffect
  async_id_changed : RequestKey → (existing incoming : ℕ) → OwnerEffect
  credit_ledger_overflow : RequestKey → (available grant : ℕ) → OwnerEffect
  unknown_request : RequestKey → OwnerEffect

pub record OwnedRequest : Type 0 where
  pub lifecycle : RequestRecord
  pub payload_bytes : ℕ
  pub credit_charge : ℕ
  pub requested_extra_credits : ℕ
  pub credit_response_seen : Bool
  pub admission_held : Bool
  pub payload_held : Bool
  pub credit_obligation : Bool
  pub cancel_seen : Bool
  pub deadline_version : ℕ

pub record GenerationState : Type 0 where
  pub generation : GenerationId
  pub limits : AdmissionLimits
  pub next_message_id : Option ℕ
  pub available_credits : ℕ
  pub total_credits : ℕ
  pub pending_extra_credits : ℕ
  pub target_credits : ℕ
  pub admitted_operations : ℕ
  pub retained_payload_bytes : ℕ
  pub requests : Assoc RequestKey OwnedRequest
  pub async_index : Assoc ℕ RequestKey
  pub deadlines : List DeadlineEntry
  pub next_deadline_sequence : ℕ
  pub tombstone_drain_timeout : Duration
  pub unhealthy : Bool

unfoldable pub set_target_credits : GenerationState → ℕ → GenerationState
set_target_credits s target = record s { target_credits = max target 1 }

unfoldable pub new : GenerationId → ℕ → ℕ → ℕ → AdmissionLimits → Duration → GenerationState
new generation initial_message_id initial_credits target_credits limits drain = record {
  generation = generation;
  limits = limits;
  next_message_id = some initial_message_id;
  available_credits = initial_credits;
  total_credits = initial_credits;
  pending_extra_credits = 0;
  target_credits = target_credits;
  admitted_operations = 0;
  retained_payload_bytes = 0;
  requests = [];
  async_index = [];
  deadlines = [];
  next_deadline_sequence = 0;
  tombstone_drain_timeout = drain;
  unhealthy = false;
}

-- The derived order of `DeadlineEntry`, field by field; `BinaryHeap<Reverse<_>>` is the list of the
-- entries in this order, whose head is what `peek` sees.
abbrev kind_rank : DeadlineKind → ℕ
kind_rank caller = 0
kind_rank tombstone = 1

abbrev lexicographic : ℕ → ℕ → Bool → Bool
lexicographic a b rest = if ltb a b then true else if a == b then rest else false

unfoldable pub entry_lt : DeadlineEntry → DeadlineEntry → Bool
entry_lt a b = lexicographic a.at b.at (
    lexicographic a.sequence b.sequence (
      lexicographic a.key.generation b.key.generation (
        lexicographic a.key.message_id b.key.message_id
          (lexicographic (kind_rank a.kind) (kind_rank b.kind) (ltb a.version b.version)))))

unfoldable pub push : DeadlineEntry → List DeadlineEntry → List DeadlineEntry
unfolding entry_lt
push e [] = e ∷ []
push e (d ∷ ds) = if entry_lt e d then e ∷ d ∷ ds else d ∷ push e ds
