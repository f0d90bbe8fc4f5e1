-- ===== src/Reducer.antt =====
-- crates/smb/src/runtime/reducer.rs: the lifecycle of one request, as the generation reducer
-- records it. A `&mut self` method returns the new record beside its result.
pub mod Once
pub mod Wire
pub mod Evolution
use smb_rs.Prelude.{
  ℕ, ◌+◌, Bool, true, false, not, ◌&&◌, Option, none, some, List, [], ◌∷◌, ltb, ◌==◌, if◌then◌else◌,
  Eq, ◌≡◌, ◌↔◌, arith, checked_add, saturating_add, u64_max, usize_max,
}

-- crates/smb/src/error.rs
pub data NetworkFailure : Type 0 where
  connection_lost timed_out session_invalidated : NetworkFailure

abbrev pub GenerationId : Type 0
GenerationId = ℕ

unfoldable pub checked_next : GenerationId → Option GenerationId
checked_next g = checked_add u64_max g 1

pub record RequestKey : Type 0 where
  pub generation : GenerationId
  pub message_id : ℕ

abbrev pub request_key_eq : RequestKey → RequestKey → Bool
request_key_eq a b = a.generation == b.generation && a.message_id == b.message_id

pub request_key_iff : (a b : RequestKey) → (request_key_eq a b ≡ true) ↔ (a ≡ b)
request_key_iff a b = ground arith

instance abbrev pub request_key_Eq : Eq RequestKey
request_key_Eq = record { beq = request_key_eq; beq_iff = request_key_iff }

pub data SendProgress : Type 0 where
  not_queued queued : SendProgress
  partial : ℕ → SendProgress
  complete : SendProgress

abbrev pub committed : SendProgress → Bool
committed (partial bytes) = true
committed complete = true
committed _ = false

pub data ResponseProgress : Type 0 where
  no_response : ResponseProgress
  async_pending : ℕ → ResponseProgress
  final : ResponseProgress

abbrev pub is_final : ResponseProgress → Bool
is_final final = true
is_final _ = false

pub data TerminalOutcome : Type 0 where
  response session_invalidated cancelled timed_out outcome_unknown : TerminalOutcome
  network_outcome_unknown : NetworkFailure → TerminalOutcome
  preparation_failed generation_lost generation_closed : TerminalOutcome

pub data CallerOutcome : Type 0 where
  still_open : CallerOutcome
  terminal : TerminalOutcome → CallerOutcome

pub data RequestEvent : Type 0 where
  queue : RequestEvent
  write_progress : ℕ → RequestEvent
  write_complete : RequestEvent
  pending : RequestKey → ℕ → RequestEvent
  final_response recovery_hint : RequestKey → RequestEvent
  cancel deadline : RequestEvent
  disconnect : Option NetworkFailure → RequestEvent

pub data ReduceEffect : Type 0 where
  no_effect : ReduceEffect
  publish : TerminalOutcome → ReduceEffect
  bookkeeping_only ignored_foreign_generation : ReduceEffect

pub record RequestRecord : Type 0 where
  pub key : RequestKey
  pub caller : CallerOutcome
  pub send : SendProgress
  pub progress : ResponseProgress
  pub tombstone : Bool

unfoldable pub new : RequestKey → RequestRecord
new key = record {
  key = key;
  caller = still_open;
  send = not_queued;
  progress = no_response;
  tombstone = false;
}

abbrev pub is_open : CallerOutcome → Bool
is_open still_open = true
is_open (terminal outcome) = false

abbrev pub caller_is_open : RequestRecord → Bool
caller_is_open r = is_open r.caller

abbrev pub wire_committed : RequestRecord → Bool
wire_committed r = committed r.send

unfoldable pub observe_response_commitment : RequestRecord → RequestRecord
observe_response_commitment r = record r { send = if committed r.send then r.send else complete }

publish_once : RequestRecord → TerminalOutcome → RequestRecord × ReduceEffect
publish_once r outcome =
    if is_open r.caller
    then (record r { caller = terminal outcome }, publish outcome)
    else (r, bookkeeping_only)

unfoldable pub publish_terminal : RequestRecord → TerminalOutcome → RequestRecord × ReduceEffect
unfolding publish_once
publish_terminal r outcome = publish_once r outcome

-- `if uncommitted == TimedOut { NetworkOutcomeUnknown(TimedOut) } else { OutcomeUnknown }`
abbrev pub unknown_for : TerminalOutcome → TerminalOutcome
unknown_for TerminalOutcome.timed_out = network_outcome_unknown NetworkFailure.timed_out
unknown_for _ = outcome_unknown

finish_without_response : RequestRecord → TerminalOutcome → RequestRecord × ReduceEffect
unfolding publish_once
finish_without_response r uncommitted =
    if committed r.send
    then publish_once (record r { tombstone = not (is_final r.progress) }) (unknown_for uncommitted)
    else publish_once r uncommitted

-- `if self.send == NotQueued { self.send = Queued }`
queue_send : SendProgress → SendProgress
queue_send not_queued = queued
queue_send send = send

-- The `WriteProgress` arm, for `bytes > 0`.
add_progress : SendProgress → ℕ → SendProgress
add_progress complete bytes = complete
add_progress (partial previous) bytes = partial (saturating_add usize_max previous bytes)
add_progress _ bytes = partial (saturating_add usize_max 0 bytes)

disconnect_outcome : Bool → Option NetworkFailure → TerminalOutcome
disconnect_outcome true none = outcome_unknown
disconnect_outcome true (some failure) = network_outcome_unknown failure
disconnect_outcome false (some NetworkFailure.connection_lost) = generation_lost
disconnect_outcome false (some NetworkFailure.timed_out) = TerminalOutcome.timed_out
disconnect_outcome false (some NetworkFailure.session_invalidated) =
    TerminalOutcome.session_invalidated
disconnect_outcome false none = generation_closed

unfoldable pub reduce : RequestRecord → RequestEvent → RequestRecord × ReduceEffect
unfolding publish_once finish_without_response queue_send add_progress disconnect_outcome
reduce r queue = (record r { send = queue_send r.send }, no_effect)
reduce r (write_progress bytes) =
    (if ltb 0 bytes then record r { send = add_progress r.send bytes } else r, no_effect)
reduce r write_complete = (record r { send = complete }, no_effect)
reduce r (pending key async_id) =
    if not (key.generation == r.key.generation)
    then (r, ignored_foreign_generation)
    else if not (request_key_eq key r.key)
    then (r, bookkeeping_only)
    else if is_final r.progress
    then (r, bookkeeping_only)
    else (record r { progress = async_pending async_id }, bookkeeping_only)
reduce r (final_response key) =
    if not (key.generation == r.key.generation)
    then (r, ignored_foreign_generation)
    else if not (request_key_eq key r.key)
    then (r, bookkeeping_only)
    else publish_once (record r { progress = final; tombstone = false }) response
reduce r (recovery_hint key) =
    if not (key.generation == r.key.generation)
    then (r, ignored_foreign_generation)
    else if not (request_key_eq key r.key)
    then (r, bookkeeping_only)
    else publish_once (record r { tombstone = false }) TerminalOutcome.session_invalidated
reduce r cancel = finish_without_response r cancelled
reduce r deadline = finish_without_response r TerminalOutcome.timed_out
reduce r (disconnect network) =
    publish_once (record r { tombstone = false }) (disconnect_outcome (committed r.send) network)

-- A history of events on one record, with the effects in order.
unfoldable pub run : RequestRecord → List RequestEvent → RequestRecord × List ReduceEffect
run r [] = (r, [])
run r (e ∷ es) =
    let (r', effect) = reduce r e in let (last, effects) = run r' es in (last, effect ∷ effects)
