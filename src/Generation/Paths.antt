-- ===== src/Generation/Paths.antt =====
-- Every handler of crates/smb/src/runtime/state.rs is a path of elementary moves.
use smb_rs.Prelude.{
  if_rule, option_rule, list_rule, ℕ, zero, suc, ◌≡◌, refl, Bool, true, false, not, ◌&&◌, Option,
  none, some, List, [], ◌∷◌, get, get-insert, keys, ◌==◌, checked_add, u32_max, leb, arith,
}
use smb_rs.Reducer.{
  RequestKey, request_key_Eq, RequestEvent, NetworkFailure, wire_committed, caller_is_open,
  is_final, observe_response_commitment,
}
use smb_rs.Clock.{MonotonicTime}
use smb_rs.Generation.Data.{
  GenerationState, OwnedRequest, DeadlineEntry, DeadlineKind, OwnerEvent, RequestProgress,
  ResponseEvent,
}
use smb_rs.Generation.Ledger.{set_request, release_request_ownership, return_credits, rollback}
use smb_rs.Generation.Handlers.{
  admit, rejection, admit_as, schedule_caller, request_event, lifecycle_event, completes_write,
  roll_back, drain, cancel, prepare_failed, recovery_hint, disconnect_one, disconnect_all,
  disconnect,
}
use smb_rs.Generation.Response.{
  conflict, changed, observe, settle, settle_totals, response_event, accept, finish, index_response,
  response,
}
use smb_rs.Generation.Deadlines.{expire, fire, advance_loop, advance_time}
use smb_rs.Generation.Owner.{reduce, run}
use smb_rs.Generation.Moves.{
  by_event, by_publish, untouched, Move, touch, schedule, free_payload, free_slot, give_back,
  settles, overflow, interim, concludes, pop, degrade, Moves, here, next, Moves-trans, From,
  is_local, answered, answered,
}

local_progress : (e : RequestProgress) → is_local (lifecycle_event e) ≡ true
local_progress RequestProgress.queued = refl
local_progress _ = refl

pub get-insert_self :
    (key : RequestKey) (r : OwnedRequest) (s : GenerationState)
    → get key (set_request s key r).requests ≡ some r
get-insert_self key r s = ground (arith, get-insert key key r s.requests)

module _ (credited : Bool) where
  pub request_event-Moves :
      (s : GenerationState) (key : RequestKey) (e : RequestProgress)
      → Moves credited s (request_event s key e).0
  unfolding request_event
  request_event-Moves s key e =
      if_rule (From credited s) (not (key.generation == s.generation)) (λ _. here)
        λ _.
          option_rule (From credited s) (get key s.requests) (λ _. here)
            λ r found.
              let sent =
                next here (touch key r r.cancel_seen found (by_event _ (local_progress e))) in
              if_rule (Moves credited s) (completes_write e) (λ _. next sent (free_payload key))
                (λ _. sent)

  release-Moves :
      {s t : GenerationState} (key : RequestKey)
      → Moves credited s t
      → Moves credited s (release_request_ownership t key)
  unfolding release_request_ownership
  release-Moves key p = next (next p (free_payload key)) (free_slot key)

  rollback-Moves : (s : GenerationState) (key : RequestKey) → Moves credited s (rollback s key).0
  unfolding rollback
  rollback-Moves s key =
      option_rule (From credited s) (get key s.requests) (λ _. here)
        λ r found.
          if_rule (From credited s) (not r.credit_obligation && not r.admission_held) (λ _. here)
            λ _.
              option_rule (From credited s) (return_credits s key r) (λ _. here)
                λ s' e. release-Moves key (next here (give_back key r found e))

  roll_back-Moves :
      {s t : GenerationState} (key : RequestKey)
      → Moves credited s t
      → Moves credited s (roll_back t key).0
  unfolding roll_back
  roll_back-Moves {t} key p = Moves-trans p (rollback-Moves t key)

  drain-Moves :
      {s t : GenerationState} (key : RequestKey) (now : MonotonicTime)
      → Moves credited s t
      → Moves credited s (drain t key now).0
  unfolding drain
  drain-Moves key now p = next p (schedule key _ _)

  pub cancel-Moves :
      (s : GenerationState) (key : RequestKey) (now : MonotonicTime)
      → Moves credited s (cancel s key now).0
  unfolding cancel
  cancel-Moves s key now =
      if_rule (From credited s) (not (key.generation == s.generation)) (λ _. here)
        λ _.
          option_rule (From credited s) (get key s.requests) (λ _. here)
            λ r found.
              if_rule (From credited s) r.cancel_seen (λ _. here)
                λ _.
                  if_rule (From credited s) (not (caller_is_open r.lifecycle))
                    (λ _. next here (touch key r true found untouched))
                    λ _.
                      let told =
                        next here (touch key r true found (by_event RequestEvent.cancel refl)) in
                      if_rule (From credited s) (wire_committed r.lifecycle)
                        (λ _. drain-Moves key now told) (λ _. roll_back-Moves key told)

  pub prepare_failed-Moves :
      (s : GenerationState) (key : RequestKey) → Moves credited s (prepare_failed s key).0
  unfolding prepare_failed
  prepare_failed-Moves s key =
      if_rule (From credited s) (not (key.generation == s.generation)) (λ _. here)
        λ _.
          option_rule (From credited s) (get key s.requests) (λ _. here)
            λ r found.
              if_rule (From credited s) (wire_committed r.lifecycle) (λ _. here)
                λ _.
                  roll_back-Moves key (next here (touch key r r.cancel_seen found (by_publish _)))

  pub recovery_hint-Moves :
      (s : GenerationState) (key : RequestKey) → Moves credited s (recovery_hint s key).0
  unfolding recovery_hint
  recovery_hint-Moves s key =
      if_rule (From credited s) (not (key.generation == s.generation)) (λ _. here)
        λ _.
          option_rule (From credited s) (get key s.requests) (λ _. here)
            λ r found. release-Moves key (
              next here
                (touch key r r.cancel_seen found (by_event (RequestEvent.recovery_hint key) refl)))

  disconnect_one-Moves :
      (s : GenerationState) (network : Option NetworkFailure) (key : RequestKey)
      → Moves credited s (disconnect_one s network key).0
  unfolding disconnect_one
  disconnect_one-Moves s network key =
      option_rule (From credited s) (get key s.requests) (λ _. release-Moves key here)
        λ r found. release-Moves key (
          next here
            (touch key r r.cancel_seen found (by_event (RequestEvent.disconnect network) refl)))

  pub disconnect_all-Moves :
      (s : GenerationState) (network : Option NetworkFailure) (ks : List RequestKey)
      → Moves credited s (disconnect_all s network ks).0
  unfolding disconnect_all
  disconnect_all-Moves s network [] = here
  disconnect_all-Moves s network (key ∷ ks) =
      Moves-trans (disconnect_one-Moves s network key)
        (disconnect_all-Moves (disconnect_one s network key).0 network ks)

  expire-Moves :
      (s : GenerationState) (now : MonotonicTime) (d : DeadlineEntry) (r : OwnedRequest)
      (kind : DeadlineKind)
      → get d.key s.requests ≡ some r
      → Moves credited s (expire s now d r kind).0
  unfolding expire
  expire-Moves s now d r DeadlineKind.caller found =
      if_rule (From credited s) (not (caller_is_open r.lifecycle)) (λ _. here)
        λ _.
          let told =
            next here (touch d.key r r.cancel_seen found (by_event RequestEvent.deadline refl)) in
          if_rule (From credited s) (wire_committed r.lifecycle) (λ _. drain-Moves d.key now told)
            (λ _. roll_back-Moves d.key told)
  expire-Moves s now d r DeadlineKind.tombstone found =
      if_rule (From credited s) (r.lifecycle.tombstone && not (is_final r.lifecycle.progress))
        (λ _. next here degrade) (λ _. here)

  fire-Moves :
      (s : GenerationState) (now : MonotonicTime) (d : DeadlineEntry)
      → Moves credited s (fire s now d).0
  unfolding fire
  fire-Moves s now d =
      option_rule (From credited s) (get d.key s.requests) (λ _. here)
        λ r found.
          if_rule (From credited s) (not (r.deadline_version == d.version)) (λ _. here)
            (λ _. expire-Moves s now d r d.kind found)

  pub advance_loop-Moves :
      (fuel : ℕ) (s : GenerationState) (now : MonotonicTime)
      → Moves credited s (advance_loop fuel s now).0
  unfolding advance_loop
  advance_loop-Moves zero s now = here
  advance_loop-Moves (suc fuel) s now =
      list_rule (From credited s) s.deadlines (λ _. here)
        λ d rest e.
          if_rule (From credited s) (leb d.at now)
            (λ _.
              Moves-trans (Moves-trans (next here (pop d rest e)) (fire-Moves _ now d))
                (advance_loop-Moves fuel (fire (record s { deadlines = rest }) now d).0 now))
            (λ _. here)

  schedule_caller-Moves :
      {s t : GenerationState} (key : RequestKey) (deadline : Option MonotonicTime)
      → Moves credited s t
      → Moves credited s (schedule_caller t key deadline)
  unfolding schedule_caller
  schedule_caller-Moves key none p = p
  schedule_caller-Moves key (some at) p = next p (schedule key at DeadlineKind.caller)

  pub admit-Moves :
      (s : GenerationState) (payload_bytes credit_charge : ℕ) (deadline : Option MonotonicTime)
      → Moves credited s (admit s payload_bytes credit_charge deadline).0
  unfolding admit admit_as
  admit-Moves s payload_bytes credit_charge deadline =
      option_rule (From credited s) (rejection s payload_bytes credit_charge)
        (λ passed.
          option_rule (From credited s) s.next_message_id (λ _. here)
            λ id e.
              schedule_caller-Moves _ deadline
                (next here (Move.admit payload_bytes credit_charge id passed e)))
        (λ error e. here)

  pub index_response-Moves :
      {s : GenerationState} (t : GenerationState) (key : RequestKey) (r : OwnedRequest)
      (e : ResponseEvent)
      → get key t.requests ≡ some r
      → conflict e t.async_index key ≡ none
      → changed e r.lifecycle.progress ≡ none
      → is_final r.lifecycle.progress ≡ false
      → r.credit_response_seen ≡ true
      → Moves credited s t
      → Moves credited s
          (index_response t key (answered r (response_event e key)) e r.lifecycle.progress).0
  unfolding index_response finish
  index_response-Moves t key r (ResponseEvent.pending id) found free same unanswered seen p =
      next p (interim key r id found unanswered free same)
  index_response-Moves t key r ResponseEvent.final found free same unanswered seen p =
      release-Moves key (next p (concludes key r found unanswered seen))

accept-Moves :
    (s : GenerationState) (key : RequestKey) (r : OwnedRequest) (e : ResponseEvent) (grant : ℕ)
    → get key s.requests ≡ some r
    → conflict e s.async_index key ≡ none
    → changed e r.lifecycle.progress ≡ none
    → is_final r.lifecycle.progress ≡ false
    → Moves true s (accept s key r e grant).0
unfolding accept settle settle_totals observe observe_response_commitment
accept-Moves s key r e grant found free same unanswered =
    option_rule (From true s) (checked_add u32_max s.available_credits grant)
      (λ _. next here (overflow key r grant found unanswered refl))
      λ available e'.
        index_response-Moves true _ key (observe r) e (get-insert_self key (observe r) s) free same
          unanswered refl (next here (settles key r grant available found unanswered e' refl))

response-Moves :
    (s : GenerationState) (key : RequestKey) (e : ResponseEvent) (grant : ℕ)
    → Moves true s (response s key e grant).0
unfolding response
response-Moves s key e grant =
    if_rule (From true s) (not (key.generation == s.generation)) (λ _. here)
      λ _.
        option_rule (From true s) (conflict e s.async_index key)
          (λ free.
            option_rule (From true s) (get key s.requests) (λ _. here)
              λ r found.
                option_rule (From true s) (changed e r.lifecycle.progress)
                  (λ same.
                    if_rule (From true s) (is_final r.lifecycle.progress) (λ _. here)
                      (λ unanswered. accept-Moves s key r e grant found free same unanswered))
                  (λ _ _. next here degrade))
          (λ _ _. next here degrade)

-- Every event moves the state by a path of elementary moves.
pub reduce-Moves : (s : GenerationState) (e : OwnerEvent) → Moves true s (reduce s e).0
unfolding reduce advance_time disconnect
reduce-Moves s (OwnerEvent.admit payload_bytes credit_charge deadline) =
    admit-Moves true s payload_bytes credit_charge deadline
reduce-Moves s (OwnerEvent.request key e) = request_event-Moves true s key e
reduce-Moves s (OwnerEvent.prepare_failed key) = prepare_failed-Moves true s key
reduce-Moves s (OwnerEvent.cancel key now) = cancel-Moves true s key now
reduce-Moves s (OwnerEvent.response key e grant) = response-Moves s key e grant
reduce-Moves s (OwnerEvent.recovery_hint key) = recovery_hint-Moves true s key
reduce-Moves s (OwnerEvent.advance_time now) = advance_loop-Moves true _ s now
reduce-Moves s (OwnerEvent.disconnect network) =
    disconnect_all-Moves true s network (keys s.requests)

pub run-Moves : (s : GenerationState) (es : List OwnerEvent) → Moves true s (run s es).0
unfolding run
run-Moves s [] = here
run-Moves s (e ∷ es) = Moves-trans (reduce-Moves s e) (run-Moves (reduce s e).0 es)
