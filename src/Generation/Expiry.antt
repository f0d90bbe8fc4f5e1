-- ===== src/Generation/Expiry.antt =====
-- `advance_time` of crates/smb/src/runtime/state.rs: the loop ends, and leaves no deadline due.
use smb_rs.Prelude.{
  if_rule, option_rule, list_rule, ℕ, zero, suc, ◌+◌, ◌≤◌, ◌≡◌, refl, ap, inl, inr, Bool, not, ◌&&◌,
  some, List, ◌∷◌, get, arith, ◌∙◌, ◌==◌, leb, checked_add, u64_max,
}
use smb_rs.Clock.{MonotonicTime}
use smb_rs.Reducer.{RequestKey, request_key_Eq, caller_is_open, wire_committed, is_final}
use smb_rs.Reducer
use smb_rs.Generation.Data.{
  GenerationState, OwnedRequest, DeadlineEntry, DeadlineKind, OwnerEffect, OwnerEvent,
  AdmissionLimits, entry_lt, push,
}
use smb_rs.Generation.Data
use smb_rs.Generation.Ledger.{
  set_request, schedule_deadline, release_payload, release_admission, release_request_ownership,
  return_credits, rollback,
}
use smb_rs.Generation.Handlers.{Step, roll_back, drain, reserve}
use smb_rs.Generation.Deadlines.{expire, fire, rounds, rounds_left, advance_loop, advance_time}
use smb_rs.Generation.Heap.{IsSorted, push-IsSorted, rounds_left-push, NoneDue, none_due, no_rounds}
use smb_rs.Generation.Moves.{
  Move, touch, schedule, free_payload, free_slot, give_back, settles, overflow, interim, concludes,
  pop, degrade, Moves, here, next,
}
use smb_rs.Generation.Response.{settle, settle_totals, record_async, conclude}
use smb_rs.Generation.Owner.{run}
use smb_rs.Generation.Paths.{run-Moves}
use smb_rs.Generation.Evolution.{return_credits-cases}

-- The heap is as it was, or has one more tombstone deadline.
data Schedules (ds : List DeadlineEntry) : List DeadlineEntry → Type 0 where
  same : Schedules ds ds
  drains : (e : DeadlineEntry) → e.kind ≡ DeadlineKind.tombstone → Schedules ds (push e ds)

release_payload-deadlines :
    (s : GenerationState) (key : RequestKey) → (release_payload s key).deadlines ≡ s.deadlines
unfolding release_payload
release_payload-deadlines s key = ground arith

release_admission-deadlines :
    (s : GenerationState) (key : RequestKey) → (release_admission s key).deadlines ≡ s.deadlines
unfolding release_admission
release_admission-deadlines s key = ground arith

return_credits-deadlines :
    (s : GenerationState) (key : RequestKey) (r : OwnedRequest) {t : GenerationState}
    → return_credits s key r ≡ some t
    → t.deadlines ≡ s.deadlines
return_credits-deadlines s key r e = elim (return_credits-cases s key r e) [
  | inl (_, unchanged) ↦ rw unchanged
  | inr (_, _, unchanged) ↦ rw unchanged
]

release_request_ownership-deadlines :
    (s : GenerationState) (key : RequestKey)
    → (release_request_ownership s key).deadlines ≡ s.deadlines
unfolding release_request_ownership
release_request_ownership-deadlines s key =
    rw (release_admission-deadlines (release_payload s key) key) (release_payload-deadlines s key)

rollback-deadlines :
    (s : GenerationState) (key : RequestKey) → (rollback s key).0.deadlines ≡ s.deadlines
unfolding rollback
rollback-deadlines s key =
    option_rule (λ (x : GenerationState × Bool). x.0.deadlines ≡ s.deadlines) (get key s.requests)
      (λ _. refl)
      λ r found.
        if_rule (λ (x : GenerationState × Bool). x.0.deadlines ≡ s.deadlines)
          (not r.credit_obligation && not r.admission_held) (λ _. refl)
          λ _.
            option_rule (λ (x : GenerationState × Bool). x.0.deadlines ≡ s.deadlines)
              (return_credits s key r) (λ _. refl)
              λ t e. release_request_ownership-deadlines t key ∙ return_credits-deadlines s key r e

drain-Schedules :
    (s : GenerationState) (key : RequestKey) (now : MonotonicTime)
    → Schedules s.deadlines (drain s key now).0.deadlines
unfolding drain schedule_deadline
drain-Schedules s key now =
    option_rule (λ (x : GenerationState × Bool). Schedules s.deadlines x.0.deadlines)
      (get key s.requests) (λ _. same)
      λ r found.
        option_rule (λ (x : GenerationState × Bool). Schedules s.deadlines x.0.deadlines)
          (checked_add u64_max r.deadline_version 1) (λ _. same) (λ v e. drains _ refl)

-- A round on an entry of the given kind leaves the heap, or puts a tombstone deadline in its stead.
Leaves : DeadlineKind → List DeadlineEntry → Step → Type 0
Leaves DeadlineKind.caller ds x = Schedules ds x.0.deadlines
Leaves DeadlineKind.tombstone ds x = x.0.deadlines ≡ ds

expire-Leaves :
    (s : GenerationState) (now : MonotonicTime) (d : DeadlineEntry) (r : OwnedRequest)
    (kind : DeadlineKind)
    → Leaves kind s.deadlines (expire s now d r kind)
unfolding expire Leaves roll_back
expire-Leaves s now d r DeadlineKind.caller =
    let P = Leaves DeadlineKind.caller s.deadlines in
    let told =
      set_request s d.key
        (record r { lifecycle = (Reducer.reduce r.lifecycle Reducer.RequestEvent.deadline).0 }) in
    if_rule P (not (caller_is_open r.lifecycle)) (λ _. same)
      λ _.
        if_rule P (wire_committed r.lifecycle) (λ _. drain-Schedules told d.key now)
          (λ _. rw (rollback-deadlines told d.key) same)
expire-Leaves s now d r DeadlineKind.tombstone =
    if_rule (Leaves DeadlineKind.tombstone s.deadlines)
      (r.lifecycle.tombstone && not (is_final r.lifecycle.progress)) (λ _. refl) (λ _. refl)

unchanged-Leaves :
    (kind : DeadlineKind) (s : GenerationState) (effects : List OwnerEffect)
    → Leaves kind s.deadlines (s, effects)
unfolding Leaves
unchanged-Leaves DeadlineKind.caller s effects = same
unchanged-Leaves DeadlineKind.tombstone s effects = refl

fire-Leaves :
    (s : GenerationState) (now : MonotonicTime) (d : DeadlineEntry)
    → Leaves d.kind s.deadlines (fire s now d)
unfolding fire
fire-Leaves s now d =
    option_rule (Leaves d.kind s.deadlines) (get d.key s.requests)
      (λ _. unchanged-Leaves d.kind s _)
      λ r found.
        if_rule (Leaves d.kind s.deadlines) (not (r.deadline_version == d.version))
          (λ _. unchanged-Leaves d.kind s _) (λ _. expire-Leaves s now d r d.kind)

-- So the rounds left fall, and the order stays.
Schedules-IsSorted :
    {ds es : List DeadlineEntry}
    → Schedules ds es
    → IsSorted ds
    → IsSorted es × (rounds_left es ≤ suc (rounds_left ds))
Schedules-IsSorted same s = (s, omega arith)
Schedules-IsSorted {ds} (drains e h) s =
    (push-IsSorted e ds s, ground (arith, rounds_left-push e ds))

Leaves-falls :
    (kind : DeadlineKind) (d : DeadlineEntry) (ds : List DeadlineEntry) (x : Step)
    → d.kind ≡ kind
    → Leaves kind ds x
    → IsSorted ds
    → IsSorted x.0.deadlines × (suc (rounds_left x.0.deadlines) ≤ rounds d + rounds_left ds)
unfolding Leaves
Leaves-falls DeadlineKind.caller d ds x k h s =
    let (sorted, fewer) = Schedules-IsSorted h s in (sorted, rw k (omega arith))
Leaves-falls DeadlineKind.tombstone d ds x k h s = rw (h, k) (s, omega arith)

fire-falls :
    (s : GenerationState) (now : MonotonicTime) (d : DeadlineEntry)
    → IsSorted s.deadlines
    → IsSorted (fire s now d).0.deadlines
      × (suc (rounds_left (fire s now d).0.deadlines) ≤ rounds d + rounds_left s.deadlines)
fire-falls s now d = Leaves-falls d.kind d s.deadlines (fire s now d) refl (fire-Leaves s now d)

abbrev Finished : MonotonicTime → Step → Type 0
Finished now x = IsSorted x.0.deadlines × NoneDue now x.0.deadlines

-- With a round for each that the entries can take, the loop ends by its test.
pub advance_loop-Finished :
    (fuel : ℕ) (s : GenerationState) (now : MonotonicTime)
    → rounds_left s.deadlines ≤ fuel
    → IsSorted s.deadlines
    → Finished now (advance_loop fuel s now)
unfolding advance_loop
advance_loop-Finished zero s now enough sorted = (sorted, no_rounds now s.deadlines enough)
advance_loop-Finished (suc fuel) s now enough sorted =
    list_rule (Finished now) s.deadlines (λ e. rw e (tt, tt))
      λ d rest e.
        let head : IsSorted (d ∷ rest) = rw e at sorted in
        let (sorted', fewer) = fire-falls (record s { deadlines = rest }) now d head.1 in
        if_rule (Finished now) (leb d.at now)
          (λ _.
            advance_loop-Finished fuel (fire (record s { deadlines = rest }) now d).0 now
              (omega (arith, ap rounds_left e)) sorted')
          (λ later. (sorted, rw e (ground arith, none_due now d.at rest (ground arith) head.0)))

-- `advance_time` ends with the heap in order and no deadline at or before `now` in it.
pub advance_time-NoneDue :
    (s : GenerationState) (now : MonotonicTime)
    → IsSorted s.deadlines
    → IsSorted (advance_time s now).0.deadlines × NoneDue now (advance_time s now).0.deadlines
unfolding advance_time
advance_time-NoneDue s now sorted =
    advance_loop-Finished (rounds_left s.deadlines) s now (omega arith) sorted

schedule_deadline-IsSorted :
    (s : GenerationState) (key : RequestKey) (at : MonotonicTime) (kind : DeadlineKind)
    → IsSorted s.deadlines
    → IsSorted (schedule_deadline s key at kind).0.deadlines
unfolding schedule_deadline
schedule_deadline-IsSorted s key at kind h =
    option_rule (λ (x : GenerationState × Bool). IsSorted x.0.deadlines) (get key s.requests)
      (λ _. h)
      λ r found.
        option_rule (λ (x : GenerationState × Bool). IsSorted x.0.deadlines)
          (checked_add u64_max r.deadline_version 1) (λ _. h) (λ v e. push-IsSorted _ s.deadlines h)

Move-IsSorted :
    {credited : Bool} {s t : GenerationState}
    → Move credited s t
    → IsSorted s.deadlines
    → IsSorted t.deadlines
unfolding settle settle_totals record_async conclude reserve
Move-IsSorted (touch key r c found l) h = h
Move-IsSorted {s} (schedule key at kind) h = schedule_deadline-IsSorted s key at kind h
Move-IsSorted {s} (free_payload key) h = rw (release_payload-deadlines s key) h
Move-IsSorted {s} (free_slot key) h = rw (release_admission-deadlines s key) h
Move-IsSorted {s} (give_back key r found e) h = rw (return_credits-deadlines s key r e) h
Move-IsSorted (Move.admit payload_bytes credit_charge id passed e) h = h
Move-IsSorted (settles key r grant available found u e by_response) h = h
Move-IsSorted (overflow key r grant found u by_response) h = h
Move-IsSorted (interim key r id found u free unchanged) h = h
Move-IsSorted (concludes key r found u seen) h = h
Move-IsSorted (pop d ds e) h = let sorted : IsSorted (d ∷ ds) = rw e at h in sorted.1
Move-IsSorted degrade h = h

Moves-IsSorted :
    {credited : Bool} {s t : GenerationState}
    → Moves credited s t
    → IsSorted s.deadlines
    → IsSorted t.deadlines
Moves-IsSorted here h = h
Moves-IsSorted (next p m) h = Move-IsSorted m (Moves-IsSorted p h)

-- After any history of a new generation, once the time is advanced to `now` no deadline at or
-- before `now` is left, also when a drain timeout of zero schedules one that is due at once.
pub run-NoneDue :
    (g id credits target : ℕ) (limits : AdmissionLimits) (timeout : ℕ) (es : List OwnerEvent)
    (now : MonotonicTime)
    → NoneDue now
        (advance_time (run (Data.new g id credits target limits timeout) es).0 now).0.deadlines
unfolding Data.new
run-NoneDue g id credits target limits timeout es now =
    (advance_time-NoneDue _ now
      (Moves-IsSorted (run-Moves (Data.new g id credits target limits timeout) es) tt)).1
