-- ===== src/Generation/Evolution.antt =====
-- What becomes of the requests of crates/smb/src/runtime/state.rs: none is ever dropped or renamed,
-- and only an admission adds one.
use smb_rs.Prelude.{
  ℕ, ◌+◌, ◌-◌, ◌≡◌, refl, ◌⊎◌, inl, inr, Bool, true, false, Option, none, some, get, insert,
  get-insert, arith, Option-cases, Bool-cases, Assoc, checked_add, u64_max, u32_max, ◌≤◌,
}
use smb_rs.Clock.{MonotonicTime}
use smb_rs.Reducer.{RequestKey, request_key_Eq, request_key_eq, request_key_iff, RequestRecord}
use smb_rs.Reducer.Evolution.{
  Evolves, Evolves-refl, reduce-Evolves, publish_terminal-Evolves,
  observe_response_commitment-Evolves,
}
use smb_rs.Generation.Data.{GenerationState, OwnedRequest, DeadlineKind}
use smb_rs.Generation.Ledger.{schedule_deadline, release_payload, release_admission, return_credits}
use smb_rs.Generation.Handlers.{rejection, reserve}
use smb_rs.Generation.Response.{settle, settle_totals, observe, record_async, conclude}
use smb_rs.Generation.Moves.{
  Touch, by_event, by_publish, untouched, Move, touch, schedule, free_payload, free_slot, give_back,
  settles, overflow, interim, concludes, pop, degrade,
}

-- What a request keeps for good, and what it only gives up.
pub record Keeps (r r' : OwnedRequest) : Type 0 where
  pub lifecycle : Evolves r.lifecycle r'.lifecycle
  pub same_charge : r'.credit_charge ≡ r.credit_charge
  pub same_bytes : r'.payload_bytes ≡ r.payload_bytes
  pub same_extra : r'.requested_extra_credits ≡ r.requested_extra_credits
  pub stays_seen : r.credit_response_seen ≡ true → r'.credit_response_seen ≡ true
  pub stays_free : r.admission_held ≡ false → r'.admission_held ≡ false
  pub stays_released : r.payload_held ≡ false → r'.payload_held ≡ false
  pub stays_settled : r.credit_obligation ≡ false → r'.credit_obligation ≡ false

abbrev pub Kept : Option OwnedRequest → Option OwnedRequest → Type 0
Kept none none = Unit {0}
Kept (some r) (some r') = Keeps r r'
Kept _ _ = ⊥

Keeps-lifecycle :
    (r : OwnedRequest) {l : RequestRecord} (c : Bool) (v : ℕ)
    → Evolves r.lifecycle l
    → Keeps r (record r { lifecycle = l; cancel_seen = c; deadline_version = v })
Keeps-lifecycle r c v e = record {
  lifecycle = e;
  same_charge = refl;
  same_bytes = refl;
  same_extra = refl;
  stays_seen = λ h. h;
  stays_free = λ h. h;
  stays_released = λ h. h;
  stays_settled = λ h. h;
}

Kept-refl : (o : Option OwnedRequest) → Kept o o
Kept-refl none = tt
Kept-refl (some r) = Keeps-lifecycle r r.cancel_seen r.deadline_version (Evolves-refl r.lifecycle)

Kept-write :
    (m : Assoc RequestKey OwnedRequest) (key : RequestKey) (r r' : OwnedRequest)
    → get key m ≡ some r
    → Keeps r r'
    → (k : RequestKey) → Kept (get k m) (get k (insert key r' m))
Kept-write m key r r' found kept k = elim (Bool-cases (request_key_eq key k)) [
  | inl same ↦ rw (get-insert key k r' m, same, ← (request_key_iff key k).0 same, found) kept
  | inr other ↦ rw (get-insert key k r' m, other) (Kept-refl (get k m))
]

Touch-Evolves : {l l' : RequestRecord} → Touch l l' → Evolves l l'
Touch-Evolves {l} (by_event e h) = reduce-Evolves l e
Touch-Evolves {l} (by_publish o) = publish_terminal-Evolves l o
Touch-Evolves {l} untouched = Evolves-refl l

schedule_deadline-Kept :
    (s : GenerationState) (key : RequestKey) (at : MonotonicTime) (kind : DeadlineKind)
    (k : RequestKey)
    → Kept (get k s.requests) (get k (schedule_deadline s key at kind).0.requests)
unfolding schedule_deadline
schedule_deadline-Kept s key at kind k = elim (Option-cases (get key s.requests)) [
  | inl e ↦ rw (e, schedule_deadline) (Kept-refl (get k s.requests))
  | inr (r, e) ↦ elim (Option-cases (checked_add u64_max r.deadline_version 1)) [
    | inl w ↦ rw (e, schedule_deadline) (rw (w, schedule_deadline) (Kept-refl (get k s.requests)))
    | inr (v, w) ↦
        rw (e, schedule_deadline)
          (rw (w, schedule_deadline)
            (Kept-write s.requests key r _ e
              (Keeps-lifecycle r r.cancel_seen v (Evolves-refl r.lifecycle)) k))
  ]
]

release_payload-Kept :
    (s : GenerationState) (key k : RequestKey)
    → Kept (get k s.requests) (get k (release_payload s key).requests)
unfolding release_payload
release_payload-Kept s key k = elim (Option-cases (get key s.requests)) [
  | inl e ↦ rw (e, release_payload) (Kept-refl (get k s.requests))
  | inr (r, e) ↦ elim (Bool-cases r.payload_held) [
    | inl w ↦
        rw (e, release_payload)
          (rw w (
            Kept-write s.requests key r _ e
              (record {
                lifecycle = Evolves-refl r.lifecycle;
                same_charge = refl;
                same_bytes = refl;
                same_extra = refl;
                stays_seen = λ h. h;
                stays_free = λ h. h;
                stays_released = λ h. refl;
                stays_settled = λ h. h;
              })
              k))
    | inr w ↦ rw (e, release_payload) (rw w (Kept-refl (get k s.requests)))
  ]
]

release_admission-Kept :
    (s : GenerationState) (key k : RequestKey)
    → Kept (get k s.requests) (get k (release_admission s key).requests)
unfolding release_admission
release_admission-Kept s key k = elim (Option-cases (get key s.requests)) [
  | inl e ↦ rw (e, release_admission) (Kept-refl (get k s.requests))
  | inr (r, e) ↦ elim (Bool-cases r.admission_held) [
    | inl w ↦
        rw (e, release_admission)
          (rw w (
            Kept-write s.requests key r _ e
              (record {
                lifecycle = Evolves-refl r.lifecycle;
                same_charge = refl;
                same_bytes = refl;
                same_extra = refl;
                stays_seen = λ h. h;
                stays_free = λ h. refl;
                stays_released = λ h. h;
                stays_settled = λ h. h;
              })
              k))
    | inr w ↦ rw (e, release_admission) (rw w (Kept-refl (get k s.requests)))
  ]
]

Keeps-settled :
    (r : OwnedRequest) (l : RequestRecord) (v : ℕ)
    → Evolves r.lifecycle l
    → Keeps r (record r { lifecycle = l; credit_obligation = false; deadline_version = v })
Keeps-settled r l v e = record {
  lifecycle = e;
  same_charge = refl;
  same_bytes = refl;
  same_extra = refl;
  stays_seen = λ h. h;
  stays_free = λ h. h;
  stays_released = λ h. h;
  stays_settled = λ h. refl;
}

-- The credits go back, or there were none to give back.
abbrev pub returned : GenerationState → RequestKey → OwnedRequest → ℕ → GenerationState
returned s key r available = record s {
  available_credits = available;
  pending_extra_credits = s.pending_extra_credits - r.requested_extra_credits;
  requests = insert key (record r { credit_obligation = false }) s.requests;
}

pub return_credits-cases :
    (s : GenerationState) (key : RequestKey) (r : OwnedRequest) {t : GenerationState}
    → return_credits s key r ≡ some t
    → ((r.credit_obligation ≡ false) × (t ≡ s))
      ⊎ ((r.credit_obligation ≡ true)
          × (s.available_credits + r.credit_charge ≤ u32_max)
          × (t ≡ returned s key r (s.available_credits + r.credit_charge)))
unfolding return_credits
return_credits-cases s key r e = elim (Bool-cases r.credit_obligation) [
  | inr w ↦ inl (w, ground arith)
  | inl w ↦ inr (w, ground arith, ground arith)
]

return_credits-Kept :
    (s : GenerationState) (key : RequestKey) (r : OwnedRequest) {t : GenerationState}
    → get key s.requests ≡ some r
    → return_credits s key r ≡ some t
    → (k : RequestKey) → Kept (get k s.requests) (get k t.requests)
return_credits-Kept s key r found e k = elim (return_credits-cases s key r e) [
  | inl (_, same) ↦ rw same (Kept-refl (get k s.requests))
  | inr (_, _, same) ↦ rw same (
      Kept-write s.requests key r _ found
        (Keeps-settled r r.lifecycle r.deadline_version (Evolves-refl r.lifecycle)) k)
]

settle-Kept :
    (s : GenerationState) (key : RequestKey) (r : OwnedRequest) (grant : ℕ) (k : RequestKey)
    → get key s.requests ≡ some r
    → Kept (get k s.requests) (get k (settle s key r grant).requests)
unfolding settle settle_totals observe
settle-Kept s key r grant k found =
    Kept-write s.requests key r _ found
      (record {
        lifecycle = observe_response_commitment-Evolves r.lifecycle;
        same_charge = refl;
        same_bytes = refl;
        same_extra = refl;
        stays_seen = λ h. refl;
        stays_free = λ h. h;
        stays_released = λ h. refl;
        stays_settled = λ h. h;
      })
      k

-- The generation and the next message id stay.
abbrev pub SameFrame : GenerationState → GenerationState → Type 0
SameFrame s t = (t.generation ≡ s.generation) × (t.next_message_id ≡ s.next_message_id)

schedule_deadline-SameFrame :
    (s : GenerationState) (key : RequestKey) (at : MonotonicTime) (kind : DeadlineKind)
    → SameFrame s (schedule_deadline s key at kind).0
unfolding schedule_deadline
schedule_deadline-SameFrame s key at kind = ground arith

release_payload-SameFrame :
    (s : GenerationState) (key : RequestKey) → SameFrame s (release_payload s key)
unfolding release_payload
release_payload-SameFrame s key = ground arith

release_admission-SameFrame :
    (s : GenerationState) (key : RequestKey) → SameFrame s (release_admission s key)
unfolding release_admission
release_admission-SameFrame s key = ground arith

return_credits-SameFrame :
    (s : GenerationState) (key : RequestKey) (r : OwnedRequest) {t : GenerationState}
    → return_credits s key r ≡ some t
    → SameFrame s t
return_credits-SameFrame s key r e = elim (return_credits-cases s key r e) [
  | inl (_, same) ↦ rw same (refl, refl)
  | inr (_, _, same) ↦ rw same (refl, refl)
]

-- What one move does to the requests.
pub data Effect (s t : GenerationState) : Type 0 where
  keeps :
      SameFrame s t → ((k : RequestKey) → Kept (get k s.requests) (get k t.requests)) → Effect s t
  adds :
      (payload_bytes credit_charge id : ℕ)
      → rejection s payload_bytes credit_charge ≡ none
      → s.next_message_id ≡ some id
      → t ≡ reserve s id payload_bytes credit_charge
      → Effect s t

pub Move-Effect : {credited : Bool} {s t : GenerationState} → Move credited s t → Effect s t
unfolding record_async conclude settle settle_totals
Move-Effect {s} (touch key r c found l) =
    keeps (refl, refl)
      (Kept-write s.requests key r _ found
        (Keeps-lifecycle r c r.deadline_version (Touch-Evolves l)))
Move-Effect {s} (schedule key at kind) =
    keeps (schedule_deadline-SameFrame s key at kind) (schedule_deadline-Kept s key at kind)
Move-Effect {s} (free_payload key) =
    keeps (release_payload-SameFrame s key) (release_payload-Kept s key)
Move-Effect {s} (free_slot key) =
    keeps (release_admission-SameFrame s key) (release_admission-Kept s key)
Move-Effect {s} (give_back key r found e) =
    keeps (return_credits-SameFrame s key r e) (return_credits-Kept s key r found e)
Move-Effect {s} (Move.admit payload_bytes credit_charge id passed e) =
    adds payload_bytes credit_charge id passed e refl
Move-Effect {s} (settles key r grant available found u e by_response) =
    keeps (refl, refl) (λ k. settle-Kept s key r grant k found)
Move-Effect {s} (overflow key r grant found u by_response) =
    keeps (refl, refl) (λ k. settle-Kept s key r grant k found)
Move-Effect {s} (interim key r id found u free same) =
    keeps (refl, refl)
      (Kept-write s.requests key r _ found
        (Keeps-lifecycle r r.cancel_seen r.deadline_version (reduce-Evolves r.lifecycle _)))
Move-Effect {s} (concludes key r found u seen) =
    keeps (refl, refl)
      (Kept-write s.requests key r _ found (Keeps-settled r _ _ (reduce-Evolves r.lifecycle _)))
Move-Effect {s} (pop d ds e) = keeps (refl, refl) (λ k. Kept-refl (get k s.requests))
Move-Effect {s} degrade = keeps (refl, refl) (λ k. Kept-refl (get k s.requests))
