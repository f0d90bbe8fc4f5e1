-- ===== src/Generation/Identity.antt =====
-- Message ids of crates/smb/src/runtime/state.rs: who holds which part of the sequence.
use smb_rs.Prelude.{
  Bool, ℕ, ◌+◌, ◌≤◌, ◌<◌, ◌≡◌, ◌≢◌, refl, sym, ◌∙◌, ◌⊎◌, inl, inr, Option, none, some, List, get,
  get-insert_cases, arith, Option-cases, checked_add, u64_max,
}
use smb_rs.Reducer.{RequestKey, request_key_Eq, request_key_eq, request_key_iff}
use smb_rs.Reducer
use smb_rs.Reducer.Wire.{IsSound, new-IsSound}
use smb_rs.Generation.Data.{GenerationState, OwnedRequest, OwnerEvent, AdmissionLimits}
use smb_rs.Generation.Data
use smb_rs.Generation.Handlers.{rejection, reserve, new_request}
use smb_rs.Generation.Moves.{Move, Moves, here, next}
use smb_rs.Generation.Evolution.{Keeps, Kept, keeps, adds, Move-Effect, SameFrame}
use smb_rs.Generation.Owner.{reduce, run}
use smb_rs.Generation.Paths.{reduce-Moves, run-Moves}
use smb_rs.Generation.Counts.{IsFresh, Counts, Move-Counts}

-- The whole window of a request lies below the next id; past the last id nothing is admitted.
abbrev Below : ℕ → Option ℕ → Type 0
Below top none = Unit {0}
Below top (some id) = top ≤ id

abbrev pub window_end : RequestKey → OwnedRequest → ℕ
window_end k r = k.message_id + r.credit_charge

pub record Owns (s : GenerationState) (k : RequestKey) (r : OwnedRequest) : Type 0 where
  pub same_generation : k.generation ≡ s.generation
  pub own_key : r.lifecycle.key ≡ k
  pub sound : IsSound r.lifecycle
  pub charged : 0 < r.credit_charge
  pub below : Below (window_end k r) s.next_message_id

-- Every request has its own key, and a window of ids that no other request's overlaps.
pub record Identity (s : GenerationState) : Type 0 where
  pub owns : (k : RequestKey) (r : OwnedRequest) → get k s.requests ≡ some r → Owns s k r
  pub apart :
      (k j : RequestKey) (r q : OwnedRequest)
      → get k s.requests ≡ some r
      → get j s.requests ≡ some q
      → k ≢ j
      → (window_end k r ≤ j.message_id) ⊎ (window_end j q ≤ k.message_id)

pub Identity-IsFresh : (s : GenerationState) → Identity s → IsFresh s
Identity-IsFresh s v id e =
    let key : RequestKey = record { generation = s.generation; message_id = id } in
    elim (Option-cases (get key s.requests)) [
      | inl missing ↦ missing
      | inr (r, found) ↦ let o = v.owns key r found in absurd (ground (arith, o.charged, o.below))
    ]

Kept-back :
    (o : Option OwnedRequest) (r' : OwnedRequest)
    → Kept o (some r')
    → (r : OwnedRequest) × (o ≡ some r) × Keeps r r'
Kept-back none r' h = absurd h
Kept-back (some r) r' h = (r, refl, h)

found-before :
    (s t : GenerationState) (k : RequestKey) (r' : OwnedRequest)
    → ((k : RequestKey) → Kept (get k s.requests) (get k t.requests))
    → get k t.requests ≡ some r'
    → (r : OwnedRequest) × (get k s.requests ≡ some r) × Keeps r r'
found-before s t k r' kept found = Kept-back (get k s.requests) r' (rw found at (kept k))

keeps-Identity :
    (s t : GenerationState)
    → SameFrame s t
    → ((k : RequestKey) → Kept (get k s.requests) (get k t.requests))
    → Identity s
    → Identity t
keeps-Identity s t (g, n) kept v = record {
  owns = λ k r' found.
      let (r, before, same) = found-before s t k r' kept found in
      let o = v.owns k r before in
      record {
        same_generation = o.same_generation ∙ sym g;
        own_key = same.lifecycle.same_key ∙ o.own_key;
        sound = same.lifecycle.stays_sound o.sound;
        charged = rw same.same_charge o.charged;
        below = rw (n, same.same_charge) o.below;
      };
  apart = λ k j r' q' at_k at_j ne.
      let (r, before_k, same_r) = found-before s t k r' kept at_k in
      let (q, before_j, same_q) = found-before s t j q' kept at_j in
      rw (same_r.same_charge, same_q.same_charge) (v.apart k j r q before_k before_j ne);
}

-- A request after an admission is the new one or an old one.
reserve-get :
    (s : GenerationState) (payload_bytes credit_charge id : ℕ) (k : RequestKey) (r : OwnedRequest)
    → get k (reserve s id payload_bytes credit_charge).requests ≡ some r
    → ((k ≡ record { generation = s.generation; message_id = id })
        × (r.credit_charge ≡ credit_charge)
        × (r.lifecycle ≡ Reducer.new k))
      ⊎ (get k s.requests ≡ some r)
unfolding reserve new_request
reserve-get s payload_bytes credit_charge id k r found =
    elim (get-insert_cases _ k _ r s.requests found) [
      | inl (same, made) ↦ inl (sym same, ground arith, ground arith)
      | inr (other, old) ↦ inr old
    ]

Below-add :
    (top id credit_charge : ℕ) (next_id : Option ℕ)
    → next_id ≡ some id
    → Below top next_id
    → Below top (checked_add u64_max id credit_charge)
Below-add top id credit_charge none e b = ground arith
Below-add top id credit_charge (some n) e b = ground arith

new-Owns :
    (s : GenerationState) (payload_bytes credit_charge id : ℕ) (k : RequestKey) (r : OwnedRequest)
    → rejection s payload_bytes credit_charge ≡ none
    → k ≡ record { generation = s.generation; message_id = id }
    → r.credit_charge ≡ credit_charge
    → r.lifecycle ≡ Reducer.new k
    → Owns (reserve s id payload_bytes credit_charge) k r
unfolding reserve rejection Reducer.new
new-Owns s payload_bytes credit_charge id k r passed at_key charge made = record {
  same_generation = ground arith;
  own_key = ground arith;
  sound = rw made (new-IsSound k);
  charged = ground arith;
  below = ground arith;
}

reserve-Identity :
    (s : GenerationState) (payload_bytes credit_charge id : ℕ)
    → rejection s payload_bytes credit_charge ≡ none
    → s.next_message_id ≡ some id
    → Identity s
    → Identity (reserve s id payload_bytes credit_charge)
unfolding reserve
reserve-Identity s payload_bytes credit_charge id passed e v = record {
  owns = λ k r found. elim (reserve-get s payload_bytes credit_charge id k r found) [
    | inl (at_key, charge, made) ↦
        new-Owns s payload_bytes credit_charge id k r passed at_key charge made
    | inr old ↦
        let o = v.owns k r old in
        record {
          same_generation = o.same_generation;
          own_key = o.own_key;
          sound = o.sound;
          charged = o.charged;
          below = Below-add _ id credit_charge s.next_message_id e o.below;
        }
  ];
  apart = λ k j r q at_k at_j ne. elim (reserve-get s payload_bytes credit_charge id k r at_k) [
    | inl (k_new, _, _) ↦ elim (reserve-get s payload_bytes credit_charge id j q at_j) [
      | inl (j_new, _, _) ↦ absurd (ne (k_new ∙ sym j_new))
      | inr j_old ↦ inr (older j q j_old k_new)
    ]
    | inr k_old ↦ elim (reserve-get s payload_bytes credit_charge id j q at_j) [
      | inl (j_new, _, _) ↦ inl (older k r k_old j_new)
      | inr j_old ↦ v.apart k j r q k_old j_old ne
    ]
  ];
}
  where
    older :
        (j : RequestKey) (q : OwnedRequest) {k : RequestKey}
        → get j s.requests ≡ some q
        → k ≡ record { generation = s.generation; message_id = id }
        → window_end j q ≤ k.message_id
    older j q old new = let o = v.owns j q old in ground (arith, o.below)

Move-Identity :
    {credited : Bool} {s t : GenerationState} → Move credited s t → Identity s → Identity t
Move-Identity {s} {t} m v = elim (Move-Effect m) [
  | keeps frame kept ↦ keeps-Identity s t frame kept v
  | adds payload_bytes credit_charge id passed e same ↦
      rw same (reserve-Identity s payload_bytes credit_charge id passed e v)
]

pub new-Identity :
    (g id credits target : ℕ) (limits : AdmissionLimits) (timeout : ℕ)
    → Identity (Data.new g id credits target limits timeout)
unfolding Data.new get
new-Identity g id credits target limits timeout = record {
  owns = λ k r found. cc;
  apart = λ k j r q found _ _. cc;
}

new-Counts :
    (g id credits target : ℕ) (limits : AdmissionLimits) (timeout : ℕ)
    → Counts (Data.new g id credits target limits timeout)
unfolding Data.new
new-Counts g id credits target limits timeout = ground arith

-- What holds of the owner's state between two events.
pub record Inv (s : GenerationState) : Type 0 where
  pub identity : Identity s
  pub counts : Counts s

Moves-Inv : {credited : Bool} {s t : GenerationState} → Moves credited s t → Inv s → Inv t
Moves-Inv here v = v
Moves-Inv {s} (next {t = t} p m) v =
    let w = Moves-Inv p v in
    record {
      identity = Move-Identity m w.identity;
      counts = Move-Counts m (Identity-IsFresh t w.identity) w.counts;
    }

pub Moves-Identity :
    {credited : Bool} {s t : GenerationState} → Moves credited s t → Identity s → Identity t
Moves-Identity here v = v
Moves-Identity (next p m) v = Move-Identity m (Moves-Identity p v)

-- Every event keeps the counters exact and within the admission limits, and the message id windows
-- of the requests apart.
pub reduce-Inv : (s : GenerationState) (e : OwnerEvent) → Inv s → Inv (reduce s e).0
reduce-Inv s e v = Moves-Inv (reduce-Moves s e) v

-- After any history of a new generation the counters of admission slots and payload bytes are the
-- sums over the requests and within the limits; every request stands under its own key, with a
-- positive charge and a window of message ids below the next id, and no two windows overlap.
pub run-Inv :
    (g id credits target : ℕ) (limits : AdmissionLimits) (timeout : ℕ) (es : List OwnerEvent)
    → Inv (run (Data.new g id credits target limits timeout) es).0
run-Inv g id credits target limits timeout es =
    Moves-Inv (run-Moves (Data.new g id credits target limits timeout) es) (record {
      identity = new-Identity g id credits target limits timeout;
      counts = new-Counts g id credits target limits timeout;
    })
