-- ===== src/Generation/Closing.antt =====
-- `disconnect` of crates/smb/src/runtime/state.rs: the end of a generation.
use smb_rs.Prelude.{
  ℕ, ◌≡◌, sym, ◌∙◌, ◌⊎◌, inl, inr, false, Option, some, List, [], ◌∷◌, get, get-insert, IsDistinct,
  In, get-In, keys, map, sum_by_zero, arith, Option-cases,
}
use smb_rs.Reducer.{
  RequestKey, request_key_Eq, request_key_eq, request_key_iff, RequestRecord, RequestEvent,
  NetworkFailure, caller_is_open, is_open, wire_committed, publish, bookkeeping_only,
}
use smb_rs.Reducer
use smb_rs.Generation.Data.{
  GenerationState, OwnedRequest, OwnerEvent, AdmissionLimits, DeadlineKind, OwnerEffect,
}
use smb_rs.Generation.Data
use smb_rs.Generation.Ledger.{set_request}
use smb_rs.Generation.Handlers.{disconnect_one, disconnect_all, disconnect}
use smb_rs.Generation.Owner.{reduce, run, unresolved_callers, open_count}
use smb_rs.Generation.Paths.{reduce-Moves, run-Moves}
use smb_rs.Generation.Counts.{Counts, slot, held_bytes}
use smb_rs.Generation.Identity.{reduce-Inv, run-Inv}
use smb_rs.Generation.Distinct.{Moves-IsDistinct}
use smb_rs.Generation.Told.{released, release-get, told, disconnect_all-told}

-- A request that nobody waits for and that holds nothing.
pub record IsClosed (r : OwnedRequest) : Type 0 where
  pub told : is_open r.lifecycle.caller ≡ false
  pub no_tombstone : r.lifecycle.tombstone ≡ false
  pub no_slot : r.admission_held ≡ false
  pub no_payload : r.payload_held ≡ false

disconnected :
    (l : RequestRecord) (network : Option NetworkFailure)
    → (is_open (Reducer.reduce l (RequestEvent.disconnect network)).0.caller ≡ false)
      × ((Reducer.reduce l (RequestEvent.disconnect network)).0.tombstone ≡ false)
unfolding Reducer.reduce
disconnected l network = ground arith

-- One round closes the request of its key and leaves the others.
disconnect_one-get :
    (s : GenerationState) (network : Option NetworkFailure) (key k : RequestKey) (r' : OwnedRequest)
    → get k (disconnect_one s network key).0.requests ≡ some r'
    → ((key ≡ k) × IsClosed r') ⊎ ((request_key_eq key k ≡ false) × (get k s.requests ≡ some r'))
unfolding disconnect_one released
disconnect_one-get s network key k r' h = elim (Option-cases (get key s.requests)) [
  | inl e ↦ ground (arith, request_key_iff key k, release-get s key k)
  | inr (r, e) ↦
      let told = record r {
        lifecycle = (Reducer.reduce r.lifecycle (RequestEvent.disconnect network)).0;
      } in
      ground (
        arith,
        request_key_iff key k,
        release-get (set_request s key told) key k,
        get-insert key k told s.requests,
        disconnected r.lifecycle network,
      )
]

disconnect_all-IsClosed :
    (s : GenerationState) (network : Option NetworkFailure) (ks : List RequestKey) (k : RequestKey)
    (r' : OwnedRequest)
    → get k (disconnect_all s network ks).0.requests ≡ some r'
    → ((r : OwnedRequest) → get k s.requests ≡ some r → In k ks ⊎ IsClosed r)
    → IsClosed r'
unfolding disconnect_all
disconnect_all-IsClosed s network [] k r' h before = elim (before r' h) [
  | inl none_left ↦ absurd none_left
  | inr closed ↦ closed
]
disconnect_all-IsClosed s network (key ∷ ks) k r' h before =
    disconnect_all-IsClosed (disconnect_one s network key).0 network ks k r' h λ r found.
      elim (disconnect_one-get s network key k r found) [
        | inl (same, closed) ↦ inr closed
        | inr (other, old) ↦ elim (before r old) [
          | inl (inl same) ↦ absurd (ground (arith, request_key_iff key k))
          | inl (inr later) ↦ inl later
          | inr closed ↦ inr closed
        ]
      ]

-- After a disconnect every request is closed.
disconnect-IsClosed :
    (s : GenerationState) (network : Option NetworkFailure) (k : RequestKey) (r : OwnedRequest)
    → get k (disconnect s network).0.requests ≡ some r
    → IsClosed r
unfolding disconnect
disconnect-IsClosed s network k r h =
    disconnect_all-IsClosed s network (keys s.requests) k r h
      (λ r' found. inl (get-In k r' s.requests found))

open_count_zero : (r : OwnedRequest) → is_open r.lifecycle.caller ≡ false → open_count r ≡ 0
open_count_zero r h = ground arith

Counts-disconnect :
    (g id credits target : ℕ) (limits : AdmissionLimits) (timeout : ℕ) (es : List OwnerEvent)
    (network : Option NetworkFailure)
    → let s = (run (Data.new g id credits target limits timeout) es).0 in
      IsDistinct (disconnect s network).0.requests × Counts (disconnect s network).0
unfolding reduce Data.new
Counts-disconnect g id credits target limits timeout es network =
    let start = Data.new g id credits target limits timeout in
    let s = (run start es).0 in
    (
      Moves-IsDistinct (reduce-Moves s (OwnerEvent.disconnect network))
          (Moves-IsDistinct (run-Moves start es) tt),
      (reduce-Inv s (OwnerEvent.disconnect network)
          (run-Inv g id credits target limits timeout es)).counts,
    )

-- However a generation got where it is, a disconnect has one effect for each of its requests, which
-- stand under different keys. An open caller is told that its outcome is unknown if a byte of the
-- request is committed to the wire, and otherwise the failure of the network, or the plain end; for
-- any other caller there is bookkeeping only. Then no caller is open, and every admission slot and
-- every payload byte has been given back.
pub run-disconnect :
    (g id credits target : ℕ) (limits : AdmissionLimits) (timeout : ℕ) (es : List OwnerEvent)
    (network : Option NetworkFailure)
    → let s = (run (Data.new g id credits target limits timeout) es).0 in
      let (t, effects) = reduce s (OwnerEvent.disconnect network) in
      IsDistinct s.requests
      × (effects ≡ map (told network) s.requests)
      × (unresolved_callers t ≡ 0)
      × (t.admitted_operations ≡ 0)
      × (t.retained_payload_bytes ≡ 0)
unfolding reduce disconnect unresolved_callers Data.new
run-disconnect g id credits target limits timeout es network =
    let start = Data.new g id credits target limits timeout in
    let s = (run start es).0 in
    let t = (disconnect s network).0 in
    let (distinct, counts) = Counts-disconnect g id credits target limits timeout es network in
    let before = Moves-IsDistinct (run-Moves start es) tt in
    let closed = disconnect-IsClosed s network in
    (
      before,
      disconnect_all-told s network s.requests before (λ k r found. found),
      sum_by_zero open_count t.requests distinct
          (λ k r found. open_count_zero r (closed k r found).told),
      sym counts.slots
          ∙ sum_by_zero slot t.requests distinct
              (λ k r found. let c = closed k r found in ground (arith, c.no_slot)),
      sym counts.bytes
          ∙ sum_by_zero held_bytes t.requests distinct
              (λ k r found. let c = closed k r found in ground (arith, c.no_payload)),
    )
