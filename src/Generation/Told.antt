-- ===== src/Generation/Told.antt =====
-- What `disconnect` of crates/smb/src/runtime/state.rs tells the callers.
use smb_rs.Prelude.{
  true, Bool, ◌≡◌, refl, inl, inr, false, Option, none, some, [], ◌∷◌, if◌then◌else◌, get,
  get-insert, IsDistinct, keys, map, arith, Option-cases, Assoc,
}
use smb_rs.Reducer.{
  RequestKey, request_key_Eq, request_key_eq, request_key_iff, RequestRecord, RequestEvent,
  NetworkFailure, caller_is_open, is_open, wire_committed, publish, bookkeeping_only,
  TerminalOutcome, outcome_unknown, network_outcome_unknown, generation_closed, generation_lost,
}
use smb_rs.Reducer
use smb_rs.Generation.Data.{GenerationState, OwnedRequest, OwnerEffect}
use smb_rs.Generation.Ledger.{
  set_request, release_payload, release_admission, release_request_ownership,
}
use smb_rs.Generation.Handlers.{disconnect_one, disconnect_all}

unfoldable pub released : Option OwnedRequest → Option OwnedRequest
released none = none
released (some r) = some (record r { payload_held = false; admission_held = false })

release_payload-get :
    (s : GenerationState) (key k : RequestKey)
    → get k (release_payload s key).requests ≡ (
        if request_key_eq key k
        then elim (get k s.requests) [
          | none ↦ none
          | some r ↦ some (record r { payload_held = false })
        ]
        else get k s.requests)
unfolding release_payload
release_payload-get s key k = elim (Option-cases (get key s.requests)) [
  | inl e ↦ ground (arith, request_key_iff key k)
  | inr (r, e) ↦ ground (
    arith,
    request_key_iff key k,
    get-insert key k (record r { payload_held = false }) s.requests,
  )
]

release_admission-get :
    (s : GenerationState) (key k : RequestKey)
    → get k (release_admission s key).requests ≡ (
        if request_key_eq key k
        then elim (get k s.requests) [
          | none ↦ none
          | some r ↦ some (record r { admission_held = false })
        ]
        else get k s.requests)
unfolding release_admission
release_admission-get s key k = elim (Option-cases (get key s.requests)) [
  | inl e ↦ ground (arith, request_key_iff key k)
  | inr (r, e) ↦ ground (
    arith,
    request_key_iff key k,
    get-insert key k (record r { admission_held = false }) s.requests,
  )
]

pub release-get :
    (s : GenerationState) (key k : RequestKey)
    → get k (release_request_ownership s key).requests
      ≡ (if request_key_eq key k then released (get k s.requests) else get k s.requests)
unfolding release_request_ownership released
release-get s key k =
    ground (arith, release_admission-get (release_payload s key) key k, release_payload-get s key k)

-- What a lost connection means for a request: its outcome is unknown once a byte is on the wire, and
-- before that it is the failure of the network, or a plain end.
abbrev pub loss : (sent : Bool) → Option NetworkFailure → TerminalOutcome
loss true none = outcome_unknown
loss true (some failure) = network_outcome_unknown failure
loss false none = generation_closed
loss false (some NetworkFailure.connection_lost) = generation_lost
loss false (some NetworkFailure.timed_out) = TerminalOutcome.timed_out
loss false (some NetworkFailure.session_invalidated) = TerminalOutcome.session_invalidated

-- What a disconnect tells the caller of a request: the outcome of the loss, if nothing was told
-- before.
abbrev pub told : Option NetworkFailure → RequestKey × OwnedRequest → OwnerEffect
told network (key, r) = OwnerEffect.request key (
    if caller_is_open r.lifecycle
    then publish (loss (wire_committed r.lifecycle) network)
    else bookkeeping_only)

disconnect_one-told :
    (s : GenerationState) (network : Option NetworkFailure) (key : RequestKey) (r : OwnedRequest)
    → get key s.requests ≡ some r
    → (disconnect_one s network key).1 ≡ told network (key, r) ∷ []
unfolding disconnect_one Reducer.reduce
disconnect_one-told s network key r found = ground arith

disconnect_one-apart :
    (s : GenerationState) (network : Option NetworkFailure) (key k : RequestKey) (r : OwnedRequest)
    → request_key_eq key k ≡ false
    → get k s.requests ≡ some r
    → get k (disconnect_one s network key).0.requests ≡ some r
unfolding disconnect_one
disconnect_one-apart s network key k r' apart old = elim (Option-cases (get key s.requests)) [
  | inl e ↦ ground (arith, release-get s key k)
  | inr (r, e) ↦
      let answered = record r {
        lifecycle = (Reducer.reduce r.lifecycle (RequestEvent.disconnect network)).0;
      } in
      ground (
        arith,
        release-get (set_request s key answered) key k,
        get-insert key k answered s.requests,
      )
]

pub disconnect_all-told :
    (s : GenerationState) (network : Option NetworkFailure) (m : Assoc RequestKey OwnedRequest)
    → IsDistinct m
    → ((k : RequestKey) (r : OwnedRequest) → get k m ≡ some r → get k s.requests ≡ some r)
    → (disconnect_all s network (keys m)).1 ≡ map (told network) m
unfolding disconnect_all get
disconnect_all-told s network [] d found = refl
disconnect_all-told s network ((key, r) ∷ m) d found =
    let first =
      disconnect_one-told s network key r (found key r (ground (arith, request_key_iff key key))) in
    let rest = disconnect_all-told (disconnect_one s network key).0 network m d.1 λ k q later.
      let apart : request_key_eq key k ≡ false =
        ground (arith, d.0, later, request_key_iff key k) in
      disconnect_one-apart s network key k q apart (found k q (rw apart later)) in
    rw (first, rest) refl
