-- ===== src/Reducer/Wire.antt =====
-- What a record says of the wire: reducer.rs, `send`, `response` and `tombstone` through `reduce`.
use smb_rs.Prelude.{
  ◌≤◌, ◌<◌, ◌≡◌, ◌≢◌, true, false, List, [], ◌∷◌, ◌⊎◌, arith, usize_max, Bool, Option, some, none,
  ◌↔◌,
}
use smb_rs.Reducer.{
  RequestKey, RequestRecord, RequestEvent, ReduceEffect, publish, TerminalOutcome, still_open,
  committed, partial, SendProgress, is_final, is_open, pending, final_response, recovery_hint,
  cancel, deadline, disconnect, outcome_unknown, network_outcome_unknown, reduce, run, new,
  bookkeeping_only, ignored_foreign_generation,
}

abbrev pub IsUsize : SendProgress → Type 0
IsUsize (partial bytes) = (0 < bytes) × (bytes ≤ usize_max)
IsUsize _ = Unit {0}

-- The byte count of a partial write stays a positive `usize`, and a tombstone stands only for a
-- caller that has its outcome, on a committed request whose final response is missing.
pub record IsSound (r : RequestRecord) : Type 0 where
  pub partial_bytes : IsUsize r.send
  pub tombstone_committed : r.tombstone ≡ true → committed r.send ≡ true
  pub tombstone_unanswered : r.tombstone ≡ true → is_final r.progress ≡ false
  pub tombstone_told : r.tombstone ≡ true → is_open r.caller ≡ false

pub new-IsSound : (key : RequestKey) → IsSound (new key)
unfolding new
new-IsSound key = ground arith

-- Every event keeps a record sound.
pub reduce-IsSound : (r : RequestRecord) (e : RequestEvent) → IsSound r → IsSound (reduce r e).0
unfolding reduce
reduce-IsSound r e s = ground arith

reduce-committed :
    (r : RequestRecord) (e : RequestEvent)
    → committed r.send ≡ true
    → committed (reduce r e).0.send ≡ true
unfolding reduce
reduce-committed r e h = ground arith

reduce-is_final :
    (r : RequestRecord) (e : RequestEvent)
    → is_final r.progress ≡ true
    → is_final (reduce r e).0.progress ≡ true
unfolding reduce
reduce-is_final r e h = ground arith

-- A request that is committed to the wire stays committed, whatever events follow.
run-committed :
    (r : RequestRecord) (es : List RequestEvent)
    → committed r.send ≡ true
    → committed (run r es).0.send ≡ true
unfolding run
run-committed r [] h = h
run-committed r (e ∷ es) h = run-committed (reduce r e).0 es (reduce-committed r e h)

-- A request that has its final response keeps it, whatever events follow.
pub run-is_final :
    (r : RequestRecord) (es : List RequestEvent)
    → is_final r.progress ≡ true
    → is_final (run r es).0.progress ≡ true
unfolding run
run-is_final r [] h = h
run-is_final r (e ∷ es) h = run-is_final (reduce r e).0 es (reduce-is_final r e h)

run_from-IsSound : (r : RequestRecord) (es : List RequestEvent) → IsSound r → IsSound (run r es).0
unfolding run
run_from-IsSound r [] s = s
run_from-IsSound r (e ∷ es) s = run_from-IsSound (reduce r e).0 es (reduce-IsSound r e s)

-- A new request stays sound under any events.
pub run-IsSound : (key : RequestKey) (es : List RequestEvent) → IsSound (run (new key) es).0
run-IsSound key es = run_from-IsSound (new key) es (new-IsSound key)

-- The outcomes that leave the effect on the server unknown.
abbrev pub is_unknown : TerminalOutcome → Bool
is_unknown outcome_unknown = true
is_unknown (network_outcome_unknown failure) = true
is_unknown _ = false

abbrev pub ends_without_response : RequestEvent → Bool
ends_without_response cancel = true
ends_without_response deadline = true
ends_without_response (disconnect network) = true
ends_without_response _ = false

-- Whether a published outcome is an unknown one; `none` if the effect publishes nothing.
abbrev pub publishes_unknown : ReduceEffect → Option Bool
publishes_unknown (publish outcome) = some (is_unknown outcome)
publishes_unknown _ = none

-- A cancel, a deadline or a disconnect that finds the caller open publishes an outcome, and it is
-- an unknown one exactly when a byte of the request has been committed to the wire.
pub unknown_iff_committed :
    (r : RequestRecord) (e : RequestEvent)
    → ends_without_response e ≡ true
    → r.caller ≡ still_open
    → publishes_unknown (reduce r e).1 ≡ some (committed r.send)
unfolding reduce
unknown_iff_committed r e h c = ground arith

-- The key that a response, an interim response or a recovery hint carries.
abbrev pub addressed : RequestEvent → Option RequestKey
addressed (pending key async_id) = some key
addressed (final_response key) = some key
addressed (recovery_hint key) = some key
addressed _ = none

-- A response, an interim response or a recovery hint with another request's key changes nothing;
-- it is reported as foreign exactly when the generations differ.
pub misaddressed_ignored :
    (r : RequestRecord) (e : RequestEvent) (key : RequestKey)
    → addressed e ≡ some key
    → key ≢ r.key
    → ((reduce r e).0 ≡ r)
      × (((reduce r e).1 ≡ ignored_foreign_generation) ↔ (key.generation ≢ r.key.generation))
unfolding reduce
misaddressed_ignored r e key h ne = ground arith

-- A cancel or a deadline leaves a tombstone on a sound request that is committed and has no final
-- response; the final response clears it, is recorded, and publishes nothing.
pub tombstone-final_response :
    (r : RequestRecord) (e : RequestEvent)
    → (e ≡ cancel) ⊎ (e ≡ deadline)
    → IsSound r
    → committed r.send ≡ true
    → is_final r.progress ≡ false
    → ((reduce r e).0.tombstone ≡ true)
      × ((reduce (reduce r e).0 (final_response r.key)).0.tombstone ≡ false)
      × (is_final (reduce (reduce r e).0 (final_response r.key)).0.progress ≡ true)
      × ((reduce (reduce r e).0 (final_response r.key)).1 ≡ bookkeeping_only)
unfolding reduce
tombstone-final_response r e h s c f = ground arith
