-- ===== src/Reducer/Once.antt =====
-- A caller is told one outcome: reducer.rs, `publish_once` and the arms of `reduce` that call it.
use smb_rs.Prelude.{◌≤◌, ◌≡◌, refl, sym, ap, ◌∙◌, List, [], ◌∷◌, ◌++◌, arith, length}
use mathlib.Core.List.{append_assoc, append-nil}
use mathlib.Core.Path.{◌≡⟨◌⟩◌, ◌∎}
use smb_rs.Reducer.{
  RequestKey, RequestRecord, RequestEvent, ReduceEffect, no_effect, publish, bookkeeping_only,
  ignored_foreign_generation, TerminalOutcome, terminal, still_open, CallerOutcome, reduce, run,
  new,
}

-- The outcomes that a list of effects publishes, in order.
abbrev pub published : List ReduceEffect → List TerminalOutcome
published [] = []
published (publish outcome ∷ es) = outcome ∷ published es
published (no_effect ∷ es) = published es
published (bookkeeping_only ∷ es) = published es
published (ignored_foreign_generation ∷ es) = published es

-- What a record says was published.
abbrev pub outcomes : CallerOutcome → List TerminalOutcome
outcomes still_open = []
outcomes (terminal outcome) = outcome ∷ []

published-cons :
    (e : ReduceEffect) (es : List ReduceEffect)
    → published (e ∷ es) ≡ published (e ∷ []) ++ published es
published-cons (publish outcome) es = refl
published-cons _ es = refl

-- One event publishes just what it adds to the record.
pub reduce-outcomes :
    (r : RequestRecord) (e : RequestEvent)
    → outcomes (reduce r e).0.caller ≡ outcomes r.caller ++ published ((reduce r e).1 ∷ [])
unfolding reduce
reduce-outcomes r e = ground arith

-- After any events from any record, the caller's recorded outcomes are those recorded before
-- followed by exactly those that the events published, in order.
pub run-outcomes :
    (r : RequestRecord) (es : List RequestEvent)
    → outcomes (run r es).0.caller ≡ outcomes r.caller ++ published (run r es).1
unfolding run
run-outcomes r [] = sym (append-nil _)
run-outcomes r (e ∷ es) =
    outcomes (run (reduce r e).0 es).0.caller
    ≡⟨ run-outcomes (reduce r e).0 es ⟩ outcomes (reduce r e).0.caller ++ told
    ≡⟨ ap (λ xs. xs ++ told) (reduce-outcomes r e) ⟩
      (outcomes r.caller ++ published ((reduce r e).1 ∷ [])) ++ told
    ≡⟨ append_assoc (outcomes r.caller) _ told ⟩
      outcomes r.caller ++ (published ((reduce r e).1 ∷ []) ++ told)
    ≡⟨ ap (◌++◌ (outcomes r.caller))
        (sym (published-cons (reduce r e).1 (run (reduce r e).0 es).1)) ⟩
      outcomes r.caller ++ published ((reduce r e).1 ∷ (run (reduce r e).0 es).1) ∎
  where
    told : List TerminalOutcome
    told = published (run (reduce r e).0 es).1

outcomes-le : (c : CallerOutcome) → length (outcomes c) ≤ 1
outcomes-le still_open = omega arith
outcomes-le (terminal outcome) = omega arith

-- Whatever events reach a new request, in whatever order, at most one outcome is published, and
-- the outcomes published are the record's own.
pub run-published_once :
    (key : RequestKey) (es : List RequestEvent)
    → (published (run (new key) es).1 ≡ outcomes (run (new key) es).0.caller)
      × (length (published (run (new key) es).1) ≤ 1)
unfolding new
run-published_once key es =
    let same : published (run (new key) es).1 ≡ outcomes (run (new key) es).0.caller =
      sym (run-outcomes (new key) es) in
    (same, rw same (outcomes-le (run (new key) es).0.caller))

told-rest :
    (c : CallerOutcome) (xs : List TerminalOutcome) (outcome : TerminalOutcome)
    → outcomes c ≡ outcome ∷ xs
    → (c ≡ terminal outcome) × (xs ≡ [])
told-rest still_open xs outcome h = ground arith
told-rest (terminal o) xs outcome h = ground arith

-- Once an outcome stands in the record, no events change it, and none publishes again.
pub terminal-run :
    (r : RequestRecord) (es : List RequestEvent) (outcome : TerminalOutcome)
    → r.caller ≡ terminal outcome
    → ((run r es).0.caller ≡ terminal outcome) × (published (run r es).1 ≡ [])
terminal-run r es outcome h =
    told-rest (run r es).0.caller (published (run r es).1) outcome
      (run-outcomes r es ∙ ap (λ c. outcomes c ++ published (run r es).1) h)
