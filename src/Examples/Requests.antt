-- ===== src/Examples/Requests.antt =====
-- Histories of one request, for the theorems on crates/smb/src/runtime/reducer.rs.
use smb_rs.Prelude.{
  ℕ, ◌≤◌, ◌≡◌, ◌≢◌, ◌↔◌, refl, inl, true, false, some, List, [], ◌∷◌, length, arith,
}
use smb_rs.Reducer.{
  RequestKey, RequestRecord, SendProgress, ResponseProgress, still_open, terminal, TerminalOutcome,
  RequestEvent, bookkeeping_only, ignored_foreign_generation, is_final, new, reduce, run,
}
use smb_rs.Reducer.Once.{outcomes, published, run-published_once, terminal-run}
use smb_rs.Reducer.Wire.{
  IsSound, run-IsSound, publishes_unknown, unknown_iff_committed, tombstone-final_response,
  misaddressed_ignored,
}

abbrev key : RequestKey
key = record { generation = 1; message_id = 7 }

abbrev stale_key : RequestKey
stale_key = record { generation = 0; message_id = 7 }

-- Ten bytes are written, the caller gives up, and the answer comes late.
abbrev late_answer : List RequestEvent
late_answer =
    RequestEvent.queue
    ∷ RequestEvent.write_progress 10
    ∷ RequestEvent.cancel
    ∷ RequestEvent.final_response key
    ∷ RequestEvent.deadline
    ∷ []

-- A request with ten bytes on the wire.
abbrev half_sent : RequestRecord
half_sent = record {
  key = key;
  caller = still_open;
  send = SendProgress.partial 10;
  progress = ResponseProgress.no_response;
  tombstone = false;
}

abbrev told : RequestRecord
told = record half_sent { caller = terminal TerminalOutcome.outcome_unknown; tombstone = true }

half_sent-IsSound : IsSound half_sent
half_sent-IsSound = ground arith

run-published_once_example :
    (published (run (new key) late_answer).1 ≡ outcomes (run (new key) late_answer).0.caller)
    × (length (published (run (new key) late_answer).1) ≤ 1)
run-published_once_example = run-published_once key late_answer

terminal-run_example :
    ((run told late_answer).0.caller ≡ terminal TerminalOutcome.outcome_unknown)
    × (published (run told late_answer).1 ≡ [])
terminal-run_example = terminal-run told late_answer TerminalOutcome.outcome_unknown refl

unknown_iff_committed_example :
    publishes_unknown (reduce half_sent RequestEvent.deadline).1 ≡ some true
unknown_iff_committed_example = unknown_iff_committed half_sent RequestEvent.deadline refl refl

run-IsSound_example : IsSound (run (new key) late_answer).0
run-IsSound_example = run-IsSound key late_answer

tombstone-final_response_example :
    ((reduce half_sent RequestEvent.cancel).0.tombstone ≡ true)
    × ((reduce
          (reduce half_sent RequestEvent.cancel).0
          (RequestEvent.final_response key)).0.tombstone
        ≡ false)
    × (is_final
          (reduce
            (reduce half_sent RequestEvent.cancel).0
            (RequestEvent.final_response key)).0.progress
        ≡ true)
    × ((reduce (reduce half_sent RequestEvent.cancel).0 (RequestEvent.final_response key)).1
        ≡ bookkeeping_only)
tombstone-final_response_example =
    tombstone-final_response half_sent RequestEvent.cancel (inl refl) half_sent-IsSound refl refl

stale_key_other : stale_key ≢ key
stale_key_other = λ h. ground arith

misaddressed_ignored_example :
    ((reduce half_sent (RequestEvent.final_response stale_key)).0 ≡ half_sent)
    × (((reduce half_sent (RequestEvent.final_response stale_key)).1 ≡ ignored_foreign_generation)
        ↔ (◌≢◌ {A = ℕ} 0 1))
misaddressed_ignored_example =
    misaddressed_ignored half_sent (RequestEvent.final_response stale_key) stale_key refl
      stale_key_other
