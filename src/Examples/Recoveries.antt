-- ===== src/Examples/Recoveries.antt =====
-- Outages and waits, for the theorems on crates/smb/src/runtime/recovery.rs and
-- crates/smb/src/runtime/preparation_order.rs.
use smb_rs.Prelude.{
  ℕ, ◌+◌, ◌*◌, ◌≤◌, ◌≡◌, refl, true, none, some, List, [], ◌∷◌, arith, nat_eq, get, insert,
}
use smb_rs.Recovery.{
  RecoveryPolicy, RecoveryEvent, connected, transport_lost, wake, attempt_failed, attempt_succeeded,
  backoff, run,
}
use smb_rs.Recovery.Budget.{starts, publications, run-starts}
use smb_rs.Recovery.Timing.{doubled, backoff-doubled}
use smb_rs.Ordering.{OrderedCompletionQueue, contains, complete}
use smb_rs.Ordering.Release.{IsOrdered, Released, complete-in_order}

abbrev twice : RecoveryPolicy
twice = record {
  max_attempts = 2;
  attempt_timeout = 30;
  total_timeout = 200;
  initial_backoff = 10;
  maximum_backoff = 50;
  maximum_jitter = 5;
  max_waiting_operations = 4;
}

abbrev outage : List RecoveryEvent
outage =
    transport_lost 1 100 ∷ wake 100 ∷ attempt_failed 120 3 ∷ wake 133 ∷ attempt_succeeded 2 ∷ []

run-starts_example :
    starts (run twice (connected 1) outage).1
    ≤ 2 * (1 + publications (run twice (connected 1) outage).1)
run-starts_example = run-starts twice 1 outage

backoff-doubled_example : backoff twice 3 ≡ doubled twice 3
backoff-doubled_example = backoff-doubled twice 3 (omega arith)

-- Keys 5 and 6 are reserved in this order, and 6 has completed.
abbrev five_first : OrderedCompletionQueue ℕ ℕ
five_first = record { order = 5 ∷ 6 ∷ []; reserved = 6 ∷ 5 ∷ []; completed = (6, 60) ∷ [] }

five_first-IsOrdered : IsOrdered five_first
unfolding contains get
five_first-IsOrdered = record {
  distinct = (refl, (refl, tt));
  same = λ k. ground arith;
  reserved_only = λ k h. ground arith;
}

five_waits : get 5 (five_first.completed) ≡ none
unfolding get
five_waits = refl

five_reserved : contains 5 (five_first.order) ≡ true
unfolding contains
five_reserved = refl

complete-in_order_example :
    (x : OrderedCompletionQueue ℕ ℕ × List ℕ) × (complete five_first 5 50 ≡ some x)
    × Released (five_first.order) (insert 5 50 five_first.completed) x
complete-in_order_example =
    complete-in_order five_first 5 50 five_first-IsOrdered five_reserved five_waits
