-- ===== src/Generation/Deadlines.antt =====
-- crates/smb/src/runtime/state.rs, `advance_time`: the deadlines that have come.
use smb_rs.Prelude.{
  ℕ, zero, suc, ◌+◌, true, not, ◌&&◌, none, some, List, [], ◌∷◌, ◌++◌, if◌then◌else◌, get, ◌==◌,
  leb,
}
use smb_rs.Clock.{MonotonicTime}
use smb_rs.Reducer.{request_key_Eq, RequestEvent, is_final, wire_committed, caller_is_open}
use smb_rs.Reducer
use smb_rs.Generation.Data.{
  GenerationState, DeadlineEntry, DeadlineKind, OwnedRequest, OwnerEffect, stale_deadline_ignored,
  generation_unhealthy,
}
use smb_rs.Generation.Ledger.{set_request}
use smb_rs.Generation.Handlers.{Step, roll_back, drain}

-- The `match entry.kind`, for a request whose version is the entry's.
unfoldable pub expire :
    GenerationState → MonotonicTime → DeadlineEntry → OwnedRequest → DeadlineKind → Step
expire s now entry r DeadlineKind.caller =
    if not (caller_is_open r.lifecycle)
    then (s, stale_deadline_ignored entry.key ∷ [])
    else let (lifecycle, effect) = Reducer.reduce r.lifecycle RequestEvent.deadline in
      let s' = set_request s entry.key (record r { lifecycle = lifecycle }) in
      let (s'', effects) =
        if wire_committed r.lifecycle then drain s' entry.key now else roll_back s' entry.key in
      (s'', OwnerEffect.request entry.key effect ∷ effects)
expire s now entry r DeadlineKind.tombstone =
    if r.lifecycle.tombstone && not (is_final r.lifecycle.progress)
    then (record s { unhealthy = true }, generation_unhealthy entry.key ∷ [])
    else (s, stale_deadline_ignored entry.key ∷ [])

-- One round of the loop, for an entry that has been popped.
unfoldable pub fire : GenerationState → MonotonicTime → DeadlineEntry → Step
fire s now entry = elim (get entry.key s.requests) [
  | none ↦ (s, stale_deadline_ignored entry.key ∷ [])
  | some r ↦
      if not (r.deadline_version == entry.version)
      then (s, stale_deadline_ignored entry.key ∷ [])
      else expire s now entry r entry.kind
]

-- How many rounds an entry can take: a caller's deadline may schedule a tombstone's.
abbrev pub rounds : DeadlineEntry → ℕ
rounds entry = elim entry.kind [ DeadlineKind.caller ↦ 2 | DeadlineKind.tombstone ↦ 1 ]

abbrev pub rounds_left : List DeadlineEntry → ℕ
rounds_left [] = 0
rounds_left (d ∷ ds) = rounds d + rounds_left ds

unfoldable pub advance_loop : ℕ → GenerationState → MonotonicTime → Step
advance_loop zero s now = (s, [])
advance_loop (suc fuel) s now = elim s.deadlines [
  | [] ↦ (s, [])
  | entry ∷ rest ↦
      let (s', effects) = fire (record s { deadlines = rest }) now entry in
      let (last, more) = advance_loop fuel s' now in
      if leb entry.at now then (last, effects ++ more) else (s, [])
]

-- The `while` loop, with as many rounds as it can take.
unfoldable pub advance_time : GenerationState → MonotonicTime → Step
advance_time s now = advance_loop (rounds_left s.deadlines) s now
