-- ===== src/Examples/Hierarchies.antt =====
-- A connection with a session that is lost and recovered, for the theorems on
-- crates/smb/src/runtime/object_state.rs.
use mathlib.Core.List.{Nodup}
use smb_rs.Prelude.{
  ◌≡◌, ◌≢◌, ◌↔◌, refl, none, some, List, [], ◌∷◌, ◌++◌, map, arith, ok, err, stuck, get, insert,
  subst,
}
use smb_rs.Objects.Data.{
  ObjectToken, ObjectKind, ObjectPhase, active, recovering, closing, ObjectRecord, ObjectRegistry,
  own_protocol_close, await_existing_close, stale, replacement_published,
}
use smb_rs.Objects.Registry.{
  new, find_record, create_child, begin_recovery, validate_loop, validate_active,
  publish_replacement, begin_close, lose_generation,
}
use smb_rs.Objects.Hierarchy.{IsTree}
use smb_rs.Objects.History.{RegistryCall, run-IsTree}
use smb_rs.Objects.History
use smb_rs.Objects.Replacement.{next_token, publish_replacement_renews}
use smb_rs.Objects.Validity.{
  ActiveChain, validate_active_iff, begin_close_once, lose_generation-invalid,
}
use smb_rs.Objects.Queue
use smb_rs.Objects.Waiting.{Call, run, settled, wait_ids}
use smb_rs.Objects.Fairness.{IsFair, run-IsFair}
use smb_rs.Objects.Answers.{run-Nodup}
use smb_rs.Objects.Capacity.{IsBounded, run-IsBounded}

abbrev root : ObjectToken
root = record { generation = 3; id = 0; epoch = 0 }

abbrev logon : ObjectToken
logon = record { generation = 3; id = 1; epoch = 0 }

abbrev login : List RegistryCall
login = RegistryCall.creates root ObjectKind.session ∷ []

abbrev outage : List RegistryCall
outage = RegistryCall.creates root ObjectKind.session ∷ RegistryCall.recovers logon ∷ []

-- The registries that these calls leave.
abbrev with_session : ObjectPhase → ObjectRegistry
with_session phase = record {
  generation = 3;
  next_id = some 2;
  records =
      (0, record { token = root; kind = ObjectKind.connection; parent = none; phase = active })
      ∷ (1, record { token = logon; kind = ObjectKind.session; parent = some root; phase = phase })
      ∷ [];
  root = root;
}

abbrev session_record : ObjectPhase → ObjectRecord
session_record phase = record {
  token = logon;
  kind = ObjectKind.session;
  parent = some root;
  phase = phase;
}

outage_leaves : History.run (new 3) outage ≡ with_session recovering
unfolding History.run History.call new create_child begin_recovery validate_loop validate_active
    find_record get insert
outage_leaves = refl

login_leaves : History.run (new 3) login ≡ with_session active
unfolding History.run History.call new create_child find_record get insert
login_leaves = refl

run-IsTree_example : IsTree (History.run (new 3) outage)
run-IsTree_example = run-IsTree 3 outage

recovering-IsTree : IsTree (with_session recovering)
recovering-IsTree = subst IsTree outage_leaves (run-IsTree 3 outage)

active-IsTree : IsTree (with_session active)
active-IsTree = subst IsTree login_leaves (run-IsTree 3 login)

session_found :
    (phase : ObjectPhase) → find_record (with_session phase) logon ≡ ok (session_record phase)
unfolding find_record get
session_found phase = refl

validate_active_iff_example :
    ((validate_active (with_session active) logon ≡ ok tt)
      ↔ ActiveChain (with_session active) (some logon))
    × (validate_active (with_session active) logon ≢ stuck)
validate_active_iff_example = validate_active_iff (with_session active) logon active-IsTree

publish_replacement_renews_example :
    (t : ObjectRegistry) × (publish_replacement (with_session recovering) logon
      ≡ ok (t, replacement_published logon (next_token logon)))
    × (find_record t logon ≡ err stale)
    × (q : ObjectRecord) × (find_record t (next_token logon) ≡ ok q)
    × (q.phase ≡ active)
    × IsTree t
publish_replacement_renews_example =
    publish_replacement_renews (with_session recovering) logon (session_record recovering)
      (session_found recovering) refl (omega arith) recovering-IsTree

session_closes :
    begin_close (with_session active) logon ≡ ok (with_session closing, own_protocol_close)
unfolding begin_close find_record get insert
session_closes = refl

begin_close_once_example :
    (u : ObjectRegistry) × (begin_close (with_session closing) logon ≡ ok (u, await_existing_close))
begin_close_once_example =
    begin_close_once (with_session active) (with_session closing) logon session_closes

lose_generation-invalid_example :
    validate_active (lose_generation (with_session active)).0 logon ≢ ok tt
lose_generation-invalid_example = lose_generation-invalid (with_session active) logon

-- Three commands want to wait where two can; one is cancelled, and the others run out of time.
abbrev waits : List Call
waits =
    Call.enqueues logon (some 50)
    ∷ Call.enqueues root (some 80)
    ∷ Call.enqueues logon none
    ∷ Call.cancels 0
    ∷ Call.advances 90
    ∷ []

run-Nodup_example :
    let a = run (Queue.new 2) waits in Nodup (wait_ids a.queue.waits ++ map settled a.outcomes)
run-Nodup_example = run-Nodup 2 waits

run-IsFair_example : IsFair (Queue.new 2) (run (Queue.new 2) waits)
run-IsFair_example = run-IsFair (Queue.new 2) waits

run-IsBounded_example : IsBounded (run (Queue.new 2) waits).queue
unfolding Queue.new
run-IsBounded_example = run-IsBounded (Queue.new 2) waits (omega arith)
