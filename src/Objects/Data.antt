-- ===== src/Objects/Data.antt =====
-- crates/smb/src/runtime/object_state.rs, lines 12 to 120: tokens, kinds, phases and records.
use smb_rs.Prelude.{ℕ, Bool, true, false, ◌&&◌, Option, List, Assoc, ◌==◌, ◌≡◌, ◌↔◌, arith}
use smb_rs.Clock.{MonotonicTime}
use smb_rs.Reducer.{GenerationId}

pub record ObjectToken : Type 0 where
  pub generation : GenerationId
  pub id : ℕ
  pub epoch : ℕ

abbrev pub token_eq : ObjectToken → ObjectToken → Bool
token_eq a b = a.generation == b.generation && (a.id == b.id && a.epoch == b.epoch)

pub token_iff : (a b : ObjectToken) → (token_eq a b ≡ true) ↔ (a ≡ b)
token_iff a b = ground arith

pub data ObjectKind : Type 0 where
  connection session share resource : ObjectKind

abbrev pub accepts_parent : ObjectKind → ObjectKind → Bool
accepts_parent session connection = true
accepts_parent share session = true
accepts_parent resource share = true
accepts_parent _ _ = false

pub data ObjectPhase : Type 0 where
  active recovering revoked closing closed : ObjectPhase

abbrev pub is_active : ObjectPhase → Bool
is_active active = true
is_active _ = false

abbrev pub is_recovering : ObjectPhase → Bool
is_recovering recovering = true
is_recovering _ = false

-- `matches!(phase, Revoked | Closed)`
abbrev pub is_over : ObjectPhase → Bool
is_over revoked = true
is_over closed = true
is_over _ = false

pub data ObjectError : Type 0 where
  foreign_generation unknown stale parent_not_active invalid_parent id_exhausted : ObjectError

pub data CloseDecision : Type 0 where
  own_protocol_close await_existing_close already_closed : CloseDecision

pub data ObjectEffect : Type 0 where
  revoked_token : ObjectToken → ObjectEffect
  replacement_published : (previous replacement : ObjectToken) → ObjectEffect

pub record ObjectRecord : Type 0 where
  pub token : ObjectToken
  pub kind : ObjectKind
  pub parent : Option ObjectToken
  pub phase : ObjectPhase

pub record ObjectRegistry : Type 0 where
  pub generation : GenerationId
  pub next_id : Option ℕ
  pub records : Assoc ℕ ObjectRecord
  pub root : ObjectToken

pub data RecoveryQueueError : Type 0 where
  full id_exhausted : RecoveryQueueError

pub data RecoveryWaitOutcome : Type 0 where
  ready cancelled timed_out ancestor_failed : ℕ → RecoveryWaitOutcome

pub record RecoveryWait : Type 0 where
  pub id : ℕ
  pub dependency : ObjectToken
  pub deadline : Option MonotonicTime

pub record RecoveryQueue : Type 0 where
  pub capacity : ℕ
  pub next_id : Option ℕ
  pub waits : List RecoveryWait
