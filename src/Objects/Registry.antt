-- ===== src/Objects/Registry.antt =====
-- crates/smb/src/runtime/object_state.rs, `impl ObjectRegistry`. A `&mut self` method returns the
-- new registry beside its result, and leaves the registry alone on an error.
use smb_rs.Prelude.{
  ℕ, zero, suc, Bool, true, false, not, Option, none, some, List, [], ◌∷◌, ◌++◌, if◌then◌else◌, get,
  insert, Assoc, ◌==◌, leb, checked_add, u64_max, nat_eq, Result, ok, err, stuck, ◌>>=◌,
}
use smb_rs.Reducer.{GenerationId}
use smb_rs.Objects.Data.{
  ObjectToken, token_eq, ObjectKind, accepts_parent, ObjectPhase, active, recovering, revoked,
  closing, closed, is_active, is_recovering, is_over, ObjectError, foreign_generation, unknown,
  stale, parent_not_active, invalid_parent, CloseDecision, own_protocol_close, await_existing_close,
  already_closed, ObjectEffect, revoked_token, replacement_published, ObjectRecord, ObjectRegistry,
}

abbrev pub or_error {ℓ} : {A : Type ℓ} → Option A → ObjectError → Result ObjectError A
or_error none e = err e
or_error (some a) e = ok a

abbrev pub require : Bool → ObjectError → Result ObjectError (Unit {0})
require true e = ok tt
require false e = err e

unfoldable pub new : GenerationId → ObjectRegistry
new generation =
    let root : ObjectToken = record { generation = generation; id = 0; epoch = 0 } in
    record {
      generation = generation;
      next_id = some 1;
      records =
          (0, record { token = root; kind = ObjectKind.connection; parent = none; phase = active })
          ∷ [];
      root = root;
    }

-- `record` and `record_mut`
unfoldable pub find_record : ObjectRegistry → ObjectToken → Result ObjectError ObjectRecord
find_record s token =
    if not (token.generation == s.generation)
    then err foreign_generation
    else elim (get token.id s.records) [
      | none ↦ err unknown
      | some r ↦ if token_eq r.token token then ok r else err stale
    ]

unfoldable pub create_child :
    ObjectRegistry → ObjectToken → ObjectKind → Result ObjectError (ObjectRegistry × ObjectToken)
create_child s parent kind = do
  parent_record ← find_record s parent
  _ ← require (accepts_parent kind parent_record.kind) invalid_parent
  _ ← require (is_active parent_record.phase) parent_not_active
  id ← or_error s.next_id ObjectError.id_exhausted
  let token : ObjectToken = record { generation = s.generation; id = id; epoch = 0 }
  let made : ObjectRecord = record {
    token = token;
    kind = kind;
    parent = some parent;
    phase = active;
  }
  ok (record s { next_id = checked_add u64_max id 1; records = insert id made s.records }, token)

-- The `while let` of `validate_active`; a parent's id is below its child's.
unfoldable pub validate_loop :
    ℕ → ObjectRegistry → Option ObjectToken → Result ObjectError (Unit {0})
validate_loop fuel s none = ok tt
validate_loop zero s (some token) = stuck
validate_loop (suc fuel) s (some token) = find_record s token >>= λ r.
    let rest = validate_loop fuel s r.parent in
    if is_active r.phase then rest else err parent_not_active

unfoldable pub validate_active : ObjectRegistry → ObjectToken → Result ObjectError (Unit {0})
validate_active s token = validate_loop (suc token.id) s (some token)

abbrev pub set_phase : ObjectRegistry → ObjectRecord → ObjectPhase → ObjectRegistry
set_phase s r phase = record s {
  records = insert r.token.id (record r { phase = phase }) s.records;
}

unfoldable pub begin_recovery : ObjectRegistry → ObjectToken → Result ObjectError ObjectRegistry
begin_recovery s token = do
  _ ← validate_active s token
  r ← find_record s token
  ok (set_phase s r recovering)

-- `for child in values_mut() { if child.parent == Some(previous) { child.parent = Some(..) } }`
abbrev pub reparent : (previous replacement : ObjectToken) → ObjectRecord → ObjectRecord
reparent previous replacement r = record r {
  parent = elim r.parent [
    | none ↦ none
    | some p ↦ if token_eq p previous then some replacement else some p
  ];
}

unfoldable pub map_values :
    (ObjectRecord → ObjectRecord) → Assoc ℕ ObjectRecord → Assoc ℕ ObjectRecord
map_values f [] = []
map_values f ((k, r) ∷ m) = (k, f r) ∷ map_values f m

unfoldable pub publish_replacement :
    ObjectRegistry → ObjectToken → Result ObjectError (ObjectRegistry × ObjectEffect)
publish_replacement s token = do
  r ← find_record s token
  _ ← require (is_recovering r.phase) parent_not_active
  epoch ← or_error (checked_add u64_max r.token.epoch 1) ObjectError.id_exhausted
  let replacement : ObjectToken = record (r.token) { epoch = epoch }
  let records = insert r.token.id (record r { token = replacement; phase = active }) s.records
  ok (
    record s { records = map_values (reparent r.token replacement) records },
    replacement_published r.token replacement,
  )

abbrev pub parent_of : ObjectRegistry → ObjectToken → Option ObjectToken
parent_of s token = elim (get token.id s.records) [ none ↦ none | some r ↦ r.parent ]

-- The `while let` of `is_descendant`.
unfoldable pub descends_loop : ℕ → ObjectRegistry → Option ObjectToken → ObjectToken → Bool
descends_loop fuel s none ancestor = false
descends_loop zero s (some token) ancestor = false
descends_loop (suc fuel) s (some token) ancestor =
    let rest = descends_loop fuel s (parent_of s token) ancestor in
    if token_eq token ancestor then true else rest

unfoldable pub is_descendant : ObjectRegistry → ObjectToken → ObjectToken → Bool
is_descendant s candidate ancestor = descends_loop candidate.id s (parent_of s candidate) ancestor

-- `self.records.values().filter(is_descendant).map(|record| record.token.id)`
unfoldable pub descendant_ids : ObjectRegistry → ObjectToken → Assoc ℕ ObjectRecord → List ℕ
descendant_ids s ancestor [] = []
descendant_ids s ancestor ((k, r) ∷ m) =
    let rest = descendant_ids s ancestor m in
    if is_descendant s r.token ancestor then r.token.id ∷ rest else rest

-- One record by `get_mut`: it is revoked unless it is over, or not there.
unfoldable pub revoke : Assoc ℕ ObjectRecord → ℕ → Assoc ℕ ObjectRecord × List ObjectEffect
revoke m id = elim (get id m) [
  | none ↦ (m, [])
  | some r ↦
      if is_over r.phase
      then (m, [])
      else (insert id (record r { phase = revoked }) m, revoked_token r.token ∷ [])
]

unfoldable pub revoke_all : Assoc ℕ ObjectRecord → List ℕ → Assoc ℕ ObjectRecord × List ObjectEffect
revoke_all m [] = (m, [])
revoke_all m (id ∷ ids) =
    let (m', effects) = revoke m id in let (m'', more) = revoke_all m' ids in (m'', effects ++ more)

unfoldable pub revoke_descendants :
    ObjectRegistry → ObjectToken → ObjectRegistry × List ObjectEffect
revoke_descendants s ancestor =
    let (m, effects) = revoke_all s.records (descendant_ids s ancestor s.records) in
    (record s { records = m }, effects)

-- `sort_by_key` with the id of the token, a stable sort.
abbrev pub effect_id : ObjectEffect → ℕ
effect_id (revoked_token token) = token.id
effect_id (replacement_published previous replacement) = replacement.id

unfoldable pub insert_by_id : ObjectEffect → List ObjectEffect → List ObjectEffect
insert_by_id e [] = e ∷ []
insert_by_id e (d ∷ ds) =
    if leb (effect_id e) (effect_id d) then e ∷ d ∷ ds else d ∷ insert_by_id e ds

unfoldable pub sort_by_id : List ObjectEffect → List ObjectEffect
unfolding insert_by_id
sort_by_id [] = []
sort_by_id (e ∷ es) = insert_by_id e (sort_by_id es)

-- On the error of the last step the descendants stay revoked in the source; that step fails only if
-- the epoch is exhausted.
unfoldable pub publish_replacement_revoking_descendants :
    ObjectRegistry
    → ObjectToken
    → ObjectRegistry × Result ObjectError (ObjectEffect × List ObjectEffect)
publish_replacement_revoking_descendants s token = elim (find_record s token) [
  | err e ↦ (s, err e)
  | stuck ↦ (s, stuck)
  | ok r ↦
      if not (is_recovering r.phase)
      then (s, err parent_not_active)
      else let (s', effects) = revoke_descendants s token in
        elim (publish_replacement s' token) [
          | err e ↦ (s', err e)
          | stuck ↦ (s', stuck)
          | ok (s'', effect) ↦ (s'', ok (effect, sort_by_id effects))
        ]
]

unfoldable pub fail_recovery :
    ObjectRegistry → ObjectToken → Result ObjectError (ObjectRegistry × List ObjectEffect)
fail_recovery s token = do
  r ← find_record s token
  _ ← require (is_recovering r.phase) parent_not_active
  let (s', effects) = revoke_descendants s token
  r' ← find_record s' token
  ok (set_phase s' r' revoked, effects ++ revoked_token token ∷ [])

abbrev pub decision : ObjectPhase → CloseDecision
decision active = own_protocol_close
decision recovering = own_protocol_close
decision closing = await_existing_close
decision _ = already_closed

-- Only the owner of the close changes the phase.
abbrev pub phase_after_close : ObjectPhase → ObjectPhase
phase_after_close active = closing
phase_after_close recovering = closing
phase_after_close phase = phase

unfoldable pub begin_close :
    ObjectRegistry → ObjectToken → Result ObjectError (ObjectRegistry × CloseDecision)
begin_close s token = do
  r ← find_record s token
  ok (set_phase s r (phase_after_close r.phase), decision r.phase)

unfoldable pub complete_close :
    ObjectRegistry → ObjectToken → Result ObjectError (ObjectRegistry × List ObjectEffect)
complete_close s token = do
  _ ← find_record s token
  let (s', effects) = revoke_descendants s token
  r ← find_record s' token
  ok (set_phase s' r closed, sort_by_id effects)

unfoldable pub lose_records : Assoc ℕ ObjectRecord → Assoc ℕ ObjectRecord × List ObjectEffect
lose_records [] = ([], [])
lose_records ((k, r) ∷ m) =
    let (m', effects) = lose_records m in
    if is_over r.phase
    then ((k, r) ∷ m', effects)
    else ((k, record r { phase = revoked }) ∷ m', revoked_token r.token ∷ effects)

unfoldable pub lose_generation : ObjectRegistry → ObjectRegistry × List ObjectEffect
lose_generation s =
    let (m, effects) = lose_records s.records in (record s { records = m }, sort_by_id effects)
