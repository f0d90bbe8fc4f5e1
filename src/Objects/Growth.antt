-- ===== src/Objects/Growth.antt =====
-- `create_child` of crates/smb/src/runtime/object_state.rs: a new object keeps the tree.
use smb_rs.Prelude.{
  ℕ, ◌≡◌, refl, inl, inr, true, Option, none, some, insert, get-insert, get-insert_cases, nat_eq,
  arith, checked_add, u64_max, ok, >>=-ok,
}
use smb_rs.Objects.Data.{
  ObjectToken, ObjectKind, accepts_parent, active, is_active, ObjectError, invalid_parent,
  parent_not_active, ObjectRecord, ObjectRegistry,
}
use smb_rs.Objects.Registry.{find_record, create_child, require, or_error}
use smb_rs.Objects.Hierarchy.{IsTree, HasParent, BelowNext, find_record_ok, require_ok, or_error_ok}

-- What a successful creation has checked and made.
pub create_child_ok :
    (s t : ObjectRegistry) (parent child : ObjectToken) (kind : ObjectKind)
    → create_child s parent kind ≡ ok (t, child)
    → (q : ObjectRecord) × (id : ℕ) × (find_record s parent ≡ ok q)
      × (accepts_parent kind q.kind ≡ true)
      × (is_active q.phase ≡ true)
      × (s.next_id ≡ some id)
      × (child ≡ record { generation = s.generation; id = id; epoch = 0 })
      × (t ≡ record s {
        next_id = checked_add u64_max id 1;
        records =
            insert id
              (record { token = child; kind = kind; parent = some parent; phase = active })
              s.records;
      })
unfolding create_child
create_child_ok s t parent child kind e =
    let (q, found, e1) = >>=-ok (find_record s parent) _ e in
    let (_, accepted, e2) = >>=-ok (require (accepts_parent kind q.kind) invalid_parent) _ e1 in
    let (_, live, e3) = >>=-ok (require (is_active q.phase) parent_not_active) _ e2 in
    let (id, next, e4) = >>=-ok (or_error s.next_id ObjectError.id_exhausted) _ e3 in
    (
      q,
      id,
      found,
      require_ok _ _ accepted,
      require_ok _ _ live,
      or_error_ok _ _ next,
      ground arith,
      ground arith,
    )

-- A new record under a fresh id leaves the parents of the others where they are.
HasParent-fresh :
    (s : ObjectRegistry) (id : ℕ) (made r : ObjectRecord) (p : Option ObjectToken)
    → s.next_id ≡ some id
    → IsTree s
    → HasParent s.records r p
    → HasParent (insert id made s.records) r p
HasParent-fresh s id made r none next v h = h
HasParent-fresh s id made r (some p) next v (q, found, current, smaller, above) =
    let placed = v p.id q found in
    (q, ground (arith, get-insert id p.id made s.records, placed.below), current, smaller, above)

BelowNext-add :
    (id n : ℕ) (next_id : Option ℕ)
    → next_id ≡ some n
    → BelowNext id next_id
    → BelowNext id (checked_add u64_max n 1)
BelowNext-add id n none e b = ground arith
BelowNext-add id n (some m) e b = ground arith

-- The table after a creation.
abbrev grown : ObjectRegistry → ℕ → ObjectRecord → ObjectRegistry
grown s id made = record s {
  next_id = checked_add u64_max id 1;
  records = insert id made s.records;
}

grown-IsTree :
    (s : ObjectRegistry) (id : ℕ) (parent : ObjectToken) (q made : ObjectRecord)
    → s.next_id ≡ some id
    → find_record s parent ≡ ok q
    → made.token ≡ record { generation = s.generation; id = id; epoch = 0 }
    → made.parent ≡ some parent
    → accepts_parent made.kind q.kind ≡ true
    → IsTree s
    → IsTree (grown s id made)
grown-IsTree s id parent q made next at_parent token under above v k r h =
    elim (get-insert_cases id k made r s.records h) [
      | inl (same, is_made) ↦
          rw (← same, ← is_made)
            (record {
              own_id = ground arith;
              own_generation = ground arith;
              below = ground arith;
              parent =
                  let (found, current, _) = find_record_ok s parent at_parent in
                  let placed = v parent.id q found in
                  rw under (
                    q,
                    ground (arith, get-insert id parent.id made s.records, placed.below),
                    current,
                    ground (arith, placed.below),
                    above,
                  );
            })
      | inr (other, old) ↦
          let placed = v k r old in
          record {
            own_id = placed.own_id;
            own_generation = placed.own_generation;
            below = BelowNext-add k id s.next_id next placed.below;
            parent = HasParent-fresh s id made r r.parent next v placed.parent;
          }
    ]

pub create_child-IsTree :
    (s t : ObjectRegistry) (parent child : ObjectToken) (kind : ObjectKind)
    → create_child s parent kind ≡ ok (t, child)
    → IsTree s
    → IsTree t
create_child-IsTree s t parent child kind e v =
    let (q, id, found, accepted, live, next, child_is, t_is) =
      create_child_ok s t parent child kind e in
    rw t_is (grown-IsTree s id parent q _ next found child_is refl accepted v)
