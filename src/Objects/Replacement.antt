-- ===== src/Objects/Replacement.antt =====
-- `publish_replacement` of crates/smb/src/runtime/object_state.rs: a recovered object takes a new
-- token, and its children follow it.
use smb_rs.Prelude.{
  ℕ, ◌+◌, ◌≤◌, ◌≡◌, refl, subst, ◌∙◌, inl, inr, true, Option, none, some, [], ◌∷◌, if◌then◌else◌,
  get, insert, get-insert, Assoc, nat_eq, arith, Bool-cases, Option-cases, ok, err, >>=-ok, ◌==◌,
  checked_add, u64_max, ==_iff,
}
use smb_rs.Objects.Data.{
  ObjectToken, token_eq, token_iff, active, is_recovering, ObjectError, stale, parent_not_active,
  ObjectRecord, ObjectRegistry, ObjectEffect, replacement_published,
}
use smb_rs.Objects.Registry.{
  find_record, require, or_error, map_values, reparent, publish_replacement,
}
use smb_rs.Objects.Hierarchy.{IsTree, HasParent, find_record_ok, or_error_ok}

get-map_values :
    (f : ObjectRecord → ObjectRecord) (id : ℕ) (m : Assoc ℕ ObjectRecord)
    → get id (map_values f m) ≡ elim (get id m) [ none ↦ none | some r ↦ some (f r) ]
unfolding map_values get
get-map_values f id [] = refl
get-map_values f id ((k, r) ∷ m) = ground (arith, get-map_values f id m)

-- The registry after a replacement of the record `r`.
abbrev replaced : ObjectRegistry → ObjectRecord → ObjectToken → ObjectRegistry
replaced s r replacement = record s {
  records =
      map_values (reparent r.token replacement)
        (insert r.token.id (record r { token = replacement; phase = active }) s.records);
}

abbrev pub next_token : ObjectToken → ObjectToken
next_token token = record token { epoch = token.epoch + 1 }

-- The replacement of a recovering object with an epoch left succeeds.
publish_replacement-replaced :
    (s : ObjectRegistry) (token : ObjectToken) (r : ObjectRecord)
    → find_record s token ≡ ok r
    → is_recovering r.phase ≡ true
    → r.token.epoch + 1 ≤ u64_max
    → publish_replacement s token
      ≡ ok (replaced s r (next_token r.token), replacement_published r.token (next_token r.token))
unfolding publish_replacement
publish_replacement-replaced s token r found waiting fits = ground arith

get-replaced :
    (s : ObjectRegistry) (r : ObjectRecord) (new : ObjectToken) (id : ℕ)
    → get id (replaced s r new).records ≡ (
        if r.token.id == id
        then some (reparent r.token new (record r { token = new; phase = active }))
        else elim (get id s.records) [ none ↦ none | some q ↦ some (reparent r.token new q) ])
get-replaced s r new id = ground (
  arith,
  get-map_values (reparent r.token new) id
      (insert r.token.id (record r { token = new; phase = active }) s.records),
  get-insert r.token.id id (record r { token = new; phase = active }) s.records,
)

HasParent-replaced :
    (s : ObjectRegistry) (r q q' : ObjectRecord) (p : Option ObjectToken)
    → IsTree s
    → get r.token.id s.records ≡ some r
    → q'.token.id ≡ q.token.id
    → q'.kind ≡ q.kind
    → HasParent s.records q p
    → HasParent
        (replaced s r (next_token r.token)).records
        q'
        (reparent r.token (next_token r.token) (record q { parent = p })).parent
HasParent-replaced s r q q' none v at e k h = k ∙ h
HasParent-replaced s r q q' (some p) v at e k (o, found, current, smaller, above) =
    elim (Bool-cases (token_eq p r.token)) [
      | inl same ↦
          let new = next_token r.token in
          rw same (
            reparent r.token new (record r { token = new; phase = active }),
            ground (arith, get-replaced s r new r.token.id),
            refl,
            ground (arith, token_iff p r.token),
            ground (arith, token_iff p r.token),
          )
      | inr other ↦
          let new = next_token r.token in
          rw other (
            reparent r.token new o,
            ground (arith, get-replaced s r new p.id, token_iff p r.token),
            current,
            rw e smaller,
            rw k above,
          )
    ]

replaced-IsTree :
    (s : ObjectRegistry) (r : ObjectRecord)
    → get r.token.id s.records ≡ some r
    → IsTree s
    → IsTree (replaced s r (next_token r.token))
replaced-IsTree s r at v id q' h = elim (Bool-cases (r.token.id == id)) [
  | inl same ↦
      let old = v r.token.id r at in
      let q'_is : q'
          ≡ reparent r.token (next_token r.token)
              (record r { token = next_token r.token; phase = active }) =
        ground (arith, get-replaced s r (next_token r.token) id) in
      rw q'_is (record {
        own_id = ground arith;
        own_generation = old.own_generation;
        below = rw (← (==_iff r.token.id id).0 same) old.below;
        parent =
            HasParent-replaced s r r
              (reparent r.token (next_token r.token)
                (record r { token = next_token r.token; phase = active }))
              r.parent v at refl refl old.parent;
      })
  | inr other ↦ elim (Option-cases (get id s.records)) [
    | inl none_there ↦ absurd (ground (arith, get-replaced s r (next_token r.token) id))
    | inr (q, there) ↦
        let old = v id q there in
        let q'_is : q' ≡ reparent r.token (next_token r.token) q =
          ground (arith, get-replaced s r (next_token r.token) id) in
        rw q'_is (record {
          own_id = old.own_id;
          own_generation = old.own_generation;
          below = old.below;
          parent =
              HasParent-replaced s r q (reparent r.token (next_token r.token) q) q.parent v at refl
                refl old.parent;
        })
  ]
]

find_record-replaced :
    (s : ObjectRegistry) (token : ObjectToken) (r : ObjectRecord)
    → find_record s token ≡ ok r
    → let t = replaced s r (next_token r.token) in
      (find_record t token ≡ err stale)
      × (find_record t (next_token token)
          ≡ ok (
              reparent r.token
                (next_token r.token)
                (record r { token = next_token r.token; phase = active })))
unfolding find_record
find_record-replaced s token r found =
    let (_, same, _) = find_record_ok s token found in
    let at = get-replaced s r (next_token r.token) token.id in
    (
      ground (arith, at, token_iff (next_token r.token) token),
      ground (arith, at, token_iff (next_token r.token) (next_token token)),
    )

found_at :
    (s : ObjectRegistry) (token : ObjectToken) (r : ObjectRecord)
    → find_record s token ≡ ok r
    → get r.token.id s.records ≡ some r
found_at s token r found = let (at, same, _) = find_record_ok s token found in ground arith

-- A replacement that succeeds keeps the tree.
pub publish_replacement-IsTree :
    (s t : ObjectRegistry) (token : ObjectToken) (effect : ObjectEffect)
    → publish_replacement s token ≡ ok (t, effect)
    → IsTree s
    → IsTree t
unfolding publish_replacement
publish_replacement-IsTree s t token effect e v =
    let (r, found, e1) = >>=-ok (find_record s token) _ e in
    let (_, waiting, e2) = >>=-ok (require (is_recovering r.phase) parent_not_active) _ e1 in
    let (epoch, fits, e3) =
      >>=-ok (or_error (checked_add u64_max r.token.epoch 1) ObjectError.id_exhausted) _ e2 in
    let epoch_is : epoch ≡ r.token.epoch + 1 = ground (arith, or_error_ok _ _ fits) in
    let t_is : t ≡ replaced s r (next_token r.token) = rw (← epoch_is) (ground arith) in
    rw t_is (replaced-IsTree s r (found_at s token r found) v)

-- In a tree, an object that is recovering with an epoch left is replaced: from then on the caller's
-- token is stale, the one that was published is found and active, and the registry is a tree still.
pub publish_replacement_renews :
    (s : ObjectRegistry) (token : ObjectToken) (r : ObjectRecord)
    → find_record s token ≡ ok r
    → is_recovering r.phase ≡ true
    → r.token.epoch + 1 ≤ u64_max
    → IsTree s
    → (t : ObjectRegistry) × (publish_replacement s token
        ≡ ok (t, replacement_published token (next_token token)))
      × (find_record t token ≡ err stale)
      × (q : ObjectRecord) × (find_record t (next_token token) ≡ ok q)
      × (q.phase ≡ active)
      × IsTree t
publish_replacement_renews s token r found waiting fits v =
    let (at, same, _) = find_record_ok s token found in
    let (old_is, new_is) = find_record-replaced s token r found in
    (
      replaced s r (next_token r.token),
      subst
          (λ p.
            publish_replacement s token
            ≡ ok (replaced s r (next_token r.token), replacement_published p (next_token p)))
          same (publish_replacement-replaced s token r found waiting fits),
      old_is,
      reparent r.token (next_token r.token)
          (record r { token = next_token r.token; phase = active }),
      new_is,
      refl,
      replaced-IsTree s r (ground arith) v,
    )
