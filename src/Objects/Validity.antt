-- ===== src/Objects/Validity.antt =====
-- `validate_active` of crates/smb/src/runtime/object_state.rs: the walk to the root.
use smb_rs.Prelude.{
  ℕ, zero, suc, ◌≤◌, ◌≡◌, ◌≢◌, ◌↔◌, refl, ap, subst, inl, inr, true, Option, none, some, [], ◌∷◌,
  get, get-insert, Assoc, nat_eq, arith, Bool-cases, ok, stuck, >>=-ok, ok-injective, Result-cases,
}
use smb_rs.Objects.Data.{
  ObjectToken, token_iff, closing, is_active, is_over, ObjectRecord, ObjectRegistry, CloseDecision,
  own_protocol_close, await_existing_close,
}
use smb_rs.Objects.Registry.{
  find_record, validate_loop, validate_active, begin_close, decision, phase_after_close, set_phase,
  lose_generation, lose_records,
}
use smb_rs.Objects.Hierarchy.{IsTree, HasParent, find_record_ok}

-- Every object from the token up to the root is known, current and active.
pub data ActiveChain (s : ObjectRegistry) : Option ObjectToken → Type 0 where
  root : ActiveChain s none
  link :
      (token : ObjectToken) (r : ObjectRecord)
      → find_record s token ≡ ok r
      → is_active r.phase ≡ true
      → ActiveChain s r.parent
      → ActiveChain s (some token)

validate_loop_sound :
    (fuel : ℕ) (s : ObjectRegistry) (token : Option ObjectToken)
    → validate_loop fuel s token ≡ ok tt
    → ActiveChain s token
unfolding validate_loop
validate_loop_sound fuel s none h = root
validate_loop_sound zero s (some token) h = cc
validate_loop_sound (suc fuel) s (some token) h =
    let (r, found, e) = >>=-ok (find_record s token) _ h in
    elim (Bool-cases (is_active r.phase)) [
      | inl live ↦ link token r found live (validate_loop_sound fuel s r.parent (ground arith))
      | inr dead ↦ absurd (ground arith)
    ]

-- The rounds that the walk can take from a token.
abbrev height : Option ObjectToken → ℕ
height none = 0
height (some token) = suc token.id

height-parent :
    (s : ObjectRegistry) (token : ObjectToken) (r : ObjectRecord)
    → IsTree s
    → find_record s token ≡ ok r
    → height r.parent ≤ token.id
height-parent s token r v h =
    let (found, same, _) = find_record_ok s token h in
    let placed = v token.id r found in
    go r.parent placed.parent (ap (λ (t : ObjectToken). t.id) same)
  where
    go :
        (p : Option ObjectToken)
        → HasParent s.records r p
        → r.token.id ≡ token.id
        → height p ≤ token.id
    go none h e = omega arith
    go (some p) (q, _, _, smaller, _) e = omega arith

validate_loop_complete :
    (s : ObjectRegistry) (fuel : ℕ) {token : Option ObjectToken}
    → IsTree s
    → ActiveChain s token
    → height token ≤ fuel
    → validate_loop fuel s token ≡ ok tt
unfolding validate_loop
validate_loop_complete s fuel v root enough = refl
validate_loop_complete s zero v (link token r found live rest) enough = absurd (omega arith)
validate_loop_complete s (suc fuel) v (link token r found live rest) enough =
    let shorter = height-parent s token r v found in
    rw (found, live) (validate_loop_complete s fuel v rest (omega arith))

find_record_ends : (s : ObjectRegistry) (token : ObjectToken) → find_record s token ≢ stuck
unfolding find_record
find_record_ends s token e = ground arith

-- In a tree the walk always ends.
validate_loop_ends :
    (fuel : ℕ) (s : ObjectRegistry) (token : Option ObjectToken)
    → IsTree s
    → height token ≤ fuel
    → validate_loop fuel s token ≢ stuck
unfolding validate_loop
validate_loop_ends fuel s none v enough e = cc
validate_loop_ends zero s (some token) v enough e = absurd (omega arith)
validate_loop_ends (suc fuel) s (some token) v enough e =
    elim (Result-cases (find_record s token)) [
      | inl (r, found) ↦
          let shorter = height-parent s token r v found in
          ground (arith, validate_loop_ends fuel s r.parent v (omega arith))
      | inr (inl (error, missed)) ↦ ground arith
      | inr (inr never) ↦ find_record_ends s token never
    ]

-- In a tree a token is valid exactly when it and all above it are known, current and active, and
-- the walk up always ends.
pub validate_active_iff :
    (s : ObjectRegistry) (token : ObjectToken)
    → IsTree s
    → ((validate_active s token ≡ ok tt) ↔ ActiveChain s (some token))
      × (validate_active s token ≢ stuck)
unfolding validate_active
validate_active_iff s token v = (
  (
    validate_loop_sound (suc token.id) s (some token),
    λ c. validate_loop_complete s (suc token.id) v c (omega arith),
  ),
  validate_loop_ends (suc token.id) s (some token) v (omega arith),
)

closing_found :
    (s : ObjectRegistry) (token : ObjectToken) (r : ObjectRecord)
    → find_record s token ≡ ok r
    → decision r.phase ≡ own_protocol_close
    → find_record (set_phase s r (phase_after_close r.phase)) token
      ≡ ok (record r { phase = closing })
unfolding find_record
closing_found s token r found owned =
    let (at_id, same, here) = find_record_ok s token found in
    ground (
      arith,
      token_iff r.token token,
      get-insert r.token.id token.id (record r { phase = phase_after_close r.phase }) s.records,
    )

-- Whoever asks first owns the close: after a `begin_close` that got the protocol close, the next
-- one on the same token is told to wait for it.
pub begin_close_once :
    (s t : ObjectRegistry) (token : ObjectToken)
    → begin_close s token ≡ ok (t, own_protocol_close)
    → (u : ObjectRegistry) × (begin_close t token ≡ ok (u, await_existing_close))
unfolding begin_close
begin_close_once s t token h =
    let (r, found, e) = >>=-ok (find_record s token) _ h in
    let after : find_record t token ≡ ok (record r { phase = closing }) =
      subst (λ u. find_record u token ≡ ok (record r { phase = closing }))
        (ap (λ (x : ObjectRegistry × CloseDecision). x.0) (ok-injective e))
        (closing_found s token r found
          (ap (λ (x : ObjectRegistry × CloseDecision). x.1) (ok-injective e))) in
    (set_phase t (record r { phase = closing }) closing, rw after refl)

lose_records_over :
    (m : Assoc ℕ ObjectRecord) (id : ℕ) (r : ObjectRecord)
    → get id (lose_records m).0 ≡ some r
    → is_over r.phase ≡ true
unfolding lose_records get
lose_records_over [] id r h = absurd (ground arith)
lose_records_over ((k, q) ∷ m) id r h = ground (arith, lose_records_over m id r)

-- After the generation is lost no token is valid.
pub lose_generation-invalid :
    (s : ObjectRegistry) (token : ObjectToken) → validate_active (lose_generation s).0 token ≢ ok tt
unfolding validate_active lose_generation
lose_generation-invalid s token h =
    invalid (validate_loop_sound (suc token.id) (lose_generation s).0 (some token) h) refl
  where
    invalid : {o : Option ObjectToken} → ActiveChain (lose_generation s).0 o → o ≡ some token → ⊥
    invalid root e = cc
    invalid (link other r found live rest) e =
        let (at_id, _, _) = find_record_ok (lose_generation s).0 other found in
        ground (arith, lose_records_over s.records other.id r at_id)
