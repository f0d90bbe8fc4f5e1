-- ===== src/Objects/Hierarchy.antt =====
-- The object hierarchy of crates/smb/src/runtime/object_state.rs: the shape that every operation
-- of the registry keeps.
use smb_rs.Prelude.{
  if_rule, option_rule, ℕ, ◌<◌, ◌≡◌, refl, sym, ◌∙◌, inl, inr, Bool, true, false, Option, none,
  some, List, [], ◌∷◌, get, insert, get-insert, Assoc, nat_eq, arith, Bool-cases, ok, >>=-ok,
  ok-injective, subst, ==_iff, ◌==◌,
}
use smb_rs.Objects.Data.{
  ObjectToken, token_iff, ObjectKind, accepts_parent, ObjectPhase, active, recovering, revoked,
  is_over, ObjectError, ObjectRecord, ObjectRegistry, ObjectEffect,
}
use smb_rs.Objects.Registry.{
  new, find_record, require, or_error, begin_recovery, set_phase, revoke, revoke_all, lose_records,
  validate_active,
}

abbrev pub BelowNext : ℕ → Option ℕ → Type 0
BelowNext id none = Unit {0}
BelowNext id (some next_id) = id < next_id

-- A record's parent is a record with a smaller id, the current token and the kind above.
abbrev pub HasParent : Assoc ℕ ObjectRecord → ObjectRecord → Option ObjectToken → Type 0
HasParent m r none = r.kind ≡ ObjectKind.connection
HasParent m r (some p) =
    (q : ObjectRecord) × (get p.id m ≡ some q)
    × (q.token ≡ p)
    × (p.id < r.token.id)
    × (accepts_parent r.kind q.kind ≡ true)

pub record IsPlaced (s : ObjectRegistry) (id : ℕ) (r : ObjectRecord) : Type 0 where
  pub own_id : r.token.id ≡ id
  pub own_generation : r.token.generation ≡ s.generation
  pub below : BelowNext id s.next_id
  pub parent : HasParent s.records r r.parent

abbrev pub IsTree : ObjectRegistry → Type 0
IsTree s = (id : ℕ) (r : ObjectRecord) → get id s.records ≡ some r → IsPlaced s id r

pub new-IsTree : (g : ℕ) → IsTree (new g)
unfolding new get
new-IsTree g id r h = elim (Bool-cases (0 == id)) [
  | inl same ↦ record {
    own_id = ground arith;
    own_generation = ground arith;
    below = ground arith;
    parent = rw (made same) refl;
  }
  | inr other ↦ absurd (ground arith)
]
  where
    made :
        (0 == id) ≡ true
        → r ≡ record {
          token = record { generation = g; id = 0; epoch = 0 };
          kind = ObjectKind.connection;
          parent = none;
          phase = active;
        }
    made same = ground arith

-- Two tables alike but for the phases.
abbrev pub Alike : Option ObjectRecord → Option ObjectRecord → Type 0
Alike none none = Unit {0}
Alike (some r) (some r') = (r'.token ≡ r.token) × (r'.kind ≡ r.kind) × (r'.parent ≡ r.parent)
Alike _ _ = ⊥

abbrev pub AreAlike : Assoc ℕ ObjectRecord → Assoc ℕ ObjectRecord → Type 0
AreAlike m m' = (id : ℕ) → Alike (get id m) (get id m')

pub Alike-refl : (o : Option ObjectRecord) → Alike o o
Alike-refl none = tt
Alike-refl (some r) = (refl, refl, refl)

Alike-trans : (o p q : Option ObjectRecord) → Alike o p → Alike p q → Alike o q
Alike-trans none none q h k = k
Alike-trans (some r) (some r') (some r'') h k = (k.0 ∙ h.0, k.1 ∙ h.1, k.2 ∙ h.2)
Alike-trans none (some r) q h k = absurd h
Alike-trans (some r) none q h k = absurd h
Alike-trans (some r) (some r') none h k = absurd k

pub AreAlike-insert :
    (m : Assoc ℕ ObjectRecord) (id : ℕ) (r : ObjectRecord) (phase : ObjectPhase)
    → get id m ≡ some r
    → AreAlike m (insert id (record r { phase = phase }) m)
AreAlike-insert m id r phase found j = elim (Bool-cases (id == j)) [
  | inl same ↦
      rw (get-insert id j (record r { phase = phase }) m, same, ← (==_iff id j).0 same, found)
        (refl, refl, refl)
  | inr other ↦ rw (get-insert id j (record r { phase = phase }) m, other) (Alike-refl (get j m))
]

Alike-forth :
    (o o' : Option ObjectRecord) {q : ObjectRecord}
    → Alike o o'
    → o ≡ some q
    → (q' : ObjectRecord) × (o' ≡ some q') × (q'.token ≡ q.token) × (q'.kind ≡ q.kind)
Alike-forth none o' h e = absurd (ground arith)
Alike-forth (some r) none h e = absurd h
Alike-forth (some r) (some r') h e = (r', refl, ground arith, ground arith)

Alike-back :
    (o o' : Option ObjectRecord) {q' : ObjectRecord}
    → Alike o o'
    → o' ≡ some q'
    → (q : ObjectRecord) × (o ≡ some q)
      × (q'.token ≡ q.token)
      × (q'.kind ≡ q.kind)
      × (q'.parent ≡ q.parent)
Alike-back none (some r') h e = absurd h
Alike-back o none h e = absurd (ground arith)
Alike-back (some r) (some r') h e = (r, refl, ground arith, ground arith, ground arith)

HasParent-alike :
    (m m' : Assoc ℕ ObjectRecord) (r r' : ObjectRecord) (p : Option ObjectToken)
    → AreAlike m m'
    → r'.token ≡ r.token
    → r'.kind ≡ r.kind
    → HasParent m r p
    → HasParent m' r' p
HasParent-alike m m' r r' none a e k h = k ∙ h
HasParent-alike m m' r r' (some p) a e k (q, found, current, smaller, above) =
    let (q', found', token, kind) = Alike-forth (get p.id m) (get p.id m') (a p.id) found in
    (q', found', token ∙ current, rw e smaller, rw (k, kind) above)

-- A change of phases keeps the tree.
pub alike-IsTree :
    (s t : ObjectRegistry)
    → AreAlike s.records t.records
    → t.generation ≡ s.generation
    → t.next_id ≡ s.next_id
    → IsTree s
    → IsTree t
alike-IsTree s t a g n v id r' found' =
    let (r, found, token, kind, parent) = Alike-back (get id s.records) _ (a id) found' in
    let placed = v id r found in
    record {
      own_id = rw token placed.own_id;
      own_generation = rw token (placed.own_generation ∙ sym g);
      below = rw n placed.below;
      parent =
          rw parent (HasParent-alike s.records t.records r r' r.parent a token kind placed.parent);
    }

revoke-AreAlike : (m : Assoc ℕ ObjectRecord) (id : ℕ) → AreAlike m (revoke m id).0
unfolding revoke
revoke-AreAlike m id =
    option_rule (λ (x : Assoc ℕ ObjectRecord × List ObjectEffect). AreAlike m x.0) (get id m)
      (λ _ j. Alike-refl (get j m))
      λ r found.
        if_rule (λ (x : Assoc ℕ ObjectRecord × List ObjectEffect). AreAlike m x.0) (is_over r.phase)
          (λ _ j. Alike-refl (get j m)) (λ _. AreAlike-insert m id r revoked found)

pub revoke_all-AreAlike :
    (m : Assoc ℕ ObjectRecord) (ids : List ℕ) → AreAlike m (revoke_all m ids).0
unfolding revoke_all
revoke_all-AreAlike m [] j = Alike-refl (get j m)
revoke_all-AreAlike m (id ∷ ids) j =
    Alike-trans (get j m) _ _ (revoke-AreAlike m id j) (revoke_all-AreAlike (revoke m id).0 ids j)

pub lose_records-AreAlike : (m : Assoc ℕ ObjectRecord) → AreAlike m (lose_records m).0
unfolding lose_records get
lose_records-AreAlike [] j = tt
lose_records-AreAlike ((k, r) ∷ m) j = elim (Bool-cases (is_over r.phase)) [
  | inl over ↦ rw over (elim (Bool-cases (k == j)) [
    | inl same ↦ rw same (refl, refl, refl)
    | inr other ↦ rw other (lose_records-AreAlike m j)
  ])
  | inr live ↦ rw live (elim (Bool-cases (k == j)) [
    | inl same ↦ rw same (refl, refl, refl)
    | inr other ↦ rw other (lose_records-AreAlike m j)
  ])
]

pub find_record_ok :
    (s : ObjectRegistry) (token : ObjectToken) {r : ObjectRecord}
    → find_record s token ≡ ok r
    → (get token.id s.records ≡ some r) × (r.token ≡ token) × (token.generation ≡ s.generation)
unfolding find_record
find_record_ok s token {r} h = ground (arith, token_iff r.token token)

pub require_ok : (b : Bool) (e : ObjectError) {u : Unit {0}} → require b e ≡ ok u → b ≡ true
require_ok true e h = refl
require_ok false e h = cc

pub or_error_ok :
    {A : Type 0} (o : Option A) (e : ObjectError) {a : A} → or_error o e ≡ ok a → o ≡ some a
or_error_ok none e h = cc
or_error_ok (some a) e h = cc

pub set_phase-IsTree :
    (s : ObjectRegistry) (token : ObjectToken) (r : ObjectRecord) (phase : ObjectPhase)
    → find_record s token ≡ ok r
    → IsTree s
    → IsTree (set_phase s r phase)
set_phase-IsTree s token r phase h v =
    let (found, same, _) = find_record_ok s token h in
    alike-IsTree s (set_phase s r phase)
      (AreAlike-insert s.records r.token.id r phase (ground arith)) refl refl v

pub begin_recovery-IsTree :
    (s t : ObjectRegistry) (token : ObjectToken)
    → begin_recovery s token ≡ ok t
    → IsTree s
    → IsTree t
unfolding begin_recovery
begin_recovery-IsTree s t token e v =
    let (_, _, e1) = >>=-ok (validate_active s token) _ e in
    let (r, found, e2) = >>=-ok (find_record s token) _ e1 in
    subst IsTree (ok-injective e2) (set_phase-IsTree s token r recovering found v)
