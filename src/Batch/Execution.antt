-- ===== src/Batch/Execution.antt =====
-- crates/smb/src/domain/batch.rs: which members of a batch run.
use mathlib.Core.List.{append_assoc, append-nil}
use smb_rs.Prelude.{
  ℕ, suc, ◌+◌, ◌<◌, ◌≡◌, ◌⊎◌, inl, inr, refl, sym, ap, ◌∙◌, subst, true, false, Option, none, some,
  List, [], ◌∷◌, ◌++◌, ok, err, arith, length, length-append, get_elem?, get_elem?-append_left,
  get_elem?-append_self, Bool-cases,
}
use smb_rs.Batch.{
  Member, Batch, MemberOutcome, success, failed, dependency_failed, invalid_argument, is_success,
  is_invalid, any_invalid, is_blocked, outcome_of, run_member, run_members, execute,
}

-- What the member depends on has succeeded, if it depends on anything.
abbrev pub IsFree : {E V : Type 0} → List (MemberOutcome E V) → Option (ℕ × ℕ) → Type 0
IsFree outcomes none = Unit {0}
IsFree {V = V} outcomes (some (batch_id, dependency)) =
    (v : V) × (get_elem? outcomes dependency ≡ some (success v))

-- Every dependency is an earlier member of the same batch.
abbrev pub Precedes : (id index : ℕ) → Option (ℕ × ℕ) → Type 0
Precedes id index none = Unit {0}
Precedes id index (some (batch_id, dependency)) = (batch_id ≡ id) × (dependency < index)

is_invalid-Precedes :
    (id index : ℕ) (dependency : Option (ℕ × ℕ))
    → is_invalid id index dependency ≡ false
    → Precedes id index dependency
is_invalid-Precedes id index none h = tt
is_invalid-Precedes id index (some (batch_id, dependency)) h = ground (arith, h)

some-injective : {A : Type 0} {a b : A} → ◌≡◌ {A = Option A} (some a) (some b) → a ≡ b
some-injective h = cc

is_success-cases :
    {E V : Type 0} (o : Option (MemberOutcome E V))
    → (is_success o ≡ true)
    → (v : V) × (o ≡ some (success v))
is_success-cases (some (success v)) h = (v, refl)
is_success-cases (some (failed e)) h = absurd (cc h)
is_success-cases (some dependency_failed) h = absurd (cc h)
is_success-cases none h = absurd (cc h)

-- What has run decides whether a member is blocked, whatever runs after it.
is_blocked-IsFree :
    {E V : Type 0} (id : ℕ) (outcomes more : List (MemberOutcome E V)) (dependency : Option (ℕ × ℕ))
    → Precedes id (length outcomes) dependency
    → is_blocked outcomes dependency ≡ false
    → IsFree (outcomes ++ more) dependency
is_blocked-IsFree id outcomes more none p free = tt
is_blocked-IsFree id outcomes more (some (batch_id, d)) p free =
    let there = get_elem?-append_left outcomes more d p.1 in
    let (v, e) = is_success-cases (get_elem? outcomes d) (ground (arith, free)) in (v, there ∙ e)

is_blocked-not_IsFree :
    {E V : Type 0} (id : ℕ) (outcomes more : List (MemberOutcome E V)) (dependency : Option (ℕ × ℕ))
    → Precedes id (length outcomes) dependency
    → is_blocked outcomes dependency ≡ true
    → ¬ IsFree (outcomes ++ more) dependency
is_blocked-not_IsFree id outcomes more none p blocked free = cc
is_blocked-not_IsFree id outcomes more (some (batch_id, d)) p blocked (v, e) =
    let there = get_elem?-append_left outcomes more d p.1 in ground (arith, there, e, blocked)

module _ {W E V : Type 0} where
  -- The member at a place runs on the world before it if it is free, and its answer is its outcome;
  -- otherwise it is left out, and the world stays.
  abbrev pub Settles :
      List (MemberOutcome E V) → (index : ℕ) → Member W E V → (before after : W) → Type 0
  Settles outcomes index m before after =
      (IsFree outcomes m.dependency
        × (after ≡ (m.action before).0)
        × (get_elem? outcomes index ≡ some (outcome_of (m.action before).1)))
      ⊎ ((¬ IsFree outcomes m.dependency)
          × (after ≡ before)
          × (get_elem? outcomes index ≡ some dependency_failed))

  -- The members settle one after the other, each on the world that the last one left.
  abbrev pub Settle :
      List (MemberOutcome E V) → (index : ℕ) → List (Member W E V) → (before after : W) → Type 0
  Settle outcomes index [] before after = after ≡ before
  Settle outcomes index (m ∷ members) before after =
      (between : W) × Settles outcomes index m before between
      × Settle outcomes (suc index) members between after

  run_member-Settles :
      (id : ℕ) (outcomes more : List (MemberOutcome E V)) (m : Member W E V) (w : W)
      → Precedes id (length outcomes) m.dependency
      → let (w', o) = run_member outcomes m w in
        Settles (outcomes ++ o ∷ more) (length outcomes) m w w'
  unfolding run_member
  run_member-Settles id outcomes more m w p = elim (Bool-cases (is_blocked outcomes m.dependency)) [
    | inl blocked ↦
        rw (run_member, blocked)
          (inr (
            is_blocked-not_IsFree id outcomes (dependency_failed ∷ more) m.dependency p blocked,
            refl,
            get_elem?-append_self outcomes dependency_failed more,
          ))
    | inr free ↦
        rw (run_member, free)
          (inl (
            is_blocked-IsFree id outcomes (outcome_of (m.action w).1 ∷ more) m.dependency p free,
            refl,
            get_elem?-append_self outcomes (outcome_of (m.action w).1) more,
          ))
  ]

  -- Each member precedes in its place, counted from a first index.
  abbrev pub AllPrecede : (id index : ℕ) → List (Member W E V) → Type 0
  AllPrecede id index [] = Unit {0}
  AllPrecede id index (m ∷ members) =
      Precedes id index m.dependency × AllPrecede id (suc index) members

  any_invalid-AllPrecede :
      (id index : ℕ) (members : List (Member W E V))
      → any_invalid id index members ≡ false
      → AllPrecede id index members
  unfolding any_invalid
  any_invalid-AllPrecede id index [] h = tt
  any_invalid-AllPrecede id index (m ∷ members) h = (
    is_invalid-Precedes id index m.dependency (ground (arith, h)),
    any_invalid-AllPrecede id (suc index) members (ground (arith, h)),
  )

  pub record Ran (members : List (Member W E V)) (before : List (MemberOutcome E V)) (w : W)
      (x : W × List (MemberOutcome E V)) : Type 0 where
    pub more : List (MemberOutcome E V)
    pub extended : x.1 ≡ before ++ more
    pub counted : length more ≡ length members
    pub settled : Settle x.1 (length before) members w x.0

  run_members-Ran :
      (id : ℕ) (members : List (Member W E V)) (outcomes : List (MemberOutcome E V)) (w : W)
      → AllPrecede id (length outcomes) members
      → Ran members outcomes w (run_members members outcomes w)
  unfolding run_members
  run_members-Ran id [] outcomes w h = record {
    more = [];
    extended = sym (append-nil outcomes);
    counted = refl;
    settled = refl;
  }
  run_members-Ran id (m ∷ members) outcomes w h =
      let o = (run_member outcomes m w).1 in
      let w' = (run_member outcomes m w).0 in
      let x = run_members members (outcomes ++ o ∷ []) w' in
      let longer : length (outcomes ++ o ∷ []) ≡ suc (length outcomes) =
        omega (arith, length-append outcomes (o ∷ [])) in
      let ran =
        run_members-Ran id members (outcomes ++ o ∷ []) w'
          (subst (λ n. AllPrecede id n members) (sym longer) h.1) in
      let whole = ran.extended ∙ append_assoc outcomes (o ∷ []) ran.more in
      record {
        more = o ∷ ran.more;
        extended = whole;
        counted = ap suc ran.counted;
        settled = (
          w',
          subst (λ all. Settles all (length outcomes) m w w') (sym whole)
              (run_member-Settles id outcomes ran.more m w h.0),
          subst (λ n. Settle x.1 n members w' x.0) longer ran.settled,
        );
      }

  -- Some member depends on what is not an earlier member of the batch.
  abbrev pub HasInvalid : Batch W E V → Type 0
  HasInvalid batch =
      (i : ℕ) × (m : Member W E V) × (get_elem? batch.members i ≡ some m)
      × (is_invalid batch.id i m.dependency ≡ true)

  any_invalid-HasInvalid :
      (id index : ℕ) (members : List (Member W E V))
      → any_invalid id index members ≡ true
      → (i : ℕ) × (m : Member W E V) × (get_elem? members i ≡ some m)
        × (is_invalid id (index + i) m.dependency ≡ true)
  unfolding any_invalid
  any_invalid-HasInvalid id index [] h = absurd (cc h)
  any_invalid-HasInvalid id index (m ∷ members) h =
      elim (Bool-cases (is_invalid id index m.dependency)) [
        | inl bad ↦
            let at : index ≡ index + 0 = omega arith in
            (0, m, refl, subst (λ n. is_invalid id n m.dependency ≡ true) at bad)
        | inr good ↦
            let (i, m', found, bad) =
              any_invalid-HasInvalid id (suc index) members (ground (arith, good, h)) in
            let at : suc index + i ≡ index + suc i = omega arith in
            (suc i, m', found, subst (λ n. is_invalid id n m'.dependency ≡ true) at bad)
      ]

  execute_refused :
      (batch : Batch W E V) (w : W)
      → any_invalid batch.id 0 batch.members ≡ true
      → execute batch w ≡ (w, err invalid_argument)
  unfolding execute
  execute_refused batch w bad = rw (execute, bad) refl

  execute_runs :
      (batch : Batch W E V) (w : W)
      → any_invalid batch.id 0 batch.members ≡ false
      → execute batch w
        ≡ ((run_members batch.members [] w).0, ok (run_members batch.members [] w).1)
  unfolding execute
  execute_runs batch w good = rw (execute, good) refl

  -- A batch in which some dependency is not an earlier member of it is refused, and nothing of it
  -- runs. In any other every dependency is an earlier member, and the members run in order, each on
  -- the world that the one before it left, with what its action answers as its outcome; but a member
  -- whose dependency has not succeeded is left out, and leaves the world as it is. There is one
  -- outcome for each member.
  pub execute_lem :
      (batch : Batch W E V) (w : W)
      → ((execute batch w ≡ (w, err invalid_argument)) × HasInvalid batch)
        ⊎ ((last : W) × (outcomes : List (MemberOutcome E V)) × (execute batch w
              ≡ (last, ok outcomes))
            × (length outcomes ≡ length batch.members)
            × AllPrecede batch.id 0 batch.members
            × Settle outcomes 0 batch.members w last)
  execute_lem batch w = elim (Bool-cases (any_invalid batch.id 0 batch.members)) [
    | inl bad ↦
        let (i, m, found, invalid) = any_invalid-HasInvalid batch.id 0 batch.members bad in
        let place : 0 + i ≡ i = omega arith in
        inl (
          execute_refused batch w bad,
          (i, m, found, subst (λ n. is_invalid batch.id n m.dependency ≡ true) place invalid),
        )
    | inr good ↦
        let ordered = any_invalid-AllPrecede batch.id 0 batch.members good in
        let ran = run_members-Ran batch.id batch.members [] w ordered in
        inr (
          (run_members batch.members [] w).0,
          (run_members batch.members [] w).1,
          execute_runs batch w good,
          ap length ran.extended ∙ ran.counted,
          ordered,
          ran.settled,
        )
  ]
