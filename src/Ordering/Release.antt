-- ===== src/Ordering/Release.antt =====
-- What crates/smb/src/runtime/preparation_order.rs lets go, and when.
use smb_rs.Prelude.{
  ◌≡◌, refl, sym, ◌∙◌, subst, inl, inr, true, false, none, some, List, [], ◌∷◌, ◌++◌, if◌then◌else◌,
  Eq, Assoc, get, insert, remove, get-remove, get-insert, arith, Bool-cases, Option-cases, ap, ◌||◌,
}
use smb_rs.Ordering.{OrderedCompletionQueue, contains, without, reserve, release, complete}

module _ {K : Type 0} ⦃e : Eq K⦄ where
  -- No key occurs twice.
  abbrev pub AreDistinct : List K → Type 0
  AreDistinct [] = Unit {0}
  AreDistinct (k ∷ ks) = (contains k ks ≡ false) × AreDistinct ks

  contains-without :
      (k j : K) (ks : List K)
      → contains j (without k ks) ≡ (if e.beq k j then false else contains j ks)
  unfolding contains without
  contains-without k j [] = ground arith
  contains-without k j (i ∷ is) =
      ground (arith, e.beq_iff k j, e.beq_iff i k, e.beq_iff i j, contains-without k j is)

  contains-append :
      (k : K) (js is : List K) → contains k (js ++ is) ≡ (contains k js || contains k is)
  unfolding contains
  contains-append k [] is = refl
  contains-append k (j ∷ js) is = ground (arith, contains-append k js is)

  contains-first : (k : K) (js is : List K) → contains k (js ++ is) ≡ false → contains k js ≡ false
  contains-first k js is h = ground (arith, contains-append k js is, h)

  -- A key behind others is not the first of an order without repetition.
  behind_other :
      (k j : K) (ks js is : List K)
      → contains k ks ≡ false
      → ks ≡ js ++ is
      → contains j is ≡ true
      → e.beq k j ≡ false
  behind_other k j ks js is new_key split behind =
      let apart : contains k (js ++ is) ≡ false = subst (λ l. contains k l ≡ false) split new_key in
      ground (arith, e.beq_iff k j, apart, contains-append k js is, behind)

  AreDistinct-append :
      (ks : List K) (key : K)
      → AreDistinct ks
      → contains key ks ≡ false
      → AreDistinct (ks ++ (key ∷ []))
  unfolding contains
  AreDistinct-append [] key d new_key = (refl, tt)
  AreDistinct-append (k ∷ ks) key d new_key = (
    ground (arith, d.0, contains-append k ks (key ∷ []), e.beq_iff k key, e.beq_iff key k),
    AreDistinct-append ks key d.1 (ground arith),
  )

module _ {K V : Type 0} ⦃e : Eq K⦄ where
  -- The values of the keys, in the same order.
  abbrev pub AreValues : Assoc K V → List K → List V → Type 0
  AreValues m [] [] = Unit {0}
  AreValues m (k ∷ ks) (v ∷ vs) = (get k m ≡ some v) × AreValues m ks vs
  AreValues m _ _ = ⊥

  -- The first key in order, if there is one, has not completed.
  abbrev pub FirstWaits : OrderedCompletionQueue K V → List K → Type 0
  FirstWaits q [] = Unit {0}
  FirstWaits q (k ∷ ks) = get k q.completed ≡ none

  -- Each key is reserved exactly while it is in the order, once, and only such keys complete.
  pub record IsOrdered (q : OrderedCompletionQueue K V) : Type 0 where
    pub distinct : AreDistinct q.order
    pub same : (k : K) → contains k q.reserved ≡ contains k q.order
    pub reserved_only : (k : K) → contains k q.order ≡ false → get k q.completed ≡ none

  AreValues-remove :
      (m : Assoc K V) (k : K) (ks : List K) (vs : List V)
      → contains k ks ≡ false
      → AreValues (remove k m) ks vs
      → AreValues m ks vs
  unfolding contains
  AreValues-remove m k [] [] c h = tt
  AreValues-remove m k [] (v ∷ vs) c h = h
  AreValues-remove m k (j ∷ js) [] c h = h
  AreValues-remove m k (j ∷ js) (v ∷ vs) c h = (
    ground (arith, get-remove k j m, e.beq_iff j k, e.beq_iff k j, h.0),
    AreValues-remove m k js vs (ground arith) h.1,
  )

  -- The keys let go are the first of the order, as far as they have all completed; what has completed
  -- behind them stays.
  pub record Released (order : List K) (completed : Assoc K V)
      (x : OrderedCompletionQueue K V × List V) : Type 0 where
    pub keys_gone : List K
    pub first : order ≡ keys_gone ++ x.0.order
    pub values : AreValues completed keys_gone x.1
    pub waits : FirstWaits x.0 x.0.order
    pub kept : (k : K) → contains k x.0.order ≡ true → get k x.0.completed ≡ get k completed
    pub ordered : IsOrdered x.0

  release-step :
      (k : K) (ks reserved : List K) (completed : Assoc K V)
      → IsOrdered (record { order = k ∷ ks; reserved = reserved; completed = completed })
      → IsOrdered
          (record { order = ks; reserved = without k reserved; completed = remove k completed })
  unfolding contains
  release-step k ks reserved completed o = record {
    distinct = o.distinct.1;
    same = λ j. ground (arith, o.same j, o.distinct, contains-without k j reserved, e.beq_iff k j);
    reserved_only = λ j h. ground (arith, o.reserved_only j, h, get-remove k j completed);
  }

  release-Released :
      (order reserved : List K) (completed : Assoc K V)
      → IsOrdered (record { order = order; reserved = reserved; completed = completed })
      → Released order completed (release order reserved completed)
  unfolding release
  release-Released [] reserved completed o = record {
    keys_gone = [];
    first = refl;
    values = tt;
    waits = tt;
    kept = λ k h. refl;
    ordered = o;
  }
  release-Released (k ∷ ks) reserved completed o = elim (Option-cases (get k completed)) [
    | inl e ↦
        rw (e, release)
          (record {
            keys_gone = [];
            first = refl;
            values = tt;
            waits = e;
            kept = λ k h. refl;
            ordered = o;
          })
    | inr (v, e) ↦
        let rest = release ks (without k reserved) (remove k completed) in
        let ih =
          release-Released ks (without k reserved) (remove k completed)
            (release-step k ks reserved completed o) in
        rw (e, release)
          (record {
            keys_gone = k ∷ ih.keys_gone;
            first = ap (λ (l : List K). k ∷ l) ih.first;
            values = (
              e,
              AreValues-remove completed k ih.keys_gone rest.1
                  (contains-first k ih.keys_gone rest.0.order
                    (subst (λ l. contains k l ≡ false) ih.first o.distinct.0))
                  ih.values,
            );
            waits = ih.waits;
            kept = λ j h.
                let other = behind_other k j ks ih.keys_gone rest.0.order o.distinct.0 ih.first h in
                ih.kept j h ∙ (get-remove k j completed ∙ rw other refl);
            ordered = ih.ordered;
          })
  ]

  -- A reserved key that has not completed may complete; then the longest completed stretch at the
  -- front of the order goes, with its own values and in that order. No other key goes, and what has
  -- completed behind the stretch is kept.
  pub complete-in_order :
      (q : OrderedCompletionQueue K V) (key : K) (value : V)
      → IsOrdered q
      → contains key q.order ≡ true
      → get key q.completed ≡ none
      → (x : OrderedCompletionQueue K V × List V) × (complete q key value ≡ some x)
        × Released q.order (insert key value q.completed) x
  unfolding complete
  complete-in_order q key value o reserved fresh = (
    release q.order q.reserved (insert key value q.completed),
    ground (arith, o.same key),
    release-Released q.order q.reserved (insert key value q.completed) (record {
      distinct = o.distinct;
      same = o.same;
      reserved_only = λ j h.
          ground (arith, o.reserved_only j h, get-insert key j value q.completed, e.beq_iff key j);
    }),
  )

  reserved_as :
      (q t : OrderedCompletionQueue K V) (key : K)
      → contains key q.reserved ≡ false
      → reserve q key ≡ some t
      → record q { order = q.order ++ (key ∷ []); reserved = key ∷ q.reserved } ≡ t
  unfolding reserve
  reserved_as q t key free h = ground arith

  added :
      (q : OrderedCompletionQueue K V) (key : K)
      → contains key q.reserved ≡ false
      → IsOrdered q
      → IsOrdered (record q { order = q.order ++ (key ∷ []); reserved = key ∷ q.reserved })
  unfolding contains
  added q key free o = record {
    distinct = AreDistinct-append q.order key o.distinct (sym (o.same key) ∙ free);
    same = λ k. ground (arith, o.same k, contains-append k q.order (key ∷ []));
    reserved_only =
        λ k h. ground (arith, o.reserved_only k, h, contains-append k q.order (key ∷ []));
  }

  -- A new key goes to the end of the order; a key that is reserved is refused.
  pub reserve-IsOrdered :
      (q t : OrderedCompletionQueue K V) (key : K)
      → reserve q key ≡ some t
      → IsOrdered q
      → IsOrdered t × (t.order ≡ q.order ++ (key ∷ []))
  unfolding reserve
  reserve-IsOrdered q t key h o = elim (Bool-cases (contains key q.reserved)) [
    | inl taken ↦ absurd (ground arith)
    | inr free ↦
        subst (λ (u : OrderedCompletionQueue K V). IsOrdered u × (u.order ≡ q.order ++ (key ∷ [])))
          (reserved_as q t key free h) (added q key free o, refl)
  ]
