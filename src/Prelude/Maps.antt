-- ===== src/Prelude/Maps.antt =====
-- The standard library's `HashMap` as an association list, with the laws in `if` form, and sums
-- over the values. A walk over the map follows the order of the list.
use Prim.Native.Nat.{ℕ, ◌+◌, ◌≤◌}
use mathlib.Core.Path.{◌≡◌, refl, subst}
use mathlib.Core.Logic.{◌⊎◌, inl, inr}
use mathlib.Core.Bool.{false}
use mathlib.Core.List.{List, [], ◌∷◌}
use mathlib.Core.Option.{Option, none, some}
use native.Mathlib.Omega.{arith}
use smb_rs.Prelude.Tests.{Eq, if◌then◌else◌, Bool-cases}

abbrev pub Assoc {ℓ κ} : Type ℓ → Type κ → Type (ℓ ⊔ κ)
Assoc K V = List (K × V)

-- A measure of a value that may be missing.
abbrev pub measure {ℓ} : {V : Type ℓ} → (V → ℕ) → Option V → ℕ
measure f none = 0
measure f (some v) = f v

abbrev pub sum_by {ℓ κ} : {K : Type ℓ} {V : Type κ} → (V → ℕ) → Assoc K V → ℕ
sum_by f [] = 0
sum_by f ((k, v) ∷ m) = f v + sum_by f m

abbrev pub keys {ℓ κ} : {K : Type ℓ} {V : Type κ} → Assoc K V → List K
keys [] = []
keys ((k, v) ∷ m) = k ∷ keys m

-- A key occurs in a list of keys.
abbrev pub In : {K : Type 0} → K → List K → Type 0
In k [] = ⊥
In k (j ∷ js) = (j ≡ k) ⊎ In k js

module _ {ℓ κ} {K : Type ℓ} {V : Type κ} ⦃e : Eq K⦄ where
  unfoldable pub get : K → Assoc K V → Option V
  get k [] = none
  get k ((j, v) ∷ m) = if e.beq j k then some v else get k m

  -- Also `*map.get_mut(k) = v` for a key that is there.
  unfoldable pub insert : K → V → Assoc K V → Assoc K V
  insert k v [] = (k, v) ∷ []
  insert k v ((j, w) ∷ m) = if e.beq j k then (k, v) ∷ m else (j, w) ∷ insert k v m

  unfoldable pub remove : K → Assoc K V → Assoc K V
  remove k [] = []
  remove k ((j, v) ∷ m) = let rest = remove k m in if e.beq j k then rest else (j, v) ∷ rest

  pub get-insert :
      (k j : K) (v : V) (m : Assoc K V)
      → get j (insert k v m) ≡ (if e.beq k j then some v else get j m)
  unfolding get insert
  get-insert k j v [] = refl
  get-insert k j v ((i, w) ∷ m) =
      ground (arith, e.beq_iff k j, e.beq_iff i k, e.beq_iff i j, get-insert k j v m)

  -- An entry after an insertion is the new one, or an old one under another key.
  pub get-insert_cases :
      (k j : K) (v w : V) (m : Assoc K V)
      → get j (insert k v m) ≡ some w
      → ((k ≡ j) × (v ≡ w)) ⊎ ((e.beq k j ≡ false) × (get j m ≡ some w))
  get-insert_cases k j v w m h = elim (Bool-cases (e.beq k j)) [
    | inl same ↦ inl ((e.beq_iff k j).0 same, ground (arith, get-insert k j v m))
    | inr other ↦ inr (other, ground (arith, get-insert k j v m))
  ]

  pub get-remove :
      (k j : K) (m : Assoc K V) → get j (remove k m) ≡ (if e.beq k j then none else get j m)
  unfolding get remove
  get-remove k j [] = ground arith
  get-remove k j ((i, w) ∷ m) =
      ground (arith, e.beq_iff k j, e.beq_iff i k, e.beq_iff i j, get-remove k j m)

  pub sum_by-insert :
      (f : V → ℕ) (k : K) (v : V) (m : Assoc K V)
      → sum_by f (insert k v m) + measure f (get k m) ≡ sum_by f m + f v
  unfolding get insert
  sum_by-insert f k v [] = omega arith
  sum_by-insert f k v ((i, w) ∷ m) = ground (arith, sum_by-insert f k v m)

  pub measure-le-sum_by : (f : V → ℕ) (k : K) (m : Assoc K V) → measure f (get k m) ≤ sum_by f m
  unfolding get
  measure-le-sum_by f k [] = omega arith
  measure-le-sum_by f k ((i, w) ∷ m) = ground (arith, measure-le-sum_by f k m)

  -- No key has two entries.
  abbrev pub IsDistinct : Assoc K V → Type κ
  IsDistinct [] = Unit {κ}
  IsDistinct ((k, v) ∷ m) = (get k m ≡ none) × IsDistinct m

  pub insert-IsDistinct : (k : K) (v : V) (m : Assoc K V) → IsDistinct m → IsDistinct (insert k v m)
  unfolding insert get
  insert-IsDistinct k v [] d = (refl, tt)
  insert-IsDistinct k v ((j, w) ∷ m) d = elim (Bool-cases (e.beq j k)) [
    | inl same ↦ rw same (subst (λ i. get i m ≡ none) ((e.beq_iff j k).0 same) d.0, d.1)
    | inr other ↦ rw other (
      ground (arith, d, get-insert k j v m, e.beq_iff k j, e.beq_iff j k),
      insert-IsDistinct k v m d.1,
    )
  ]

  -- A measure that is 0 at every entry that a lookup finds sums to 0.
  pub sum_by_zero :
      (f : V → ℕ) (m : Assoc K V)
      → IsDistinct m
      → ((k : K) (v : V) → get k m ≡ some v → f v ≡ 0)
      → sum_by f m ≡ 0
  unfolding get
  sum_by_zero f [] d h = refl
  sum_by_zero f ((k, v) ∷ m) d h = omega (
    arith,
    h k v (ground (arith, e.beq_iff k k)),
    sum_by_zero f m d.1 (λ j w found. h j w (ground (arith, d.0, e.beq_iff k j))),
  )

module _ {κ} {K : Type 0} {V : Type κ} ⦃e : Eq K⦄ where
  pub get-In : (k : K) (v : V) (m : Assoc K V) → get k m ≡ some v → In k (keys m)
  unfolding get
  get-In k v [] h = absurd (ground arith)
  get-In k v ((j, w) ∷ m) h = elim (Bool-cases (e.beq j k)) [
    | inl same ↦ inl ((e.beq_iff j k).0 same)
    | inr other ↦ inr (get-In k v m (ground arith))
  ]
