-- ===== src/Prelude/Rules.antt =====
-- To prove a property of a result branch by branch.
use mathlib.Core.Path.{◌≡◌, refl}
use mathlib.Core.Bool.{Bool, true, false}
use mathlib.Core.Option.{Option, none, some}
use mathlib.Core.List.{List, [], ◌∷◌}
use smb_rs.Prelude.Tests.{if◌then◌else◌}

module _ {ℓ} {S : Type 0} (P : S → Type ℓ) where
  pub if_rule : (b : Bool) {x y : S} → (b ≡ true → P x) → (b ≡ false → P y) → P (if b then x else y)
  if_rule true h k = h refl
  if_rule false h k = k refl

  pub option_rule :
      {A : Type 0} (o : Option A) {x : S} {f : A → S}
      → (o ≡ none → P x)
      → ((a : A) → o ≡ some a → P (f a))
      → P (elim o [ none ↦ x | some a ↦ f a ])
  option_rule none h k = h refl
  option_rule (some a) h k = k a refl

  pub list_rule :
      {A : Type 0} (xs : List A) {x : S} {f : A → List A → S}
      → (xs ≡ [] → P x)
      → ((a : A) (rest : List A) → xs ≡ a ∷ rest → P (f a rest))
      → P (elim xs [ [] ↦ x | a ∷ rest ↦ f a rest ])
  list_rule [] h k = h refl
  list_rule (a ∷ rest) h k = k a rest refl
