-- ===== src/Prelude/Slices.antt =====
-- `&list[..n]` and `&list[n..]` over the native numbers.
use native.Mathlib.Numerals.{unary_clauses}
use Prim.Native.Nat.{ℕ, zero, suc, ◌+◌, ◌-◌, ◌≤◌, min}
use mathlib.Core.Path.{◌≡◌, refl, sym, ap, ◌∙◌}
use mathlib.Core.Logic.{inl, inr}
use mathlib.Core.List.{List, [], ◌∷◌, ◌++◌}
use native.Mathlib.Omega.{arith}
use smb_rs.Prelude.Tests.{leb, Bool-cases}
use smb_rs.Prelude.Lists.{length}

module _ {ℓ} {A : Type ℓ} where
  abbrev pub take : ℕ → List A → List A
  take zero xs = []
  take (suc n) [] = []
  take (suc n) (x ∷ xs) = x ∷ take n xs

  abbrev pub drop : ℕ → List A → List A
  drop zero xs = xs
  drop (suc n) [] = []
  drop (suc n) (x ∷ xs) = drop n xs

  pub take-append-drop : (n : ℕ) (xs : List A) → take n xs ++ drop n xs ≡ xs
  take-append-drop zero xs = refl
  take-append-drop (suc n) [] = refl
  take-append-drop (suc n) (x ∷ xs) = ap (λ (ys : List A). x ∷ ys) (take-append-drop n xs)

  pub length-take : (n : ℕ) (xs : List A) → n ≤ length xs → length (take n xs) ≡ n
  length-take zero xs h = refl
  length-take (suc n) [] h = absurd (omega arith)
  length-take (suc n) (x ∷ xs) h = ap suc (length-take n xs (omega arith))

  pub drop-append :
      (n : ℕ) (xs ys : List A) → drop n (xs ++ ys) ≡ drop n xs ++ drop (n - length xs) ys
  drop-append zero [] ys = refl
  drop-append zero (x ∷ xs) ys = ground arith
  drop-append (suc n) [] ys = ground arith
  drop-append (suc n) (x ∷ xs) ys = simp unary_clauses (drop-append n xs ys)

  pub drop_nil : (n : ℕ) → ◌≡◌ {A = List A} (drop n []) []
  drop_nil zero = refl
  drop_nil (suc n) = refl

  pub drop_add : (a b : ℕ) (xs : List A) → drop b (drop a xs) ≡ drop (a + b) xs
  drop_add zero b xs = let same : b ≡ 0 + b = omega arith in ap (λ (n : ℕ). drop n xs) same
  drop_add (suc a) b [] = drop_nil b ∙ sym (drop_nil (suc a + b))
  drop_add (suc a) b (x ∷ xs) =
      let moved : suc (a + b) ≡ suc a + b = omega arith in
      drop_add a b xs ∙ ap (λ (n : ℕ). drop n (x ∷ xs)) moved

  pub length-drop : (n : ℕ) (xs : List A) → length (drop n xs) ≡ length xs - n
  length-drop zero xs = omega arith
  length-drop (suc n) [] = omega arith
  length-drop (suc n) (x ∷ xs) = omega (arith, length-drop n xs)

  pub drop_all : (n : ℕ) (xs : List A) → length xs ≤ n → drop n xs ≡ []
  drop_all zero [] h = refl
  drop_all zero (x ∷ xs) h = absurd (omega arith)
  drop_all (suc n) [] h = refl
  drop_all (suc n) (x ∷ xs) h = drop_all n xs (omega arith)

  pub drop-min : (n : ℕ) (xs : List A) → drop (min n (length xs)) xs ≡ drop n xs
  drop-min n xs = elim (Bool-cases (leb n (length xs))) [
    | inl within ↦ let e : min n (length xs) ≡ n = ground arith in ap (λ (k : ℕ). drop k xs) e
    | inr past ↦
        let e : min n (length xs) ≡ length xs = ground arith in
        ap (λ (k : ℕ). drop k xs) e
        ∙ drop_all (length xs) xs (omega arith)
        ∙ sym (drop_all n xs (ground arith))
  ]

  pub drop_past :
      (n : ℕ) (xs ys : List A) → length xs ≤ n → drop n (xs ++ ys) ≡ drop (n - length xs) ys
  drop_past n xs ys h =
      drop-append n xs ys ∙ ap (λ (zs : List A). zs ++ drop (n - length xs) ys) (drop_all n xs h)

  pub drop_inside : (n : ℕ) (xs ys : List A) → n ≤ length xs → drop n (xs ++ ys) ≡ drop n xs ++ ys
  drop_inside n xs ys h =
      let none_past : n - length xs ≡ 0 = omega arith in
      drop-append n xs ys ∙ ap (λ (k : ℕ). drop n xs ++ drop k ys) none_past
