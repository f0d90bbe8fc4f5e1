-- ===== src/Transfer/Chunks.antt =====
-- crates/smb/src/domain/transfer.rs: the chunks that are being read or wait to be written.
use mathlib.Core.Option
use smb_rs.Prelude.{
  ℕ, zero, suc, ◌+◌, ◌≤◌, ◌<◌, ◌≡◌, ◌≢◌, refl, ap, ◌∙◌, Option, none, some, List, [], ◌∷◌, arith,
  length, Assoc, get, IsDistinct, nat_eq, ==_iff, ◌==◌, inl, inr, Bool-cases, Option-cases, subst,
  if◌then◌else◌,
}
use smb_rs.Transfer.{take_at}

-- The length of the chunk at an offset, if that is pending or ready.
abbrev pub held_in : {B : Type 0} → Assoc ℕ ℕ → Assoc ℕ (List B) → ℕ → Option ℕ
held_in pending ready offset = elim (get offset pending) [
  | some chunk_length ↦ some chunk_length
  | none ↦ Option.map length (get offset ready)
]

pub held_in-none :
    {B : Type 0} (pending : Assoc ℕ ℕ) (ready : Assoc ℕ (List B)) (o : ℕ)
    → held_in pending ready o ≡ none
    → (get o pending ≡ none) × (get o ready ≡ none)
held_in-none pending ready o h = elim (Option-cases (get o pending)) [
  | inl no_read ↦ elim (Option-cases (get o ready)) [
    | inl no_bytes ↦ (no_read, no_bytes)
    | inr (bytes, found) ↦ absurd (ground (arith, h))
  ]
  | inr (l, found) ↦ absurd (ground (arith, h))
]

-- The chunks from one offset to another follow on one another, and none lies across a boundary.
pub data Chain (held : ℕ → Option ℕ) (b : ℕ) : ℕ → Type 0 where
  ended : (a : ℕ) → a ≡ b → Chain held b a
  linked :
      (a size : ℕ)
      → held a ≡ some size
      → 0 < size
      → ((o : ℕ) → a < o → o < a + size → held o ≡ none)
      → Chain held b (a + size)
      → Chain held b a

pub Chain-le : {held : ℕ → Option ℕ} {b a : ℕ} → Chain held b a → a ≤ b
Chain-le (ended a e) = omega (arith, e)
Chain-le (linked a size here pos inside rest) = omega (arith, Chain-le rest)

-- A chain looks at the offsets below its end only.
pub Chain-agree :
    {held held' : ℕ → Option ℕ} {b a : ℕ}
    → ((o : ℕ) → a ≤ o → o < b → held' o ≡ held o)
    → Chain held b a
    → Chain held' b a
Chain-agree same (ended a e) = ended a e
Chain-agree {b} same (linked a size here pos inside rest) =
    let below = Chain-le rest in
    linked a size (same a (omega arith) (omega (arith, below)) ∙ here) pos
      (λ o lo hi. same o (omega arith) (omega (arith, below)) ∙ inside o lo hi)
      (Chain-agree (λ o lo hi. same o (omega (arith, lo)) hi) rest)

pub Chain-extend :
    {held : ℕ → Option ℕ} {b a : ℕ} (size : ℕ)
    → held b ≡ some size
    → 0 < size
    → ((o : ℕ) → b < o → held o ≡ none)
    → Chain held b a
    → Chain held (b + size) a
Chain-extend {held} {b} size here pos above (ended a e) =
    linked a size (ap held e ∙ here) pos (λ o lo hi. above o (omega (arith, e)))
      (ended (a + size) (omega (arith, e)))
Chain-extend size here pos above (linked a s first p inside rest) =
    linked a s first p inside (Chain-extend size here pos above rest)

-- The chunk at the start of a chain, and the chain behind it.
pub Chain-first :
    {held : ℕ → Option ℕ} {b a : ℕ} (size : ℕ)
    → held a ≡ some size
    → a + size ≤ b
    → 0 < size
    → Chain held b a
    → Chain held b (a + size) × ((o : ℕ) → a < o → o < a + size → held o ≡ none)
Chain-first size here within pos (ended a e) = absurd (omega (arith, e))
Chain-first {held} {b} size here within pos (linked a s first p inside rest) =
    let same : s ≡ size = cc in
    (
      subst (λ n. Chain held b (a + n)) same rest,
      subst (λ n. (o : ℕ) → a < o → o < a + n → held o ≡ none) same inside,
    )

pub Chain-none : {held : ℕ → Option ℕ} {b a : ℕ} → held a ≡ none → Chain held b a → a ≡ b
Chain-none missing (ended a e) = e
Chain-none missing (linked a s first p inside rest) = absurd (cc)

-- What `take_at` finds was pending under its offset, and only that leaves.
abbrev pub Takes : Assoc ℕ ℕ → Option ((ℕ × ℕ) × Assoc ℕ ℕ) → Type 0
Takes pending none = pending ≡ []
Takes pending (some ((offset, chunk_length), others)) =
    (get offset pending ≡ some chunk_length)
    × (length pending ≡ suc (length others))
    × IsDistinct others
    × ((o : ℕ) → get o others ≡ (if offset == o then none else get o pending))

Takes-cons :
    (offset size : ℕ) (rest : Assoc ℕ ℕ) (found : Option ((ℕ × ℕ) × Assoc ℕ ℕ))
    → rest ≢ []
    → get offset rest ≡ none
    → Takes rest found
    → Takes ((offset, size) ∷ rest) (Option.map (λ f. (f.0, (offset, size) ∷ f.1)) found)
unfolding get
Takes-cons offset size rest none more new taken = absurd (more taken)
Takes-cons offset size rest (some ((at, chunk_length), others)) more new
      (here, count, distinct, left) =
    let apart : offset ≢ at = λ same. ground (arith, here, new) in
    (
      ground (arith, here),
      omega (arith, count),
      (ground (arith, left offset, new), distinct),
      λ o. ground (arith, left o),
    )

Takes-head :
    (offset size : ℕ) (rest : Assoc ℕ ℕ)
    → IsDistinct ((offset, size) ∷ rest)
    → Takes ((offset, size) ∷ rest) (some ((offset, size), rest))
unfolding get
Takes-head offset size rest d = (
  ground arith,
  refl,
  d.1,
  λ o. elim (Bool-cases (offset == o)) [
    | inl same ↦
        let e : get o rest ≡ none = subst (λ n. get n rest ≡ none) ((==_iff offset o).0 same) d.0 in
        ground (arith, e)
    | inr other ↦ ground arith
  ],
)

pub take_at-Takes :
    (i : ℕ) (pending : Assoc ℕ ℕ) → IsDistinct pending → Takes pending (take_at i pending)
unfolding take_at
take_at-Takes i [] d = refl
take_at-Takes zero ((offset, size) ∷ []) d = Takes-head offset size [] d
take_at-Takes (suc i) ((offset, size) ∷ []) d = Takes-head offset size [] d
take_at-Takes zero ((offset, size) ∷ other ∷ pending) d = Takes-head offset size (other ∷ pending) d
take_at-Takes (suc i) ((offset, size) ∷ other ∷ pending) d =
    Takes-cons offset size (other ∷ pending) (take_at i (other ∷ pending)) (λ h. cc) d.0
      (take_at-Takes i (other ∷ pending) d.1)
