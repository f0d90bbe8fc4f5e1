-- ===== src/Generation/Heap.antt =====
-- The deadline heap of crates/smb/src/runtime/state.rs: its order, and the rounds that it can take.
use smb_rs.Prelude.{
  ℕ, ◌+◌, ◌≤◌, ◌<◌, ◌≡◌, refl, ◌⊎◌, inl, inr, true, false, List, [], ◌∷◌, arith, Bool-cases, All,
}
use smb_rs.Clock.{MonotonicTime}
use smb_rs.Reducer.{request_key_Eq}
use smb_rs.Generation.Data.{DeadlineEntry, entry_lt, push}
use smb_rs.Generation.Deadlines.{rounds, rounds_left}

-- By time.
abbrev pub IsSorted : List DeadlineEntry → Type 0
IsSorted [] = Unit {0}
IsSorted (d ∷ ds) = All (λ e. d.at ≤ e.at) ds × IsSorted ds

push-All :
    (t : ℕ) (e : DeadlineEntry) (ds : List DeadlineEntry)
    → t ≤ e.at
    → All (λ d. t ≤ d.at) ds
    → All (λ d. t ≤ d.at) (push e ds)
unfolding push
push-All t e [] h a = (h, tt)
push-All t e (d ∷ ds) h a = elim (Bool-cases (entry_lt e d)) [
  | inl before ↦ rw before (h, a)
  | inr after ↦ rw after (a.0, push-All t e ds h a.1)
]

All-le_trans :
    (t u : ℕ) (ds : List DeadlineEntry) → t ≤ u → All (λ d. u ≤ d.at) ds → All (λ d. t ≤ d.at) ds
All-le_trans t u [] h a = tt
All-le_trans t u (d ∷ ds) h a = (omega arith, All-le_trans t u ds h a.1)

entry_lt_at :
    (e d : DeadlineEntry)
    → ((entry_lt e d ≡ true) × (e.at ≤ d.at)) ⊎ ((entry_lt e d ≡ false) × (d.at ≤ e.at))
unfolding entry_lt
entry_lt_at e d = ground arith

pub push-IsSorted :
    (e : DeadlineEntry) (ds : List DeadlineEntry) → IsSorted ds → IsSorted (push e ds)
unfolding push
push-IsSorted e [] s = (tt, tt)
push-IsSorted e (d ∷ ds) s = elim (entry_lt_at e d) [
  | inl (before, h) ↦ rw before ((h, All-le_trans e.at d.at ds h s.0), s)
  | inr (after, h) ↦ rw after (push-All d.at e ds h s.0, push-IsSorted e ds s.1)
]

pub rounds_left-push :
    (e : DeadlineEntry) (ds : List DeadlineEntry)
    → rounds_left (push e ds) ≡ rounds e + rounds_left ds
unfolding push
rounds_left-push e [] = refl
rounds_left-push e (d ∷ ds) = elim (Bool-cases (entry_lt e d)) [
  | inl before ↦ rw before
  | inr after ↦ rw after (omega (arith, rounds_left-push e ds))
]

abbrev pub NoneDue : MonotonicTime → List DeadlineEntry → Type 0
NoneDue now ds = All (λ d. now < d.at) ds

pub none_due :
    (now : MonotonicTime) (t : ℕ) (ds : List DeadlineEntry)
    → now < t
    → All (λ d. t ≤ d.at) ds
    → NoneDue now ds
none_due now t [] h a = tt
none_due now t (d ∷ ds) h a = (omega arith, none_due now t ds h a.1)

pub no_rounds :
    (now : MonotonicTime) (ds : List DeadlineEntry) → rounds_left ds ≤ 0 → NoneDue now ds
no_rounds now [] h = tt
no_rounds now (d ∷ ds) h = absurd (ground arith)
