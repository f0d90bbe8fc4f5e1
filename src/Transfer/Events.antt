-- ===== src/Transfer/Events.antt =====
-- crates/smb/src/domain/transfer.rs: the events that `run_transfer` sends, and its writes, in order.
use smb_rs.Prelude.{ℕ, ◌+◌, ◌≡◌, refl, sym, ap, List, [], ◌∷◌, ◌++◌, length}
use smb_rs.Transfer.{ChunkCompleted}

module _ (total : ℕ) where
  -- The events tell of chunks that follow on one another, from one offset to another.
  abbrev pub Tells : (a : ℕ) → List ChunkCompleted → (b : ℕ) → Type 0
  Tells a [] b = a ≡ b
  Tells a (event ∷ events) b =
      (event.offset ≡ a)
      × (event.transferred ≡ a + event.bytes)
      × (event.total ≡ total)
      × Tells (a + event.bytes) events b

  pub Tells-append :
      (a : ℕ) (events : List ChunkCompleted) (b size : ℕ)
      → Tells a events b
      → Tells a
          (events
            ++ record { offset = b; bytes = size; transferred = b + size; total = total } ∷ [])
          (b + size)
  Tells-append a [] b size e =
      (sym e, ap (λ (n : ℕ). n + size) (sym e), refl, ap (λ (n : ℕ). n + size) e)
  Tells-append a (event ∷ events) b size (o, t, n, rest) =
      (o, t, n, Tells-append (a + event.bytes) events b size rest)

module _ {B : Type 0} (Good : ℕ → List B → Type 0) where
  -- The calls write chunks that follow on one another, each of which may stand where it is written.
  abbrev pub Writes : (a : ℕ) → List (ℕ × List B) → (b : ℕ) → Type 0
  Writes a [] b = a ≡ b
  Writes a ((offset, bytes) ∷ calls) b =
      (offset ≡ a) × Good offset bytes × Writes (a + length bytes) calls b

  pub Writes-append :
      (a : ℕ) (calls : List (ℕ × List B)) (b : ℕ) (bytes : List B)
      → Writes a calls b
      → Good b bytes
      → Writes a (calls ++ (b, bytes) ∷ []) (b + length bytes)
  Writes-append a [] b bytes e g = (sym e, g, ap (λ (n : ℕ). n + length bytes) e)
  Writes-append a ((offset, chunk) ∷ calls) b bytes (o, here, rest) g =
      (o, here, Writes-append (a + length chunk) calls b bytes rest g)
