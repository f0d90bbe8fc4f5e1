-- ===== src/Transfer/Moves.antt =====
-- crates/smb/src/domain/transfer.rs: a read that answers, and a write, keep what holds between the
-- turns of `run_transfer`.
use smb_rs.Prelude.{
  if_apart, ltb, length-append, ℕ, suc, ◌+◌, ◌≤◌, ◌<◌, ◌≡◌, ◌≢◌, sym, ap, ◌∙◌, none, some, List, [],
  ◌∷◌, ◌++◌, arith, length, Assoc, get, insert, remove, get-insert, get-remove, nat_eq, ==_iff,
  ◌==◌, inl, inr, Bool-cases, Option-cases, subst, if◌then◌else◌,
}
use smb_rs.Transfer.{TransferOptions, Scheduler}
use smb_rs.Transfer.Chunks.{Chain, Chain-agree, Chain-first, Takes}
use smb_rs.Transfer.Events.{Tells-append, Writes-append}
use smb_rs.Transfer.Invariant.{held, Fits, turns_left, IsRunning}

length-insert :
    {V : Type 0} (k : ℕ) (v : V) (m : Assoc ℕ V) → length (insert k v m) ≤ suc (length m)
unfolding insert
length-insert k v [] = omega arith
length-insert k v ((j, w) ∷ m) = ground (arith, length-insert k v m)

length-remove : {V : Type 0} (k : ℕ) (m : Assoc ℕ V) → length (remove k m) ≤ length m
unfolding remove
length-remove k [] = omega arith
length-remove k ((j, w) ∷ m) = ground (arith, length-remove k m)

length-remove_lt :
    {V : Type 0} (k : ℕ) (v : V) (m : Assoc ℕ V) → get k m ≡ some v → length (remove k m) < length m
unfolding remove get
length-remove_lt k v [] h = cc
length-remove_lt k v ((j, w) ∷ m) h = ground (arith, length-remove k m, length-remove_lt k v m)

module _ {B : Type 0} (total : ℕ) (options : TransferOptions) (Good : ℕ → List B → Type 0) where
  -- The state once a read has answered.
  unfoldable pub answered : (offset : ℕ) → List B → Assoc ℕ ℕ → Scheduler B → Scheduler B
  answered offset bytes others s = record s {
    pending = others;
    ready = insert offset bytes s.ready;
  }

  module _ (offset : ℕ) (bytes : List B) (others : Assoc ℕ ℕ) (s : Scheduler B)
      (v : IsRunning total options Good s)
      (taken : Takes s.pending (some ((offset, length bytes), others))) where
    held-answered :
        (o : ℕ) → held total options (answered offset bytes others s) o ≡ held total options s o
    unfolding answered
    held-answered o = elim (Bool-cases (offset == o)) [
      | inl same ↦
          let at : offset ≡ o = (==_iff offset o).0 same in
          let here : get o s.pending ≡ some (length bytes) =
            subst (λ n. get n s.pending ≡ some (length bytes)) at taken.0 in
          ground (arith, here, taken.3 o, get-insert offset o bytes s.ready)
      | inr other ↦ ground (arith, taken.3 o, get-insert offset o bytes s.ready)
    ]

    answered-apart : (o l : ℕ) → get o others ≡ some l → get o (insert offset bytes s.ready) ≡ none
    answered-apart o l h = elim (Bool-cases (offset == o)) [
      | inl same ↦ absurd (ground (arith, h, taken.3 o))
      | inr other ↦
          let old : get o s.pending ≡ some l = ground (arith, h, taken.3 o) in
          ground (arith, v.apart o l old, get-insert offset o bytes s.ready)
    ]

    answered-good :
        Good offset bytes
        → (o : ℕ) (found : List B) → get o (insert offset bytes s.ready) ≡ some found
        → Good o found
    answered-good g o found h = elim (Bool-cases (offset == o)) [
      | inl same ↦
          let at : offset ≡ o = (==_iff offset o).0 same in
          let it : bytes ≡ found = ground (arith, h, get-insert offset o bytes s.ready) in
          subst (λ b. Good o b) it (subst (λ n. Good n bytes) at g)
      | inr other ↦ v.good o found (ground (arith, h, get-insert offset o bytes s.ready))
    ]

    pub answered-IsRunning :
        Good offset bytes
        → IsRunning total options Good (answered offset bytes others s)
          × (turns_left total options (answered offset bytes others s) < turns_left total options s)
    unfolding answered
    answered-IsRunning g = (
      record {
        bounded = omega (arith, v.bounded, taken.1, length-insert offset bytes s.ready);
        read_le = v.read_le;
        counted = v.counted;
        numbered = v.numbered;
        distinct = taken.2;
        apart = answered-apart;
        fits = λ o l h. v.fits o l (sym (held-answered o) ∙ h);
        chain = Chain-agree (λ o lo hi. held-answered o) v.chain;
        good = answered-good g;
        events = v.events;
        calls = v.calls;
      },
      omega (arith, taken.1, length-insert offset bytes s.ready),
    )

  -- The state once a chunk is written, with the event that tells of it.
  unfoldable pub wrote : List B → Scheduler B → Scheduler B
  wrote bytes s = record s {
    ready = remove s.next_write s.ready;
    next_write = s.next_write + length bytes;
    transferred = s.transferred + length bytes;
    chunks = s.chunks + 1;
    progress =
        s.progress
        ++ record {
          offset = s.next_write;
          bytes = length bytes;
          transferred = s.transferred + length bytes;
          total = total;
        }
          ∷ [];
    written = s.written ++ (s.next_write, bytes) ∷ [];
  }

  module _ (bytes : List B) (s : Scheduler B) (v : IsRunning total options Good s)
      (due : get s.next_write s.ready ≡ some bytes) where
    unread : get s.next_write s.pending ≡ none
    unread = elim (Option-cases (get s.next_write s.pending)) [
      | inl missing ↦ missing
      | inr (l, found) ↦ absurd (cc (v.apart s.next_write l found))
    ]

    pub held_due : held total options s s.next_write ≡ some (length bytes)
    held_due = ground (arith, unread, due)

    held-wrote :
        (o : ℕ)
        → held total options (wrote bytes s) o
          ≡ (if s.next_write == o then none else held total options s o)
    unfolding wrote
    held-wrote o = elim (Bool-cases (s.next_write == o)) [
      | inl same ↦
          let at : s.next_write ≡ o = (==_iff s.next_write o).0 same in
          let idle : get o s.pending ≡ none = subst (λ n. get n s.pending ≡ none) at unread in
          ground (arith, idle, get-remove s.next_write o s.ready)
      | inr other ↦ ground (arith, get-remove s.next_write o s.ready)
    ]

    behind :
        Chain (held total options s) s.next_read (s.next_write + length bytes)
        × ((o : ℕ)
            → s.next_write < o
            → o < s.next_write + length bytes
            → held total options s o ≡ none)
    behind =
        let (_, pos, within, _) = v.fits s.next_write (length bytes) held_due in
        Chain-first (length bytes) held_due within pos v.chain

    wrote-Fits :
        (o l : ℕ)
        → held total options (wrote bytes s) o ≡ some l
        → Fits total options (wrote bytes s) o l
    unfolding wrote
    wrote-Fits o l h =
        let other : s.next_write ≢ o = λ at. ground (arith, h, held-wrote o) in
        let old : held total options s o ≡ some l = ground (arith, h, held-wrote o) in
        let fit = v.fits o l old in
        let past : s.next_write + length bytes ≤ o =
          elim (Bool-cases (ltb o (s.next_write + length bytes))) [
            | inl inside ↦
                absurd (cc (behind.1 o (omega (arith, other, fit)) (ground (arith, inside)), old))
            | inr outside ↦ ground (arith, outside)
          ] in
        (past, fit.1, fit.2, fit.3)

    wrote-Chain :
        Chain (held total options (wrote bytes s)) s.next_read (s.next_write + length bytes)
    wrote-Chain =
        let (_, pos, _, _) = v.fits s.next_write (length bytes) held_due in
        Chain-agree (λ o lo hi. held-wrote o ∙ if_apart s.next_write o _ _ (omega (arith, lo, pos)))
          behind.0

    wrote-apart : (o l : ℕ) → get o s.pending ≡ some l → get o (remove s.next_write s.ready) ≡ none
    wrote-apart o l h = ground (arith, v.apart o l h, get-remove s.next_write o s.ready)

    wrote-good :
        (o : ℕ) (found : List B) → get o (remove s.next_write s.ready) ≡ some found → Good o found
    wrote-good o found h = v.good o found (ground (arith, h, get-remove s.next_write o s.ready))

    pub wrote-IsRunning :
        IsRunning total options Good (wrote bytes s)
        × (turns_left total options (wrote bytes s) < turns_left total options s)
    unfolding wrote
    wrote-IsRunning = (
      record {
        bounded = omega (arith, v.bounded, length-remove s.next_write s.ready);
        read_le = v.read_le;
        counted = ap (λ (n : ℕ). n + length bytes) v.counted;
        numbered = omega (
          arith,
          v.numbered,
          length-append s.progress (
              record {
                offset = s.next_write;
                bytes = length bytes;
                transferred = s.transferred + length bytes;
                total = total;
              }
              ∷ []),
        );
        distinct = v.distinct;
        apart = wrote-apart;
        fits = wrote-Fits;
        chain = wrote-Chain;
        good = wrote-good;
        events =
            rw v.counted (Tells-append total 0 s.progress s.next_write (length bytes) v.events);
        calls =
            Writes-append Good 0 s.written s.next_write bytes v.calls
              (v.good s.next_write bytes due);
      },
      omega (arith, length-remove_lt s.next_write bytes s.ready due),
    )
