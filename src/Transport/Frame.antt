-- ===== src/Transport/Frame.antt =====
-- crates/smb-transport/src/frame.rs: complete frames, received and to be sent.
use smb_rs.Prelude.{
  ℕ, ◌+◌, ◌≤◌, ◌<◌, ◌≡◌, ◌↔◌, Option, none, some, List, [], ◌∷◌, inl, inr, if◌then◌else◌, ltb, ◌==◌,
  checked_add, usize_max, u32_max, Result, ok, err, arith, length, Option-cases,
}

pub data TransportError : Type 0 where
  invalid_message : TransportError
  frame_too_large : (announced maximum : ℕ) → TransportError
  segment_limit_exceeded : (actual maximum : ℕ) → TransportError
  cursor_advance_out_of_bounds : (requested remaining : ℕ) → TransportError

pub record SendFrame (B : Type 0) : Type 0 where
  pub segments : List (List B)
  pub total_len : ℕ

module _ {B : Type 0} where
  -- `TransportFrame::from_bytes`
  unfoldable pub from_bytes : List B → (max_len : ℕ) → Result TransportError (List B)
  from_bytes bytes max_len =
      if ltb max_len (length bytes) then err (frame_too_large (length bytes) max_len) else ok bytes

  -- `try_fold` with `checked_add`, from a total.
  unfoldable pub total_of : ℕ → List (List B) → Option ℕ
  total_of total [] = some total
  total_of total (segment ∷ segments) = elim (checked_add usize_max total (length segment)) [
    | none ↦ none
    | some sum ↦ total_of sum segments
  ]

  unfoldable pub from_segments :
      List (List B) → (maximum_segments : ℕ) → Result TransportError (SendFrame B)
  from_segments segments maximum_segments =
      if length segments == 0
      then err invalid_message
      else if ltb maximum_segments (length segments)
      then err (segment_limit_exceeded (length segments) maximum_segments)
      else elim (total_of 0 segments) [
        | none ↦ err invalid_message
        | some total ↦
            if total == 0
            then err invalid_message
            else if ltb u32_max total
            then err (frame_too_large total u32_max)
            else ok (record { segments = segments; total_len = total })
      ]

  -- The bytes of the segments together.
  abbrev pub bytes_in : List (List B) → ℕ
  bytes_in [] = 0
  bytes_in (segment ∷ segments) = length segment + bytes_in segments

  total_of_fits :
      (total : ℕ) (segments : List (List B))
      → total + bytes_in segments ≤ usize_max
      → total_of total segments ≡ some (total + bytes_in segments)
  unfolding total_of
  total_of_fits total [] h = ground arith
  total_of_fits total (segment ∷ segments) h =
      ground (arith, total_of_fits (total + length segment) segments (omega arith))

  total_of_sums :
      (total : ℕ) (segments : List (List B)) (sum : ℕ)
      → total_of total segments ≡ some sum
      → sum ≡ total + bytes_in segments
  unfolding total_of
  total_of_sums total [] sum h = ground arith
  total_of_sums total (segment ∷ segments) sum h =
      elim (Option-cases (checked_add usize_max total (length segment))) [
        | inl none_left ↦ absurd (ground arith)
        | inr (next, e) ↦
            let ih = total_of_sums next segments sum (ground arith) in ground (arith, ih, e)
      ]

  -- A frame is made exactly when there are segments, no more than the maximum, and their bytes, at
  -- least one, fit a `u32`; the frame has the segments unchanged and their total length.
  pub from_segments_iff :
      (segments : List (List B)) (maximum_segments : ℕ) (frame : SendFrame B)
      → (from_segments segments maximum_segments ≡ ok frame) ↔ (
          (length segments ≤ maximum_segments)
          × (0 < bytes_in segments)
          × (bytes_in segments ≤ u32_max)
          × (frame.segments ≡ segments)
          × (frame.total_len ≡ bytes_in segments))
  unfolding from_segments
  from_segments_iff [] maximum_segments frame = ground arith
  from_segments_iff (segment ∷ segments) maximum_segments frame = (
    λ h. elim (Option-cases (total_of 0 (segment ∷ segments))) [
      | inl e ↦ absurd (ground arith)
      | inr (total, e) ↦
          let sums = total_of_sums 0 (segment ∷ segments) total e in ground (arith, e, sums)
    ],
    λ h. let fits = total_of_fits 0 (segment ∷ segments) (omega arith) in ground (arith, h, fits),
  )
