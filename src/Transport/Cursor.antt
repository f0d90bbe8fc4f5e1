-- ===== src/Transport/Cursor.antt =====
-- crates/smb-transport/src/iovec.rs, `SendCursor`: how far a frame and its header have been written.
-- The header's bytes are those that the framing writes, a parameter here.
pub mod Progress
use smb_rs.Prelude.{
  ℕ, zero, suc, ◌+◌, ◌-◌, ◌≤◌, ◌<◌, ◌≡◌, refl, sym, ap, ◌∙◌, min, Bool, true, false, Option, none,
  some, List, [], ◌∷◌, ◌++◌, if◌then◌else◌, ltb, ◌==◌, Result, ok, err, stuck, arith, length,
  length-append, drop,
}
use smb_rs.Transport.Frame.{TransportError, cursor_advance_out_of_bounds, bytes_in}

pub record SendCursor (B : Type 0) : Type 0 where
  pub header : List B
  pub header_pos : ℕ
  pub segments : List (List B)
  pub segment_index : ℕ
  pub segment_pos : ℕ

module _ {B : Type 0} where
  -- The bytes of the segments from one on, of which the first has been sent up to a position.
  abbrev pub segments_left : List (List B) → (segment_pos : ℕ) → ℕ
  segments_left [] segment_pos = 0
  segments_left (segment ∷ segments) segment_pos =
      (length segment - segment_pos) + bytes_in segments

  -- `Buf::remaining`
  unfoldable pub remaining : SendCursor B → ℕ
  remaining c =
      (length c.header - c.header_pos)
      + segments_left (drop c.segment_index c.segments) c.segment_pos

  -- The loop of `try_advance` over the segments from the index on. An index past the last segment
  -- panics, `none`. Where a segment is not finished, the count is used up.
  unfoldable pub consume : List (List B) → (segment_index segment_pos count : ℕ) → Option (ℕ × ℕ)
  consume [] index pos count = if count == 0 then some (index, pos) else none
  consume (segment ∷ segments) index pos count =
      let consumed = min count (length segment - pos) in
      let rest = consume segments (suc index) 0 (count - consumed) in
      if count == 0
      then some (index, pos)
      else if pos + consumed == length segment
      then rest
      else some (index, pos + consumed)

  unfoldable pub try_advance : SendCursor B → ℕ → Result TransportError (SendCursor B)
  try_advance c count =
      let header_count = min count (length c.header - c.header_pos) in
      if ltb (remaining c) count
      then err (cursor_advance_out_of_bounds count (remaining c))
      else elim (consume (drop c.segment_index c.segments) c.segment_index c.segment_pos
          (count - header_count)) [
            | none ↦ stuck
            | some (index, pos) ↦ ok (record c {
              header_pos = c.header_pos + header_count;
              segment_index = index;
              segment_pos = pos;
            })
          ]
