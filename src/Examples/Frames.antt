-- ===== src/Examples/Frames.antt =====
-- Frames, ranges and a cursor in the middle of a frame, for the theorems on crates/smb-transport and
-- crates/smb-msg/src/wire_range.rs.
use smb_rs.Prelude.{
  ℕ, ◌+◌, ◌≤◌, ◌<◌, ◌%◌, ◌≡◌, ◌==◌, ◌↔◌, false, [], ◌∷◌, arith, length, ok, u32_max,
}
use smb_rs.WireRange.{WireRange, validate, length_of, validate_iff}
use smb_rs.Transport.Frame.{SendFrame, from_segments, bytes_in, from_segments_iff}
use smb_rs.Transport.Cursor.{SendCursor, try_advance}
use smb_rs.Transport.Cursor.Progress.{unwritten, IsPlaced, try_advance-unwritten}

-- Two bytes of the header and the first segment's first byte are written.
abbrev half_way : SendCursor ℕ
half_way = record {
  header = 0 ∷ 0 ∷ 0 ∷ 3 ∷ [];
  header_pos = 2;
  segments = (7 ∷ 8 ∷ []) ∷ [] ∷ (9 ∷ []) ∷ [];
  segment_index = 0;
  segment_pos = 1;
}

half_way-IsPlaced : IsPlaced half_way
half_way-IsPlaced = (omega arith, omega arith)

try_advance-unwritten_example :
    (t : SendCursor ℕ) × (try_advance half_way 3 ≡ ok t) × (unwritten t ≡ 9 ∷ []) × IsPlaced t
try_advance-unwritten_example = try_advance-unwritten half_way 3 half_way-IsPlaced (omega arith)

abbrev frame : SendFrame ℕ
frame = record { segments = (7 ∷ 8 ∷ []) ∷ (9 ∷ []) ∷ []; total_len = 3 }

from_segments_iff_example : (from_segments frame.segments 2 ≡ ok frame) ↔ (
    (length frame.segments ≤ 2)
    × (0 < bytes_in frame.segments)
    × (bytes_in frame.segments ≤ u32_max)
    × (frame.segments ≡ frame.segments)
    × (frame.total_len ≡ bytes_in frame.segments))
from_segments_iff_example = from_segments_iff frame.segments 2 frame

abbrev tail : WireRange
tail = record { start = 8; end = 16 }

validate_iff_example : (validate 8 8 16 8 1 ≡ ok tail) ↔ (
    (◌≤◌ 8 8)
    × ((1 == 0) ≡ false)
    × (8 % 1 ≡ 0)
    × (8 + 8 ≤ 16)
    × (tail.start ≡ 8)
    × (length_of tail ≡ 8)
    × (tail.start ≤ tail.end))
validate_iff_example = validate_iff 8 8 16 8 1 tail (omega arith)
