-- ===== src/WireRange.antt =====
-- crates/smb-msg/src/wire_range.rs: byte ranges that a decoded message names, checked against the
-- member that holds them. `usize` sums are checked; the field's name, which only the error prints, is
-- left out.
use smb_rs.Prelude.{
  ℕ, ◌+◌, ◌-◌, ◌≤◌, ◌%◌, ◌≡◌, ◌↔◌, Bool, false, not, ◌||◌, none, some, if◌then◌else◌, ltb, ◌==◌,
  checked_add, usize_max, Result, ok, err, arith,
}

pub record WireRange : Type 0 where
  pub start : ℕ
  pub end : ℕ

pub data WireError : Type 0 where
  invalid_wire_range : (offset length : ℕ) → WireError

abbrev pub is_multiple_of : ℕ → ℕ → Bool
is_multiple_of a b = a % b == 0

unfoldable pub validate :
    (offset length member_len minimum_offset alignment : ℕ) → Result WireError WireRange
validate offset length member_len minimum_offset alignment =
    if ltb offset minimum_offset || (alignment == 0 || not (is_multiple_of offset alignment))
    then err (invalid_wire_range offset length)
    else elim (checked_add usize_max offset length) [
      | none ↦ err (invalid_wire_range offset length)
      | some end ↦
          if ltb member_len end
          then err (invalid_wire_range offset length)
          else ok (record { start = offset; end = end })
    ]

unfoldable pub length_of : WireRange → ℕ
length_of range = range.end - range.start

unfoldable pub is_empty : WireRange → Bool
is_empty range = range.start == range.end

-- For a member whose length is a `usize`, a range is given out exactly when its offset is at or past
-- the minimum and aligned, the alignment is positive and the member holds the whole range; it then
-- starts at the offset and has the length asked for.
pub validate_iff :
    (offset length member_len minimum_offset alignment : ℕ) (range : WireRange)
    → member_len ≤ usize_max
    → (validate offset length member_len minimum_offset alignment ≡ ok range) ↔ (
        (minimum_offset ≤ offset)
        × ((alignment == 0) ≡ false)
        × (offset % alignment ≡ 0)
        × (offset + length ≤ member_len)
        × (range.start ≡ offset)
        × (length_of range ≡ length)
        × (range.start ≤ range.end))
unfolding validate length_of
validate_iff offset length member_len minimum_offset alignment range fits = ground arith
