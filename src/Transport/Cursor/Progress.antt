-- ===== src/Transport/Cursor/Progress.antt =====
-- What the cursor of crates/smb-transport/src/iovec.rs has still to write.
use smb_rs.Prelude.{
  ℕ, suc, ◌+◌, ◌-◌, ◌≤◌, ◌≡◌, refl, sym, ap, subst, ◌∙◌, min, inl, inr, some, List, [], ◌∷◌, ◌++◌,
  ◌==◌, ok, arith, length, length-append, Bool-cases, drop, drop-append, drop_nil, drop_add,
  length-drop, drop-min, drop_past, drop_inside,
}
use smb_rs.Transport.Frame.{bytes_in}
use smb_rs.Transport.Cursor.{SendCursor, segments_left, remaining, consume, try_advance}

module _ {B : Type 0} where
  abbrev pub concat : List (List B) → List B
  concat [] = []
  concat (segment ∷ segments) = segment ++ concat segments

  -- The bytes of the segments that are still to be sent, from a position in the first.
  abbrev pub unsent : List (List B) → (segment_pos : ℕ) → List B
  unsent [] segment_pos = []
  unsent (segment ∷ segments) segment_pos = drop segment_pos segment ++ concat segments

  -- The position lies in the first segment.
  abbrev pub IsWithin : List (List B) → (segment_pos : ℕ) → Type 0
  IsWithin [] segment_pos = segment_pos ≡ 0
  IsWithin (segment ∷ segments) segment_pos = segment_pos ≤ length segment

  -- Header and segments together.
  abbrev pub unwritten : SendCursor B → List B
  unwritten c = drop c.header_pos c.header ++ unsent (drop c.segment_index c.segments) c.segment_pos

  abbrev pub IsPlaced : SendCursor B → Type 0
  IsPlaced c =
      (c.header_pos ≤ length c.header) × IsWithin (drop c.segment_index c.segments) c.segment_pos

  length-concat : (segments : List (List B)) → length (concat segments) ≡ bytes_in segments
  length-concat [] = refl
  length-concat (segment ∷ segments) =
      omega (arith, length-append segment (concat segments), length-concat segments)

  length-unsent :
      (segments : List (List B)) (pos : ℕ)
      → length (unsent segments pos) ≡ segments_left segments pos
  length-unsent [] pos = refl
  length-unsent (segment ∷ segments) pos = omega (
    arith,
    length-append (drop pos segment) (concat segments),
    length-drop pos segment,
    length-concat segments,
  )

  unsent_start : (segments : List (List B)) → unsent segments 0 ≡ concat segments
  unsent_start [] = refl
  unsent_start (segment ∷ segments) = refl

  IsWithin-start : (segments : List (List B)) → IsWithin segments 0
  IsWithin-start [] = refl
  IsWithin-start (segment ∷ segments) = omega arith

  left_start : (segments : List (List B)) → segments_left segments 0 ≡ bytes_in segments
  left_start [] = refl
  left_start (segment ∷ segments) = omega arith

  -- A count that reaches into the segments behind the first.
  unsent_past :
      (segment : List B) (segments : List (List B)) (pos count : ℕ)
      → length segment - pos ≤ count
      → drop (count - (length segment - pos)) (concat segments)
        ≡ drop count (unsent (segment ∷ segments) pos)
  unsent_past segment segments pos count h =
      let size = length-drop pos segment in
      sym (
        drop_past count (drop pos segment) (concat segments) (omega (arith, size))
        ∙ ap (λ (n : ℕ). drop (count - n) (concat segments)) size)

  -- The result of the loop: the segments passed, and where in the next one it stands.
  record Consumed (segments : List (List B)) (index pos count : ℕ) : Type 0 where
    passed : ℕ
    stands : ℕ
    answer : consume segments index pos count ≡ some (index + passed, stands)
    left : unsent (drop passed segments) stands ≡ drop count (unsent segments pos)
    within : IsWithin (drop passed segments) stands

  consume-Consumed :
      (segments : List (List B)) (index pos count : ℕ)
      → IsWithin segments pos
      → count ≤ segments_left segments pos
      → Consumed segments index pos count
  unfolding consume
  consume-Consumed [] index pos count w h = record {
    passed = 0;
    stands = pos;
    answer = ground arith;
    left = sym (drop_nil count);
    within = w;
  }
  consume-Consumed (segment ∷ segments) index pos count w h = elim (Bool-cases (count == 0)) [
    | inl none_asked ↦ record {
      passed = 0;
      stands = pos;
      answer = ground arith;
      left = let zero_asked : count ≡ 0 = ground arith in rw zero_asked refl;
      within = w;
    }
    | inr asked ↦ elim (Bool-cases (pos + min count (length segment - pos) == length segment)) [
      | inl finished ↦
          let consumed = min count (length segment - pos) in
          let ih =
            consume-Consumed segments (suc index) 0 (count - consumed) (IsWithin-start segments)
              (ground (arith, left_start segments)) in
          record {
            passed = suc (ih.passed);
            stands = ih.stands;
            answer = ground (arith, ih.answer);
            left =
                let whole : consumed ≡ length segment - pos = ground arith in
                ih.left
                ∙ ap (drop (count - consumed)) (unsent_start segments)
                ∙ ap (λ (n : ℕ). drop (count - n) (concat segments)) whole
                ∙ unsent_past segment segments pos count (ground arith);
            within = ih.within;
          }
      | inr partial ↦ record {
        passed = 0;
        stands = pos + count;
        answer = ground arith;
        left = sym (
            drop_inside count (drop pos segment) (concat segments)
              (ground (arith, length-drop pos segment))
            ∙ ap (λ (xs : List B). xs ++ concat segments) (drop_add pos count segment));
        within = ground arith;
      }
    ]
  ]

  -- A count that takes from the header first and then from the rest.
  sent_front :
      (header rest : List B) (pos count : ℕ)
      → drop (pos + min count (length header - pos)) header
          ++ drop (count - min count (length header - pos)) rest
        ≡ drop count (drop pos header ++ rest)
  sent_front header rest pos count =
      let size = length-drop pos header in
      let taken : min count (length header - pos) ≡ min count (length (drop pos header)) =
        omega (arith, size) in
      let behind : count - min count (length header - pos) ≡ count - length (drop pos header) =
        omega (arith, size) in
      ap (λ (xs : List B). xs ++ drop (count - min count (length header - pos)) rest)
        (sym (drop_add pos (min count (length header - pos)) header)
          ∙ ap (λ (n : ℕ). drop n (drop pos header)) taken
          ∙ drop-min count (drop pos header))
      ∙ ap (λ (n : ℕ). drop count (drop pos header) ++ drop n rest) behind
      ∙ sym (drop-append count (drop pos header) rest)

  -- What `remaining` counts is what is still to be written.
  pub remaining-length : (c : SendCursor B) → remaining c ≡ length (unwritten c)
  unfolding remaining
  remaining-length c =
      let segments = drop c.segment_index c.segments in
      omega (
        arith,
        length-append (drop c.header_pos c.header) (unsent segments c.segment_pos),
        length-drop c.header_pos c.header,
        length-unsent segments c.segment_pos,
      )

  -- In a cursor whose positions lie within the header and the segment, an advance by no more than
  -- remains succeeds; what is still to be written loses exactly that many bytes at the front, and the
  -- positions lie within again.
  pub try_advance-unwritten :
      (c : SendCursor B) (count : ℕ)
      → IsPlaced c
      → count ≤ length (unwritten c)
      → (t : SendCursor B) × (try_advance c count ≡ ok t)
        × (unwritten t ≡ drop count (unwritten c))
        × IsPlaced t
  unfolding try_advance remaining
  try_advance-unwritten c count (in_header, within) h =
      let header_left = length c.header - c.header_pos in
      let header_count = min count header_left in
      let segments = drop c.segment_index c.segments in
      let loop =
        consume-Consumed segments c.segment_index c.segment_pos (count - header_count) within
          (let size = remaining-length c in omega (arith, h, size)) in
      (
        record c {
          header_pos = c.header_pos + header_count;
          segment_index = c.segment_index + loop.passed;
          segment_pos = loop.stands;
        },
        ground (arith, loop.answer, remaining-length c, h),
        ap (λ (zs : List B). drop (c.header_pos + header_count) c.header ++ zs)
              (ap (λ (ss : List (List B)). unsent ss loop.stands)
                  (sym (drop_add c.segment_index loop.passed c.segments))
                ∙ loop.left)
            ∙ sent_front c.header (unsent segments c.segment_pos) c.header_pos count,
        (
          omega arith,
          subst (λ (s : List (List B)). IsWithin s loop.stands)
              (drop_add c.segment_index loop.passed c.segments) loop.within,
        ),
      )
