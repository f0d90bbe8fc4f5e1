-- ===== src/Compression/Restores.antt =====
-- crates/smb/src/compression.rs: an item of a chained message gives back what it was made from.
use mathlib.Core.List.{append-nil}
use smb_rs.Prelude.{
  ℕ, ◌+◌, ◌-◌, ◌*◌, ◌/◌, ◌%◌, ◌^◌, ◌≤◌, ◌<◌, ◌≡◌, refl, sym, ap, subst, ◌∙◌, true, false, some,
  List, [], ◌∷◌, ◌++◌, ◌==◌, ltb, usize_max, ok, ok-injective, length, length-append, arith,
  Option-cases, Bool-cases, Result-cases, inl, inr,
}
use smb_rs.Compression.{Buffer, CompressionAlgorithm, contains, Lz4, CompressedChainedItem}
use smb_rs.Compression.Algorithms.{
  u32_of, replicate, write_payload, all_equal, decompress_none, decompress_pattern,
  compress_pattern, decompress_lz4, decompress_by, compress_by,
}
use smb_rs.Compression.Chained.{
  algorithm_priority, fits_item, plain_item, sized_item, decompress_items, shorter_item,
  fallback_item, remaining_items,
}

-- The library gives back what it compressed, in a buffer of the size that it had.
abbrev pub IsInverse : Lz4 → Type 0
IsInverse lz4 =
    (bytes : Buffer) → lz4.decompress_into (lz4.compress bytes) (length bytes) ≡ some bytes

abbrev pub IsSmall : Buffer → Type 0
IsSmall bytes = length bytes < 2 ^ 32

replicate-all_equal :
    (p : ℕ) (bytes : Buffer) → all_equal p bytes ≡ true → replicate (length bytes) p ≡ bytes
unfolding replicate all_equal
replicate-all_equal p [] h = refl
replicate-all_equal p (b ∷ bytes) h = ground (arith, replicate-all_equal p bytes)

bytes_joined :
    (n : ℕ)
    → n < 2 ^ 32
    → n % 256 + n / 256 % 256 * 256 + n / 65536 % 256 * 65536 + n / 16777216 % 256 * 16777216 ≡ n
bytes_joined n h = omega arith

pub ltb_not : (n m : ℕ) → m ≤ n → ltb n m ≡ false
ltb_not n m h = ground arith

pub ==_same : (n : ℕ) → (n == n) ≡ true
==_same n = ground arith

module _ (lz4 : Lz4) (inverse : IsInverse lz4) where
  -- The item adds these bytes to any output that has room for them.
  abbrev pub Restores : CompressedChainedItem → Buffer → Type 0
  Restores item added =
      (out : Buffer)
      → length out + length added ≤ usize_max
      → (decompress_by lz4 item.compression_algorithm item.payload_data item.original_size out
          ≡ ok (out ++ added))
        × (fits_item item.original_size (length added) ≡ true)

  pub plain_item-Restores : (flags : ℕ) (bytes : Buffer) → Restores (plain_item flags bytes) bytes
  unfolding decompress_by decompress_none
  plain_item-Restores flags bytes out room = (refl, refl)

  pattern-Restores :
      (bytes compressed : Buffer)
      → IsSmall bytes
      → compress_pattern bytes ≡ ok compressed
      → Restores (sized_item CompressionAlgorithm.pattern_v1 (length bytes) compressed) bytes
  unfolding decompress_by decompress_pattern compress_pattern
  pattern-Restores [] compressed small h out room = absurd (ground arith)
  pattern-Restores (p ∷ rest) compressed small h out room =
      elim (Bool-cases (all_equal p (p ∷ rest))) [
        | inr other ↦ absurd (ground (arith, other, h))
        | inl equal ↦
            let is : write_payload p (u32_of (length (p ∷ rest))) ≡ compressed =
              ground (arith, equal, h) in
            let whole : u32_of (length (p ∷ rest)) ≡ length (p ∷ rest) = omega (arith, small) in
            rw
              (
                ← is,
                whole,
                bytes_joined (length (p ∷ rest)) small,
                replicate-all_equal p (p ∷ rest) equal,
              )
              (refl, refl)
      ]

  decompress_lz4_ok :
      (compressed out written : Buffer)
      → lz4.decompress_into compressed (length written) ≡ some written
      → length out + length written ≤ usize_max
      → decompress_lz4 lz4 compressed (some (length written)) out ≡ ok (out ++ written)
  unfolding decompress_lz4
  decompress_lz4_ok compressed out written h room = ground (arith, h, room)

  pub lz4-Restores :
      (bytes : Buffer)
      → IsSmall bytes
      → Restores (sized_item CompressionAlgorithm.lz4 (length bytes) (lz4.compress bytes)) bytes
  unfolding decompress_by
  lz4-Restores bytes small out room =
      let whole : u32_of (length bytes) ≡ length bytes = omega (arith, small) in
      rw whole (decompress_lz4_ok (lz4.compress bytes) out bytes (inverse bytes) room, ground arith)

  -- What an algorithm makes of some bytes restores them.
  compress_by-Restores :
      (a : CompressionAlgorithm) (bytes compressed : Buffer)
      → IsSmall bytes
      → compress_by lz4 a bytes ≡ ok compressed
      → Restores (sized_item a (length bytes) compressed) bytes
  unfolding compress_by
  compress_by-Restores CompressionAlgorithm.none bytes compressed small h =
      subst (λ (c : Buffer). Restores (sized_item CompressionAlgorithm.none (length bytes) c) bytes)
        (ok-injective h) (plain_item-Restores 0 bytes)
  compress_by-Restores CompressionAlgorithm.lznt1 bytes compressed small h = cc
  compress_by-Restores CompressionAlgorithm.lz77 bytes compressed small h = cc
  compress_by-Restores CompressionAlgorithm.lz77_huffman bytes compressed small h = cc
  compress_by-Restores CompressionAlgorithm.pattern_v1 bytes compressed small h =
      pattern-Restores bytes compressed small h
  compress_by-Restores CompressionAlgorithm.lz4 bytes compressed small h =
      subst (λ (c : Buffer). Restores (sized_item CompressionAlgorithm.lz4 (length bytes) c) bytes)
        (ok-injective h) (lz4-Restores bytes small)

  shorter_item-Restores :
      (priority allowed : List CompressionAlgorithm) (bytes : Buffer) (item : CompressedChainedItem)
      → IsSmall bytes
      → shorter_item lz4 priority allowed bytes ≡ some item
      → Restores item bytes
  unfolding shorter_item
  shorter_item-Restores [] allowed bytes item small h = absurd (ground (arith, h))
  shorter_item-Restores (a ∷ priority) allowed bytes item small h =
      let rest = shorter_item-Restores priority allowed bytes item small in
      elim (Bool-cases (contains allowed a)) [
        | inr other ↦ rest (rw other at h)
        | inl able ↦ elim (Result-cases (compress_by lz4 a bytes)) [
          | inr (inl (e, failed)) ↦ rest (rw failed at (rw able at h))
          | inr (inr failed) ↦ rest (rw failed at (rw able at h))
          | inl (compressed, made) ↦
              let h' = rw made at (rw able at h) in
              elim (Bool-cases (ltb (length compressed) (length bytes))) [
                | inr longer ↦ rest (rw longer at h')
                | inl shorter ↦
                    let is : sized_item a (length bytes) compressed ≡ item =
                      ground (arith, shorter, h') in
                    subst (λ (i : CompressedChainedItem). Restores i bytes) is
                      (compress_by-Restores a bytes compressed small made)
              ]
        ]
      ]

  fallback_item-Restores :
      (allowed : List CompressionAlgorithm) (bytes : Buffer)
      → IsSmall bytes
      → Restores (fallback_item lz4 allowed bytes) bytes
  unfolding fallback_item
  fallback_item-Restores allowed bytes small =
      elim (Bool-cases (contains allowed CompressionAlgorithm.pattern_v1)) [
        | inr other ↦ rw other (plain_item-Restores 0 bytes)
        | inl able ↦ elim (Result-cases (compress_by lz4 CompressionAlgorithm.pattern_v1 bytes)) [
          | inr (inl (e, failed)) ↦ rw (able, failed) (plain_item-Restores 0 bytes)
          | inr (inr failed) ↦ rw (able, failed) (plain_item-Restores 0 bytes)
          | inl (compressed, made) ↦
              rw (able, made)
                (compress_by-Restores CompressionAlgorithm.pattern_v1 bytes compressed small made)
        ]
      ]

  -- One item in the loop of the decompressor.
  pub decompress_one :
      (total : ℕ) (item : CompressedChainedItem) (items : List CompressedChainedItem)
      (added out : Buffer)
      → Restores item added
      → length out + length added ≤ total
      → total ≤ usize_max
      → decompress_items lz4 total (item ∷ items) out
        ≡ decompress_items lz4 total items (out ++ added)
  unfolding decompress_items
  decompress_one total item items added out restores room fits =
      let (gives, sized) = restores out (omega arith) in
      let size = length-append out added in
      let grown : length (out ++ added) - length out ≡ length added = omega (arith, size) in
      rw gives (rw (grown, sized) (ground (arith, size)))

  decompress_single :
      (total : ℕ) (item : CompressedChainedItem) (added out : Buffer)
      → Restores item added
      → length out + length added ≤ total
      → total ≤ usize_max
      → decompress_items lz4 total (item ∷ []) out ≡ ok (out ++ added)
  decompress_single total item added out restores room fits =
      decompress_one total item [] added out restores room fits ∙ unfold decompress_items in refl

  pub decompress_remaining :
      (total : ℕ) (allowed : List CompressionAlgorithm) (bytes out : Buffer)
      → length out + length bytes ≤ total
      → total < 2 ^ 32
      → decompress_items lz4 total (remaining_items lz4 allowed bytes) out ≡ ok (out ++ bytes)
  decompress_remaining total allowed [] out room small =
      unfold decompress_items in ap ok (sym (append-nil out))
  decompress_remaining total allowed (b ∷ bytes) out room small =
      elim (Option-cases (shorter_item lz4 algorithm_priority allowed (b ∷ bytes))) [
        | inr (item, found) ↦
            rw (found, remaining_items)
              (decompress_single total item (b ∷ bytes) out
                (shorter_item-Restores algorithm_priority allowed (b ∷ bytes) item (omega arith)
                  found)
                room (omega arith))
        | inl not_found ↦
            rw (not_found, remaining_items)
              (decompress_single total (fallback_item lz4 allowed (b ∷ bytes)) (b ∷ bytes) out
                (fallback_item-Restores allowed (b ∷ bytes) (omega arith)) room (omega arith))
      ]
