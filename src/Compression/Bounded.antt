-- ===== src/Compression/Bounded.antt =====
-- What crates/smb/src/compression.rs lets out of a received message, however it is made.
use mathlib.Core.Option
use smb_rs.Prelude.{
  ◌≤◌, ◌≡◌, subst, some, [], ltb, ok, >>=-ok, length, arith, Option-cases, Bool-cases, inl, inr,
}
use smb_rs.Compression.{
  Buffer, CompressedMessage, unchained, chained, CompressionCapabilities, Lz4,
  default_max_frame_size, CompressedUnchainedMessage, CompressedChainedMessage,
}
use smb_rs.Compression.Algorithms.{decompress_by}
use smb_rs.Compression.Chained.{
  announced, decompress_unchained, decompress_items, decompress_chained, decompress_message,
  decompress,
}

module _ (lz4 : Lz4) where
  length-decompress_unchained :
      (m : CompressedUnchainedMessage) (bytes : Buffer)
      → decompress_unchained lz4 m ≡ ok bytes
      → length bytes ≡ m.original_size
  unfolding decompress_unchained
  length-decompress_unchained m bytes h =
      let (found, _, checked) =
        >>=-ok (decompress_by lz4 m.compression_algorithm m.payload (some m.original_size) []) _
          h in
      ground (arith, checked)

  length-decompress_chained :
      (m : CompressedChainedMessage) (bytes : Buffer)
      → decompress_chained lz4 m ≡ ok bytes
      → length bytes ≡ m.original_size
  unfolding decompress_chained
  length-decompress_chained m bytes h = elim (Bool-cases (ltb m.original_size 64)) [
    | inl small ↦ absurd (ground (arith, small, h))
    | inr large ↦
        let (found, _, checked) =
          >>=-ok (decompress_items lz4 m.original_size m.items []) _ (rw large at h) in
        ground (arith, checked)
  ]

  length-decompress_message :
      (caps : CompressionCapabilities) (m : CompressedMessage) (bytes : Buffer)
      → decompress_message lz4 caps m ≡ ok bytes
      → length bytes ≡ announced m
  unfolding decompress_message
  length-decompress_message caps (unchained m) bytes h = length-decompress_unchained m bytes h
  length-decompress_message caps (chained m) bytes h = elim (Bool-cases caps.chained) [
    | inl able ↦ length-decompress_chained m bytes (rw able at h)
    | inr unable ↦ absurd (ground (arith, unable, h))
  ]

  -- Whatever the LZ4 library and the response parser do, a message that is decompressed gives exactly
  -- as many bytes as it announced, and no more than the largest frame.
  pub decompress_bounded :
      {R : Type 0} (read_response : Buffer → Option.Option R) (caps : CompressionCapabilities)
      (m : CompressedMessage) (response : R) (bytes : Buffer)
      → decompress lz4 read_response caps m ≡ ok (response, bytes)
      → (length bytes ≡ announced m) × (length bytes ≤ default_max_frame_size)
  unfolding decompress
  decompress_bounded read_response caps m response bytes h =
      elim (Bool-cases (ltb default_max_frame_size (announced m))) [
        | inl large ↦ absurd (ground (arith, large, h))
        | inr small ↦
            let (found, gave, parsed) = >>=-ok (decompress_message lz4 caps m) _ (rw small at h) in
            let size = length-decompress_message caps m found gave in
            elim (Option-cases (read_response found)) [
              | inl unread ↦ absurd (ground (arith, unread, parsed))
              | inr (r, read) ↦
                  let same : found ≡ bytes = ground (arith, read, parsed) in
                  subst
                    (λ (b : Buffer). (length b ≡ announced m) × (length b ≤ default_max_frame_size))
                    same (size, ground (arith, size, small))
            ]
      ]
