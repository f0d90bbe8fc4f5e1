-- ===== src/Compression/RoundTrip.antt =====
-- Compressing and decompressing, crates/smb/src/compression.rs.
use mathlib.Core.Option
use smb_rs.Prelude.{
  take, drop, take-append-drop, ◌+◌, ◌≤◌, ◌≡◌, refl, sym, ap, ◌∙◌, true, false, some, [], ◌∷◌, ◌⊎◌,
  ok, length, length-append, arith, Bool-cases, inl, inr,
}
use smb_rs.Compression.{
  Buffer, CompressionAlgorithm, contains, CompressedMessage, unchained, chained,
  CompressionCapabilities, Lz4, default_max_frame_size, header_size,
}
use smb_rs.Compression.Algorithms.{u32_of, compress_by}
use smb_rs.Compression.Chained.{
  announced, plain_item, decompress_unchained, decompress_items, decompress_chained,
  compress_unchained_by, compress_unchained, remaining_items, compress_chained, compress,
  decompress_message, decompress,
}
use smb_rs.Compression.Restores.{
  IsInverse, IsSmall, ltb_not, ==_same, decompress_one, decompress_remaining, plain_item-Restores,
  lz4-Restores,
}

module _ (lz4 : Lz4) (inverse : IsInverse lz4) where
  -- The message that holds some bytes.
  Holds : CompressionCapabilities → Buffer → Type 0
  Holds caps bytes =
      (m : CompressedMessage) × (compress lz4 caps bytes ≡ ok m)
      × (announced m ≡ length bytes)
      × (decompress_message lz4 caps m ≡ ok bytes)

  chained-Holds :
      (caps : CompressionCapabilities) (bytes : Buffer)
      → caps.chained ≡ true
      → header_size ≤ length bytes
      → IsSmall bytes
      → Holds caps bytes
  unfolding Holds compress compress_chained decompress_message decompress_chained
  chained-Holds caps bytes able large small =
      let allowed = caps.compression_algorithms in
      let first = take header_size bytes in
      let behind = drop header_size bytes in
      let whole : u32_of (length bytes) ≡ length bytes = omega (arith, small) in
      let joined = take-append-drop header_size bytes in
      let size : length first + length behind ≡ length bytes =
        sym (length-append first behind) ∙ ap length joined in
      let items = plain_item 1 first ∷ remaining_items lz4 allowed behind in
      let restored : decompress_items lz4 (length bytes) items [] ≡ ok bytes =
        decompress_one lz4 inverse (length bytes) (plain_item 1 first)
          (remaining_items lz4 allowed behind) first [] (plain_item-Restores lz4 inverse 1 first)
          (omega (arith, size)) (omega (arith, small))
        ∙ decompress_remaining lz4 inverse (length bytes) allowed behind first (omega (arith, size))
            small
        ∙ ap ok joined in
      (
        chained (record { original_size = u32_of (length bytes); items = items }),
        rw (able, ltb_not (length bytes) header_size large),
        whole,
        rw (
          able,
          whole,
          restored,
          ltb_not (length bytes) header_size large,
          ==_same (length bytes),
        ),
      )

  unchained-Holds :
      (caps : CompressionCapabilities) (bytes : Buffer)
      → caps.chained ≡ false
      → contains caps.compression_algorithms CompressionAlgorithm.lz4 ≡ true
      → IsSmall bytes
      → Holds caps bytes
  unfolding Holds compress compress_unchained compress_unchained_by compress_by decompress_message
      decompress_unchained
  unchained-Holds caps bytes unable allowed small =
      let whole : u32_of (length bytes) ≡ length bytes = omega (arith, small) in
      let restored = lz4-Restores lz4 inverse bytes small [] (omega (arith, small)) in
      (
        unchained (record {
          original_size = u32_of (length bytes);
          compression_algorithm = CompressionAlgorithm.lz4;
          payload = lz4.compress bytes;
        }),
        rw (unable, allowed) refl,
        whole,
        rw restored.0 (ground (arith, whole)),
      )

  compress-Holds :
      (caps : CompressionCapabilities) (bytes : Buffer)
      → header_size ≤ length bytes
      → IsSmall bytes
      → (caps.chained ≡ true)
        ⊎ (contains caps.compression_algorithms CompressionAlgorithm.lz4 ≡ true)
      → Holds caps bytes
  compress-Holds caps bytes large small (inl able) = chained-Holds caps bytes able large small
  compress-Holds caps bytes large small (inr allowed) = elim (Bool-cases caps.chained) [
    | inl able ↦ chained-Holds caps bytes able large small
    | inr unable ↦ unchained-Holds caps bytes unable allowed small
  ]

  -- Where the LZ4 library gives back what it compressed, a message from the size of a header up to
  -- the largest frame is compressed and comes back as it was, in the chained method whatever algorithms
  -- are allowed, in the unchained one if LZ4 is.
  pub decompress-compress :
      {R : Type 0} (read_response : Buffer → Option.Option R) (caps : CompressionCapabilities)
      (bytes : Buffer) (response : R)
      → header_size ≤ length bytes
      → length bytes ≤ default_max_frame_size
      → (caps.chained ≡ true)
        ⊎ (contains caps.compression_algorithms CompressionAlgorithm.lz4 ≡ true)
      → read_response bytes ≡ some response
      → (m : CompressedMessage) × (compress lz4 caps bytes ≡ ok m)
        × (decompress lz4 read_response caps m ≡ ok (response, bytes))
  unfolding decompress Holds
  decompress-compress read_response caps bytes response large fits able parses =
      let (m, made, size, back) = compress-Holds caps bytes large (omega (arith, fits)) able in
      (m, made, rw back (ground (arith, parses, size, fits)))
