-- ===== src/Compression/Chained.antt =====
-- crates/smb/src/compression.rs: the unchained and the chained method, and the entry points.
use smb_rs.Prelude.{
  ℕ, ◌-◌, Bool, true, not, Option, some, List, [], ◌∷◌, if◌then◌else◌, ◌==◌, ltb, Result, ok, err,
  stuck, ◌>>=◌, length, take, drop,
}
use smb_rs.Compression.{
  Buffer, CompressionAlgorithm, original_size_required, contains, CompressionError,
  invalid_decompressed_message, invalid_compressed_message, exceeds_expected_size,
  item_size_mismatch, expected_size_mismatch, unsupported_compression_method,
  no_supported_compression_algorithm, decompressed_size_limit_exceeded, CompressedUnchainedMessage,
  CompressedChainedItem, CompressedChainedMessage, CompressedMessage, unchained, chained,
  CompressionCapabilities, Lz4, default_max_frame_size, header_size,
}
use smb_rs.Compression.Algorithms.{u32_of, decompress_by, compress_by}

abbrev pub announced : CompressedMessage → ℕ
announced (unchained m) = m.original_size
announced (chained m) = m.original_size

-- `UnchainedCompression::ALGORITHM_PRIORITY`
abbrev pub algorithm_priority : List CompressionAlgorithm
algorithm_priority = CompressionAlgorithm.lz4 ∷ []

-- The size of an item, where it has one, is that of what it added.
abbrev pub fits_item : Option ℕ → (added : ℕ) → Bool
fits_item Option.none added = true
fits_item (some size) added = added == size

abbrev pub plain_item : (flags : ℕ) → Buffer → CompressedChainedItem
plain_item flags bytes = record {
  compression_algorithm = CompressionAlgorithm.none;
  flags = flags;
  original_size = Option.none;
  payload_data = bytes;
}

abbrev pub sized_item : CompressionAlgorithm → ℕ → Buffer → CompressedChainedItem
sized_item a size compressed = record {
  compression_algorithm = a;
  flags = 0;
  original_size = if original_size_required a then some (u32_of size) else Option.none;
  payload_data = compressed;
}

module _ (lz4 : Lz4) where
  unfoldable pub decompress_unchained : CompressedUnchainedMessage → Result CompressionError Buffer
  decompress_unchained m =
      decompress_by lz4 m.compression_algorithm m.payload (some m.original_size) [] >>= λ bytes.
      if length bytes == m.original_size then ok bytes else err invalid_decompressed_message

  -- The loop over the items.
  unfoldable pub decompress_items :
      ℕ → List CompressedChainedItem → Buffer → Result CompressionError Buffer
  decompress_items original_size [] out = ok out
  decompress_items original_size (item ∷ items) out =
      decompress_by lz4 item.compression_algorithm item.payload_data item.original_size out
      >>= λ longer.
          let rest = decompress_items original_size items longer in
          if ltb original_size (length longer)
          then err exceeds_expected_size
          else if not (fits_item item.original_size (length longer - length out))
          then err item_size_mismatch
          else rest

  unfoldable pub decompress_chained : CompressedChainedMessage → Result CompressionError Buffer
  decompress_chained m =
      if ltb m.original_size header_size
      then err invalid_compressed_message
      else decompress_items m.original_size m.items [] >>= λ bytes.
          if length bytes == m.original_size then ok bytes else err expected_size_mismatch

  -- The loop over the priorities.
  unfoldable pub compress_unchained_by :
      List CompressionAlgorithm
      → List CompressionAlgorithm
      → Buffer
      → Result CompressionError CompressedMessage
  compress_unchained_by [] allowed bytes = err no_supported_compression_algorithm
  compress_unchained_by (a ∷ priority) allowed bytes =
      let rest = compress_unchained_by priority allowed bytes in
      if not (contains allowed a)
      then rest
      else compress_by lz4 a bytes >>= λ compressed. ok (
          unchained (record {
            original_size = u32_of (length bytes);
            compression_algorithm = a;
            payload = compressed;
          }))

  unfoldable pub compress_unchained :
      Buffer → List CompressionAlgorithm → Result CompressionError CompressedMessage
  unfolding compress_unchained_by
  compress_unchained bytes allowed = compress_unchained_by algorithm_priority allowed bytes

  -- The first algorithm by priority that saves space.
  unfoldable pub shorter_item :
      List CompressionAlgorithm → List CompressionAlgorithm → Buffer → Option CompressedChainedItem
  shorter_item [] allowed remaining = Option.none
  shorter_item (a ∷ priority) allowed remaining =
      let rest = shorter_item priority allowed remaining in
      if contains allowed a
      then elim (compress_by lz4 a remaining) [
        | ok compressed ↦
            if ltb (length compressed) (length remaining)
            then some (sized_item a (length remaining) compressed)
            else rest
        | err e ↦ rest
        | stuck ↦ rest
      ]
      else rest

  -- Pattern_V1 where it is allowed and the bytes are all one, else the bytes as they are.
  unfoldable pub fallback_item : List CompressionAlgorithm → Buffer → CompressedChainedItem
  fallback_item allowed remaining =
      if contains allowed CompressionAlgorithm.pattern_v1
      then elim (compress_by lz4 CompressionAlgorithm.pattern_v1 remaining) [
        | ok compressed ↦ sized_item CompressionAlgorithm.pattern_v1 (length remaining) compressed
        | err e ↦ plain_item 0 remaining
        | stuck ↦ plain_item 0 remaining
      ]
      else plain_item 0 remaining

  abbrev pub remaining_items : List CompressionAlgorithm → Buffer → List CompressedChainedItem
  remaining_items allowed [] = []
  remaining_items allowed (b ∷ bytes) = elim (shorter_item algorithm_priority allowed (b ∷ bytes)) [
    | some item ↦ item ∷ []
    | Option.none ↦ fallback_item allowed (b ∷ bytes) ∷ []
  ]

  unfoldable pub compress_chained :
      Buffer → List CompressionAlgorithm → Result CompressionError CompressedMessage
  compress_chained bytes allowed =
      if ltb (length bytes) header_size
      then err invalid_compressed_message
      else ok (
          chained (record {
            original_size = u32_of (length bytes);
            items =
                plain_item 1 (take header_size bytes)
                ∷ remaining_items allowed (drop header_size bytes);
          }))

  -- `Compressor::compress`
  unfoldable pub compress :
      CompressionCapabilities → Buffer → Result CompressionError CompressedMessage
  compress caps bytes =
      if caps.chained
      then compress_chained bytes caps.compression_algorithms
      else compress_unchained bytes caps.compression_algorithms

  -- Past the checks of `Decompressor::decompress`, by the method of the message.
  unfoldable pub decompress_message :
      CompressionCapabilities → CompressedMessage → Result CompressionError Buffer
  decompress_message caps (unchained m) = decompress_unchained m
  decompress_message caps (chained m) =
      if caps.chained then decompress_chained m else err unsupported_compression_method

  -- `Decompressor::decompress`, over the parser of a response.
  unfoldable pub decompress :
      {R : Type 0}
      → (Buffer → Option R)
      → CompressionCapabilities
      → CompressedMessage
      → Result CompressionError (R × Buffer)
  decompress read_response caps m =
      if ltb default_max_frame_size (announced m)
      then err (decompressed_size_limit_exceeded (announced m) default_max_frame_size)
      else decompress_message caps m >>= λ bytes. elim (read_response bytes) [
        | Option.none ↦ err invalid_decompressed_message
        | some response ↦ ok (response, bytes)
      ]
