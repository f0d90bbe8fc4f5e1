-- ===== src/Compression/Algorithms.antt =====
-- crates/smb/src/compression.rs: the algorithms. `decompress` appends to the output.
use smb_rs.Prelude.{
  ℕ, zero, suc, ◌+◌, ◌*◌, ◌/◌, ◌%◌, ◌^◌, Bool, true, ◌&&◌, Option, some, [], ◌∷◌, ◌++◌,
  if◌then◌else◌, ◌==◌, checked_add, usize_max, Result, ok, err, length,
}
use smb_rs.Compression.{
  Buffer, CompressionAlgorithm, CompressionError, invalid_compressed_message,
  no_supported_compression_algorithm, unsupported_algorithm, lz4_decompress_error,
  pattern_v1_invalid_decompressed_size, panicked, Lz4,
}

abbrev pub u32_of : ℕ → ℕ
u32_of n = n % 2 ^ 32

unfoldable pub replicate : ℕ → ℕ → Buffer
replicate zero b = []
replicate (suc n) b = b ∷ replicate n b

-- `PatternV1Payload`: the pattern, three reserved bytes, and the repetitions, little-endian.
abbrev pub write_payload : (pattern_byte repetitions : ℕ) → Buffer
write_payload p n =
    p ∷ 0 ∷ 0 ∷ 0 ∷ (n % 256) ∷ (n / 256 % 256) ∷ (n / 65536 % 256) ∷ (n / 16777216 % 256) ∷ []

abbrev pub read_payload : Buffer → Option (ℕ × ℕ)
read_payload (p ∷ _ ∷ _ ∷ _ ∷ a ∷ b ∷ c ∷ d ∷ []) = some (p, a + b * 256 + c * 65536 + d * 16777216)
read_payload _ = Option.none

unfoldable pub all_equal : ℕ → Buffer → Bool
all_equal p [] = true
all_equal p (b ∷ bs) = b == p && all_equal p bs

-- `NoneCompression`; the assertion on the size is a debug one.
unfoldable pub decompress_none : Buffer → Option ℕ → Buffer → Result CompressionError Buffer
decompress_none compressed (some size) out = err panicked
decompress_none compressed Option.none out = ok (out ++ compressed)

-- `PatternV1Compression`
unfoldable pub decompress_pattern : Buffer → Option ℕ → Buffer → Result CompressionError Buffer
unfolding replicate
decompress_pattern compressed (some size) out = err panicked
decompress_pattern compressed Option.none out = elim (read_payload compressed) [
  | Option.none ↦ err panicked
  | some (p, repetitions) ↦ ok (out ++ replicate repetitions p)
]

unfoldable pub compress_pattern : Buffer → Result CompressionError Buffer
compress_pattern [] = err no_supported_compression_algorithm
compress_pattern (p ∷ rest) =
    if all_equal p (p ∷ rest)
    then ok (write_payload p (u32_of (length (p ∷ rest))))
    else err no_supported_compression_algorithm

module _ (lz4 : Lz4) where
  -- `Lz4Compression`; the buffer grows by the original size, and is cut to what was written.
  unfoldable pub decompress_lz4 : Buffer → Option ℕ → Buffer → Result CompressionError Buffer
  decompress_lz4 compressed Option.none out = err invalid_compressed_message
  decompress_lz4 compressed (some size) out = elim (checked_add usize_max (length out) size) [
    | Option.none ↦ err invalid_compressed_message
    | some end ↦ elim (lz4.decompress_into compressed size) [
      | Option.none ↦ err lz4_decompress_error
      | some written ↦
          if length written == size
          then ok (out ++ written)
          else err pattern_v1_invalid_decompressed_size
    ]
  ]

  -- `get_compression_algorithm`, and the method called on what it returns.
  unfoldable pub decompress_by :
      CompressionAlgorithm → Buffer → Option ℕ → Buffer → Result CompressionError Buffer
  decompress_by CompressionAlgorithm.none compressed size out = decompress_none compressed size out
  decompress_by CompressionAlgorithm.pattern_v1 compressed size out =
      decompress_pattern compressed size out
  decompress_by CompressionAlgorithm.lz4 compressed size out = decompress_lz4 compressed size out
  decompress_by other compressed size out = err (unsupported_algorithm other)

  unfoldable pub compress_by : CompressionAlgorithm → Buffer → Result CompressionError Buffer
  compress_by CompressionAlgorithm.none bytes = ok bytes
  compress_by CompressionAlgorithm.pattern_v1 bytes = compress_pattern bytes
  compress_by CompressionAlgorithm.lz4 bytes = ok (lz4.compress bytes)
  compress_by other bytes = err (unsupported_algorithm other)
