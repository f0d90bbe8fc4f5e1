-- ===== src/Examples/Messages.antt =====
-- Compressed messages, for the theorems on crates/smb/src/compression.rs, with a library that
-- stores its input as it is.
use smb_rs.Prelude.{
  ℕ, zero, suc, ◌≤◌, ◌≡◌, refl, true, Option, some, [], ◌∷◌, inl, arith, length, ok,
}
use smb_rs.Compression.{
  Buffer, CompressionAlgorithm, CompressedMessage, unchained, CompressionCapabilities, Lz4,
  default_max_frame_size,
}
use smb_rs.Compression.Algorithms.{decompress_by, decompress_lz4}
use smb_rs.Compression.Chained.{decompress_unchained, decompress_message, decompress, compress}
use smb_rs.Compression.Bounded.{decompress_bounded}
use smb_rs.Compression.Restores.{IsInverse}
use smb_rs.Compression.RoundTrip.{decompress-compress}

abbrev stored : Lz4
stored = record { compress = λ bytes. bytes; decompress_into = λ bytes size. some bytes }

stored-IsInverse : IsInverse stored
stored-IsInverse bytes = refl

abbrev zeros : ℕ → Buffer
zeros zero = []
zeros (suc n) = 0 ∷ zeros n

abbrev caps : CompressionCapabilities
caps = record { chained = true; compression_algorithms = CompressionAlgorithm.lz4 ∷ [] }

-- A parser that takes any message, and answers its size.
abbrev read_response : Buffer → Option ℕ
read_response bytes = some (length bytes)

decompress-compress_example :
    (m : CompressedMessage) × (compress stored caps (zeros 80) ≡ ok m)
    × (decompress stored read_response caps m ≡ ok (80, zeros 80))
decompress-compress_example =
    decompress-compress stored stored-IsInverse read_response caps (zeros 80) 80 (omega arith)
      (omega arith) (inl refl) refl

abbrev message : CompressedMessage
message = unchained (record {
  original_size = 3;
  compression_algorithm = CompressionAlgorithm.lz4;
  payload = 7 ∷ 8 ∷ 9 ∷ [];
})

message-decompresses : decompress stored read_response caps message ≡ ok (3, 7 ∷ 8 ∷ 9 ∷ [])
unfolding decompress decompress_message decompress_unchained decompress_by decompress_lz4
message-decompresses = refl

decompress_bounded_example : (◌≡◌ {A = ℕ} 3 3) × (3 ≤ default_max_frame_size)
decompress_bounded_example =
    decompress_bounded stored read_response caps message 3 (7 ∷ 8 ∷ 9 ∷ []) message-decompresses
