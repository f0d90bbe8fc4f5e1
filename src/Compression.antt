-- ===== src/Compression.antt =====
-- crates/smb/src/compression.rs with the messages of crates/smb-msg/src/compressed.rs: compressing
-- what is sent and decompressing what is received. Both features, LZ4 and Pattern_V1, are on, and
-- assertions stop the program (`panicked`), as in the checked build.
pub mod Algorithms
pub mod Chained
pub mod Bounded
pub mod Restores
pub mod RoundTrip
use smb_rs.Prelude.{ℕ, Bool, true, false, ◌||◌, Option, some, List, [], ◌∷◌, ◌==◌, Result, ok, err}

-- A buffer of bytes.
abbrev pub Buffer : Type 0
Buffer = List ℕ

pub data CompressionAlgorithm : Type 0 where
  none lznt1 lz77 lz77_huffman pattern_v1 lz4 : CompressionAlgorithm

abbrev pub original_size_required : CompressionAlgorithm → Bool
original_size_required lznt1 = true
original_size_required lz77 = true
original_size_required lz77_huffman = true
original_size_required lz4 = true
original_size_required _ = false

-- The value on the wire, by which the derived `Eq` compares.
abbrev pub wire_value : CompressionAlgorithm → ℕ
wire_value none = 0
wire_value lznt1 = 1
wire_value lz77 = 2
wire_value lz77_huffman = 3
wire_value pattern_v1 = 4
wire_value lz4 = 5

unfoldable pub contains : List CompressionAlgorithm → CompressionAlgorithm → Bool
contains [] a = false
contains (b ∷ bs) a = wire_value b == wire_value a || contains bs a

pub data CompressionError : Type 0 where
  unsupported_algorithm : CompressionAlgorithm → CompressionError
  invalid_decompressed_message invalid_compressed_message : CompressionError
  exceeds_expected_size item_size_mismatch expected_size_mismatch : CompressionError
  unsupported_compression_method no_supported_compression_algorithm : CompressionError
  decompressed_size_limit_exceeded : (announced maximum : ℕ) → CompressionError
  lz4_decompress_error pattern_v1_invalid_decompressed_size : CompressionError
  panicked : CompressionError

pub record CompressedUnchainedMessage : Type 0 where
  pub original_size : ℕ
  pub compression_algorithm : CompressionAlgorithm
  pub payload : Buffer

pub record CompressedChainedItem : Type 0 where
  pub compression_algorithm : CompressionAlgorithm
  pub flags : ℕ
  pub original_size : Option ℕ
  pub payload_data : Buffer

pub record CompressedChainedMessage : Type 0 where
  pub original_size : ℕ
  pub items : List CompressedChainedItem

pub data CompressedMessage : Type 0 where
  unchained : CompressedUnchainedMessage → CompressedMessage
  chained : CompressedChainedMessage → CompressedMessage

pub record CompressionCapabilities : Type 0 where
  pub chained : Bool
  pub compression_algorithms : List CompressionAlgorithm

-- The `lz4_flex` crate: a compressor, and a decompressor that writes into a buffer of a given size
-- and returns what it has written, or fails.
pub record Lz4 : Type 0 where
  pub compress : Buffer → Buffer
  pub decompress_into : Buffer → (size : ℕ) → Option Buffer

-- `smb_transport::DEFAULT_MAX_FRAME_SIZE`
abbrev pub default_max_frame_size : ℕ
default_max_frame_size = 0x00ff_ffff

-- `Header::STRUCT_SIZE`
abbrev pub header_size : ℕ
header_size = 64
