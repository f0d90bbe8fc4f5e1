-- ===== src/NetBios.antt =====
-- crates/smb-transport/src/netbios/msg.rs, `NetBiosName`: the first-level encoding of a NetBIOS name.
-- A `String` is the list of its characters' code points, a stream the list of its bytes. An
-- arithmetic overflow is `overflow`: the checked build stops there.
pub mod RoundTrip
use Prim.Native.Nat.{bit_and, bit_or}
use smb_rs.Prelude.{
  ℕ, zero, suc, ◌+◌, ◌-◌, ◌*◌, ◌/◌, ◌%◌, Bool, true, false, Option, none, some, List, [], ◌∷◌, ◌++◌,
  if◌then◌else◌, ltb, ◌==◌, Result, ok, err, ◌>>=◌, length,
}

pub record NetBiosName : Type 0 where
  pub name : List ℕ
  pub suffix : ℕ

pub data NameError : Type 0 where
  end_of_stream wrong_length expected_null non_ascii overflow : NameError

abbrev pub total_name_bytes : ℕ
total_name_bytes = 15

-- `b'A'`
abbrev pub sub_to_get_nibble : ℕ
sub_to_get_nibble = b'A'

-- The bytes of a character in UTF-8, and of a text, as `str::len` counts them.
abbrev pub len_utf8 : ℕ → ℕ
len_utf8 c = if ltb c 128 then 1 else if ltb c 2048 then 2 else if ltb c 65536 then 3 else 4

unfoldable pub str_len : List ℕ → ℕ
str_len [] = 0
str_len (c ∷ s) = len_utf8 c + str_len s

-- `truncate` cuts at a byte position, and panics (`none`) inside a character.
unfoldable pub truncate : ℕ → List ℕ → Option (List ℕ)
truncate n [] = some []
truncate n (c ∷ s) =
    let rest = truncate (n - len_utf8 c) s in
    if n == 0
    then some []
    else if ltb n (len_utf8 c)
    then none
    else elim rest [ none ↦ none | some kept ↦ some (c ∷ kept) ]

-- `" ".repeat(n)`
unfoldable pub spaces : ℕ → List ℕ
spaces zero = []
spaces (suc n) = b' ' ∷ spaces n

unfoldable pub new : List ℕ → ℕ → Option NetBiosName
new name suffix = elim (truncate total_name_bytes name) [
  | none ↦ none
  | some kept ↦
      some (record { name = kept ++ spaces (total_name_bytes - str_len kept); suffix = suffix })
]

unfoldable pub read_u8 : List ℕ → Result NameError (ℕ × List ℕ)
read_u8 [] = err end_of_stream
read_u8 (b ∷ rest) = ok (b, rest)

-- `byte - SUB_TO_GET_NIBBLE` on `u8`
unfoldable pub nibble : ℕ → Result NameError ℕ
nibble byte = if ltb byte sub_to_get_nibble then err overflow else ok (byte - sub_to_get_nibble)

-- `(lower_nibble << 4) | upper_nibble` on `u8`
abbrev pub join_nibbles : ℕ → ℕ → ℕ
join_nibbles high low = bit_or (high * 16 % 256) low

unfoldable pub read_char : List ℕ → Result NameError (ℕ × List ℕ)
unfolding read_u8 nibble
read_char stream = do
  (first, rest) ← read_u8 stream
  (second, rest') ← read_u8 rest
  high ← nibble first
  low ← nibble second
  ok (join_nibbles high low, rest')

-- The loop over the characters; the last one is the suffix.
unfoldable pub read_chars : ℕ → List ℕ → Result NameError (NetBiosName × List ℕ)
read_chars zero stream = ok (record { name = []; suffix = 0 }, stream)
read_chars (suc left) stream = read_char stream >>= λ x. read_chars left x.1 >>= λ y. ok (
    if left == 0
    then (record { name = []; suffix = x.0 }, y.1)
    else (record y.0 { name = x.0 ∷ y.0.name }, y.1))

-- Behind the length byte.
unfoldable pub read_name : ℕ → List ℕ → Result NameError (NetBiosName × List ℕ)
unfolding read_u8
read_name number_of_chars stream = do
  (name, rest) ← read_chars number_of_chars stream
  (null_byte, rest') ← read_u8 rest
  if null_byte == 0 then ok (name, rest') else err expected_null

unfoldable pub read : List ℕ → Result NameError (NetBiosName × List ℕ)
unfolding read_u8
read stream = do
  (number_of_bytes, rest) ← read_u8 stream
  if number_of_bytes / 2 == total_name_bytes + 1
      then read_name (number_of_bytes / 2) rest
      else err wrong_length

-- `c as u8`, `c >> 4` and `c & 0x0F`; the sums with `b'A'` stay below 256.
unfoldable pub write_char : ℕ → Result NameError (List ℕ)
write_char c =
    let byte = c % 256 in
    if ltb 0x7f byte
    then err non_ascii
    else ok ((byte / 16 + sub_to_get_nibble) ∷ (bit_and byte 0x0f + sub_to_get_nibble) ∷ [])

unfoldable pub write_chars : List ℕ → Result NameError (List ℕ)
write_chars [] = ok []
write_chars (c ∷ s) = do encoded ← write_char c; rest ← write_chars s; ok (encoded ++ rest)

-- The bytes written; on an error the stream has some of them.
unfoldable pub write : NetBiosName → Result NameError (List ℕ)
write n = do
  let number_of_bytes = str_len n.name * 2 + 1 + 1
  encoded ← write_chars (n.name ++ n.suffix ∷ [])
  ok ((number_of_bytes % 256) ∷ (encoded ++ 0 ∷ []))
