-- ===== src/NetBios/RoundTrip.antt =====
-- Writing and reading a NetBIOS name, crates/smb-transport/src/netbios/msg.rs.
use Prim.Native.Nat.{bit_and}
use mathlib.Core.List.{append_assoc}
use smb_rs.Prelude.{
  ℕ, zero, suc, ◌+◌, ◌*◌, ◌/◌, ◌%◌, ◌<◌, ◌≡◌, refl, subst, ◌∙◌, Bool, true, List, [], ◌∷◌, ◌++◌,
  ltb, ◌==◌, ◌&&◌, ok, length, All, arith, length-append,
}
use smb_rs.NetBios.{
  NetBiosName, str_len, read_u8, nibble, join_nibbles, read_char, read_chars, read_name, read,
  write_char, write_chars, write,
}

abbrev pub IsAscii : ℕ → Type 0
IsAscii c = c < 128

-- Every seven-bit character is split into nibbles that join to it again.
split_joins : ℕ → Bool
split_joins c = join_nibbles (c / 16) (bit_and c 0x0f) == c && ltb (bit_and c 0x0f) 16

all_below : ℕ → (ℕ → Bool) → Bool
all_below zero p = true
all_below (suc n) p = p n && all_below n p

all_below_sound : (n : ℕ) (p : ℕ → Bool) (c : ℕ) → all_below n p ≡ true → c < n → p c ≡ true
unfolding all_below
all_below_sound zero p c h l = absurd (omega arith)
all_below_sound (suc n) p c h l = ground (arith, all_below_sound n p c)

split_joins_table : all_below 128 split_joins ≡ true
unfolding all_below split_joins
split_joins_table = refl

nibbles_join : (c : ℕ) → IsAscii c → join_nibbles (c / 16) (bit_and c 0x0f) ≡ c
unfolding split_joins
nibbles_join c h =
    let same = all_below_sound 128 split_joins c split_joins_table h in ground (arith, same)

write_char_ascii :
    (c : ℕ) → IsAscii c → write_char c ≡ ok ((c / 16 + b'A') ∷ (bit_and c 0x0f + b'A') ∷ [])
unfolding write_char
write_char_ascii c h = let small : c % 256 ≡ c = omega arith in rw small (ground arith)

nibble_back : (n : ℕ) → nibble (n + b'A') ≡ ok n
unfolding nibble
nibble_back n = ground arith

read_char-write_char :
    (c : ℕ) (rest : List ℕ)
    → IsAscii c
    → read_char ((c / 16 + b'A') ∷ (bit_and c 0x0f + b'A') ∷ rest) ≡ ok (c, rest)
unfolding read_char
read_char-write_char c rest h =
    rw (nibble_back (c / 16), nibble_back (bit_and c 0x0f), nibbles_join c h) refl

-- The bytes of a text of seven-bit characters.
encoded : List ℕ → List ℕ
encoded [] = []
encoded (c ∷ s) = (c / 16 + b'A') ∷ (bit_and c 0x0f + b'A') ∷ encoded s

write_chars_ascii : (s : List ℕ) → All IsAscii s → write_chars s ≡ ok (encoded s)
unfolding write_chars encoded
write_chars_ascii [] h = refl
write_chars_ascii (c ∷ s) (h, hs) = rw (write_char_ascii c h, write_chars_ascii s hs) refl

read_chars-encoded :
    (name : List ℕ) (suffix : ℕ) (rest : List ℕ)
    → All IsAscii name
    → IsAscii suffix
    → read_chars (suc (length name)) (encoded (name ++ suffix ∷ []) ++ rest)
      ≡ ok (record { name = name; suffix = suffix }, rest)
unfolding read_chars encoded
read_chars-encoded [] suffix rest hs h = rw (read_char-write_char suffix rest h) refl
read_chars-encoded (c ∷ s) suffix rest (hc, hs) h =
    rw (read_char-write_char c (encoded (s ++ suffix ∷ []) ++ rest) hc)
      (rw (read_chars-encoded s suffix rest hs h) (ground arith))

str_len_ascii : (s : List ℕ) → All IsAscii s → str_len s ≡ length s
unfolding str_len
str_len_ascii [] h = refl
str_len_ascii (c ∷ s) (h, hs) = ground (arith, str_len_ascii s hs)

All-append_one : (s : List ℕ) (c : ℕ) → All IsAscii s → IsAscii c → All IsAscii (s ++ c ∷ [])
All-append_one [] c h hc = (hc, tt)
All-append_one (d ∷ s) c (h, hs) hc = (h, All-append_one s c hs hc)

length-encoded : (s : List ℕ) → length (encoded s) ≡ length s * 2
unfolding encoded
length-encoded [] = refl
length-encoded (c ∷ s) = omega (arith, length-encoded s)

-- A name of fifteen seven-bit characters with a seven-bit suffix is written, in thirty-four bytes,
-- and is read back as it was, with the rest of the stream behind it.
pub read-write :
    (n : NetBiosName) (rest : List ℕ)
    → length n.name ≡ 15
    → All IsAscii n.name
    → IsAscii n.suffix
    → (bytes : List ℕ) × (write n ≡ ok bytes)
      × (length bytes ≡ 34)
      × (read (bytes ++ rest) ≡ ok (n, rest))
unfolding write read read_name read_u8
read-write n rest size ascii suffix_ascii =
    let whole = n.name ++ n.suffix ∷ [] in
    let str_size : str_len n.name ≡ 15 = str_len_ascii n.name ascii ∙ size in
    let reads =
      subst (λ (k : ℕ). read_chars (suc k) (encoded whole ++ 0 ∷ rest) ≡ ok (n, 0 ∷ rest)) size
        (read_chars-encoded n.name n.suffix (0 ∷ rest) ascii suffix_ascii) in
    (
      32 ∷ (encoded whole ++ 0 ∷ []),
      rw (write_chars_ascii whole (All-append_one n.name n.suffix ascii suffix_ascii), str_size)
          refl,
      omega (
        arith,
        size,
        length-encoded whole,
        length-append n.name (n.suffix ∷ []),
        length-append (encoded whole) (0 ∷ []),
      ),
      rw (append_assoc (encoded whole) (0 ∷ []) rest) (rw reads refl),
    )
