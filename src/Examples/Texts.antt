-- ===== src/Examples/Texts.antt =====
-- UNC paths and NetBIOS names, for the theorems on crates/smb/src/client/unc_path.rs and
-- crates/smb-transport/src/netbios/msg.rs.
use smb_rs.Prelude.{ℕ, ◌≡◌, refl, some, List, [], ◌∷◌, ◌++◌, arith, length, ok}
use smb_rs.UncPath.{
  Text, UncPath, normalize_directory_separators, from_str, to_string, splitn, split_once,
  check_no_separators,
}
use smb_rs.UncPath.RoundTrip.{from_str-to_string, to_string-from_str}
use smb_rs.NetBios.{NetBiosName, read, write}
use smb_rs.NetBios.RoundTrip.{read-write}

-- `\\srv\tmp\a\b`
abbrev folder : UncPath
folder = record {
  server = b's' ∷ b'r' ∷ b'v' ∷ [];
  share = some (b't' ∷ b'm' ∷ b'p' ∷ []);
  path = some (b'a' ∷ b'\\' ∷ b'b' ∷ []);
}

from_str-to_string_example : from_str (to_string folder) ≡ ok folder
unfolding check_no_separators
from_str-to_string_example =
    from_str-to_string folder (record { server_part = refl; parts = (refl, refl) })

-- `//srv/tmp/a/b`
abbrev slashes : Text
slashes =
    b'/' ∷ b'/' ∷ b's' ∷ b'r' ∷ b'v' ∷ b'/' ∷ b't' ∷ b'm' ∷ b'p' ∷ b'/' ∷ b'a' ∷ b'/' ∷ b'b' ∷ []

from_str-slashes : from_str slashes ≡ ok folder
unfolding from_str splitn split_once
from_str-slashes = refl

to_string-from_str_example :
    (to_string folder ≡ normalize_directory_separators slashes)
    × (from_str (to_string folder) ≡ ok folder)
to_string-from_str_example = to_string-from_str slashes folder from_str-slashes

-- "SERVER" padded to fifteen characters, with the suffix of a file server.
abbrev server : NetBiosName
server = record {
  name =
      b'S' ∷ b'E' ∷ b'R' ∷ b'V' ∷ b'E' ∷ b'R' ∷ b' ' ∷ b' ' ∷ b' ' ∷ b' ' ∷ b' ' ∷ b' ' ∷ b' '
      ∷ b' ' ∷ b' ' ∷ [];
  suffix = 0x20;
}

read-write_example :
    (bytes : List ℕ) × (write server ≡ ok bytes)
    × (length bytes ≡ 34)
    × (read (bytes ++ 1 ∷ 2 ∷ []) ≡ ok (server, 1 ∷ 2 ∷ []))
read-write_example = read-write server (1 ∷ 2 ∷ []) refl (omega arith) (omega arith)
