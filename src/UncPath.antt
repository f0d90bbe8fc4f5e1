-- ===== src/UncPath.antt =====
-- crates/smb/src/client/unc_path.rs: UNC paths, built, parsed and printed. A text is the list of its
-- characters' code points.
pub mod RoundTrip
use smb_rs.Prelude.{
  ℕ, suc, zero, Bool, true, false, not, ◌&&◌, ◌||◌, Option, none, some, List, [], ◌∷◌, ◌++◌,
  if◌then◌else◌, ◌==◌, map, Result, ok, err, ◌>>=◌,
}

abbrev pub Text : Type 0
Text = List ℕ

abbrev pub backslash : ℕ
backslash = b'\\'

abbrev pub slash : ℕ
slash = b'/'

abbrev pub is_separator : ℕ → Bool
is_separator c = c == backslash || c == slash

pub record UncPath : Type 0 where
  pub server : Text
  pub share : Option Text
  pub path : Option Text

-- `Error::InvalidArgument` with the argument that it speaks of.
pub data PathError : Type 0 where
  invalid_server_name invalid_share_name no_leading_slashes : PathError

-- `!path.contains('\\') && !path.contains('/')`
unfoldable pub check_no_separators : Text → Bool
check_no_separators [] = true
check_no_separators (c ∷ s) = not (is_separator c) && check_no_separators s

-- `path.replace('/', "\\")`
abbrev pub normalize_character : ℕ → ℕ
normalize_character c = if c == slash then backslash else c

abbrev pub normalize_directory_separators : Text → Text
normalize_directory_separators [] = []
normalize_directory_separators (c ∷ s) = normalize_character c ∷ normalize_directory_separators s

unfoldable pub new : Text → Result PathError UncPath
new server =
    if check_no_separators server
    then ok (record { server = server; share = none; path = none })
    else err invalid_server_name

unfoldable pub with_share : UncPath → Text → Result PathError UncPath
with_share u share =
    if check_no_separators share
    then ok (record u { share = some share })
    else err invalid_share_name

unfoldable pub with_path : UncPath → Text → UncPath
with_path u path = record u { path = some (normalize_directory_separators path) }

unfoldable pub with_no_path : UncPath → UncPath
with_no_path u = record u { path = none }

-- `trim_start_matches('\\')` and `trim_end_matches('\\')`
unfoldable pub trim_start : Text → Text
trim_start [] = []
trim_start (c ∷ s) = let rest = trim_start s in if c == backslash then rest else c ∷ s

unfoldable pub trim_end : Text → Text
trim_end [] = []
trim_end (c ∷ s) = elim (trim_end s) [
  | [] ↦ if c == backslash then [] else c ∷ []
  | d ∷ rest ↦ c ∷ d ∷ rest
]

abbrev pub extended : Option Text → Text → Text
extended none added = added
extended (some []) added = added
extended (some (c ∷ s)) added = trim_end (c ∷ s) ++ backslash ∷ trim_start added

unfoldable pub with_add_path : UncPath → Text → UncPath
with_add_path u add_path = record u {
  path = some (extended u.path (normalize_directory_separators add_path));
}

-- Up to the first separator, and behind it if there is one.
unfoldable pub split_once : Text → Text × Option Text
split_once [] = ([], none)
split_once (c ∷ s) =
    let (before, behind) = split_once s in
    if is_separator c then ([], some s) else (c ∷ before, behind)

-- `splitn` at either separator; the last part is not split.
unfoldable pub splitn : ℕ → Text → List Text
splitn zero s = []
splitn (suc zero) s = s ∷ []
splitn (suc (suc n)) s =
    (split_once s).0 ∷ elim (split_once s).1 [ none ↦ [] | some rest ↦ splitn (suc n) rest ]

-- `UncPath` from the parts; the list of `splitn` is not empty.
abbrev pub from_parts : List Text → Result PathError UncPath
from_parts [] = err no_leading_slashes
from_parts (server ∷ []) =
    ok (record { server = normalize_directory_separators server; share = none; path = none })
from_parts (server ∷ share ∷ []) = ok (record {
  server = normalize_directory_separators server;
  share = some (normalize_directory_separators share);
  path = none;
})
from_parts (server ∷ share ∷ path ∷ _) = ok (record {
  server = normalize_directory_separators server;
  share = some (normalize_directory_separators share);
  path = some (normalize_directory_separators path);
})

unfoldable pub from_str : Text → Result PathError UncPath
unfolding splitn
from_str (a ∷ b ∷ rest) =
    if a == backslash && b == backslash || a == slash && b == slash
    then from_parts (splitn 3 rest)
    else err no_leading_slashes
from_str _ = err no_leading_slashes

-- A part of the printed path, behind its separator.
abbrev pub printed : Option Text → Text
printed none = []
printed (some part) = backslash ∷ part

unfoldable pub to_string : UncPath → Text
to_string u = backslash ∷ backslash ∷ (u.server ++ (printed u.share ++ printed u.path))
