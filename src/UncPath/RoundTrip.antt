-- ===== src/UncPath/RoundTrip.antt =====
-- Printing and parsing UNC paths, crates/smb/src/client/unc_path.rs.
use mathlib.Core.List.{append-nil}
use smb_rs.Prelude.{
  ◌≡◌, refl, ap, subst, ◌∙◌, Bool, true, false, ◌&&◌, ◌||◌, Option, none, some, [], ◌∷◌, ◌++◌, ◌==◌,
  ok, arith, Bool-cases, Option-cases, inl, inr,
}
use smb_rs.UncPath.{
  Text, backslash, slash, UncPath, check_no_separators, normalize_directory_separators, split_once,
  splitn, from_parts, from_str, to_string,
}

-- A text without a slash, backslashes allowed.
abbrev pub IsNormal : Text → Type 0
IsNormal s = normalize_directory_separators s ≡ s

abbrev pub IsPart : Text → Type 0
IsPart s = check_no_separators s ≡ true

abbrev AreParts : Option Text → Option Text → Type 0
AreParts none none = Unit {0}
AreParts none (some path) = ⊥
AreParts (some share) none = IsPart share
AreParts (some share) (some path) = IsPart share × IsNormal path

-- Server and share without separators, a path without slashes, and no path without a share.
pub record IsPrintable (u : UncPath) : Type 0 where
  pub server_part : IsPart u.server
  pub parts : AreParts u.share u.path

IsPart-IsNormal : (s : Text) → IsPart s → IsNormal s
unfolding check_no_separators
IsPart-IsNormal [] h = refl
IsPart-IsNormal (c ∷ s) h = ground (arith, IsPart-IsNormal s)

split_once-append :
    (s : Text) (rest : Text) → IsPart s → split_once (s ++ backslash ∷ rest) ≡ (s, some rest)
unfolding check_no_separators split_once
split_once-append [] rest h = refl
split_once-append (c ∷ s) rest h = ground (arith, split_once-append s rest)

split_once_whole : (s : Text) → IsPart s → split_once s ≡ (s, none)
unfolding check_no_separators split_once
split_once_whole [] h = refl
split_once_whole (c ∷ s) h = ground (arith, split_once_whole s)

print_parse :
    (server : Text) (share path : Option Text)
    → IsPart server
    → AreParts share path
    → let u : UncPath = record { server = server; share = share; path = path } in
      from_str (to_string u) ≡ ok u
unfolding from_str to_string
print_parse server none none p q =
    rw (append-nil server, split_once_whole server p, IsPart-IsNormal server p) refl
print_parse server (some share) none p q =
    rw
      (
        append-nil share,
        split_once-append server share p,
        split_once_whole share q,
        IsPart-IsNormal server p,
        IsPart-IsNormal share q,
      )
      refl
print_parse server none (some path) p q = absurd q
print_parse server (some share) (some path) p (q, n) =
    rw
      (
        split_once-append server (share ++ backslash ∷ path) p,
        split_once-append share path q,
        IsPart-IsNormal server p,
        IsPart-IsNormal share q,
        n,
      )
      refl

-- A UNC path whose server and share hold no separator, whose path holds no slash, and that has no
-- path without a share is read back from its printed form as it was.
pub from_str-to_string : (u : UncPath) → IsPrintable u → from_str (to_string u) ≡ ok u
from_str-to_string u v = print_parse u.server u.share u.path v.server_part v.parts

IsNormal-normalize : (s : Text) → IsNormal (normalize_directory_separators s)
IsNormal-normalize [] = refl
IsNormal-normalize (c ∷ s) = ground (arith, IsNormal-normalize s)

-- What stands before the first separator is a part, and is its own normal form.
split_once-IsPart : (s : Text) → IsPart (split_once s).0
unfolding split_once check_no_separators
split_once-IsPart [] = refl
split_once-IsPart (c ∷ s) = ground (arith, split_once-IsPart s)

abbrev rejoined : Option Text → Text
rejoined none = []
rejoined (some rest) = backslash ∷ normalize_directory_separators rest

split_once_joins :
    (s : Text) → (split_once s).0 ++ rejoined (split_once s).1 ≡ normalize_directory_separators s
unfolding split_once
split_once_joins [] = refl
split_once_joins (c ∷ s) = ground (arith, split_once_joins s)

joins_as :
    (s : Text) (o : Option Text)
    → (split_once s).1 ≡ o
    → (split_once s).0 ++ rejoined o ≡ normalize_directory_separators s
joins_as s o e =
    subst (λ (r : Option Text). (split_once s).0 ++ rejoined r ≡ normalize_directory_separators s) e
      (split_once_joins s)

abbrev led : Text → Text
led t = backslash ∷ backslash ∷ t

-- What `from_str` makes of a text behind the leading slashes.
record Parsed (s : Text) : Type 0 where
  made : UncPath
  answer : from_parts (splitn 3 s) ≡ ok made
  printable : IsPrintable made
  prints : to_string made ≡ backslash ∷ backslash ∷ normalize_directory_separators s

parsed : (s : Text) → Parsed s
unfolding splitn to_string
parsed s =
    let server = (split_once s).0 in
    let server_part = split_once-IsPart s in
    let server_normal = IsPart-IsNormal server server_part in
    elim (Option-cases (split_once s).1) [
      | inl none_left ↦ record {
        made = record { server = server; share = none; path = none };
        answer = rw none_left (rw server_normal refl);
        printable = record { server_part = server_part; parts = tt };
        prints = ap led (joins_as s none none_left);
      }
      | inr (rest, found) ↦
          let share = (split_once rest).0 in
          let share_part = split_once-IsPart rest in
          let share_normal = IsPart-IsNormal share share_part in
          let whole = joins_as s (some rest) found in
          let behind_server = λ (t : Text). led (server ++ backslash ∷ t) in
          elim (Option-cases (split_once rest).1) [
            | inl none_left ↦ record {
              made = record { server = server; share = some share; path = none };
              answer = rw found (rw none_left (rw (server_normal, share_normal) refl));
              printable = record { server_part = server_part; parts = share_part };
              prints = ap behind_server (joins_as rest none none_left) ∙ ap led whole;
            }
            | inr (path, behind) ↦ record {
              made = record {
                server = server;
                share = some share;
                path = some (normalize_directory_separators path);
              };
              answer = rw found (rw behind (rw (server_normal, share_normal) refl));
              printable = record {
                server_part = server_part;
                parts = (share_part, IsNormal-normalize path);
              };
              prints = ap behind_server (joins_as rest (some path) behind) ∙ ap led whole;
            }
          ]
    ]

-- Two leading slashes of one kind.
abbrev has_lead : Text → Bool
has_lead (a ∷ b ∷ rest) = a == backslash && b == backslash || a == slash && b == slash
has_lead _ = false

-- What a text is parsed as prints as the text with every slash made a backslash, and is read back
-- from there as it is.
pub to_string-from_str :
    (s : Text) (u : UncPath)
    → from_str s ≡ ok u
    → (to_string u ≡ normalize_directory_separators s) × (from_str (to_string u) ≡ ok u)
unfolding from_str
to_string-from_str [] u h = cc
to_string-from_str (a ∷ []) u h = cc
to_string-from_str (a ∷ b ∷ rest) u h = elim (Bool-cases (has_lead (a ∷ b ∷ rest))) [
  | inr other ↦ absurd (ground (arith, other, h))
  | inl lead ↦
      let p = parsed rest in
      let same : p.made ≡ u = ground (arith, p.answer, h, lead) in
      (
        subst (λ (v : UncPath). to_string v ≡ normalize_directory_separators (a ∷ b ∷ rest)) same
            (p.prints ∙ ground (arith, lead)),
        subst (λ (v : UncPath). from_str (to_string v) ≡ ok v) same
            (from_str-to_string p.made p.printable),
      )
]
