-- ===== src/Base/Split.antt =====
-- `urllib.parse.urlsplit`, `urlunsplit` and the parts of a network location.
use solverr.Base.{
  ℕ, ◌+◌, ◌*◌, ◌-◌, Bool, ◌&&◌, ◌||◌, not, Option, none, some, [], ◌∷◌, ◌++◌, leb, ◌==◌,
  if◌then◌else◌,
}
use solverr.Base.Text.{Text, codes, cut, contains, lower}
use solverr.Base.Url.{clean, is_letter, all_scheme, until_path, behind_last}

pub record Parts : Type 0 where
  pub scheme : Text
  pub netloc : Text
  pub path : Text
  pub query : Text
  pub fragment : Text

abbrev pub text_or_empty : Option Text → Text
text_or_empty none = []
text_or_empty (some s) = s

-- The scheme, and what stands behind it.
unfoldable pub split_scheme : Text → Text × Text
unfolding cut is_letter all_scheme lower
split_scheme [] = ([], [])
split_scheme (c ∷ s) = elim (cut b':' (c ∷ s)).1 [
  | none ↦ ([], c ∷ s)
  | some r ↦
      if is_letter c && all_scheme (cut b':' (c ∷ s)).0
      then (lower (cut b':' (c ∷ s)).0, r)
      else ([], c ∷ s)
]

unfoldable pub from_path : Text → Text
from_path [] = []
from_path (c ∷ s) =
    let rest = from_path s in if c == b'/' || c == b'?' || c == b'#' then c ∷ s else rest

-- The network location and what stands behind it.
unfoldable pub split_netloc : Text → Text × Text
unfolding until_path from_path
split_netloc (a ∷ b ∷ s) =
    if a == b'/' && b == b'/' then (until_path s, from_path s) else ([], a ∷ b ∷ s)
split_netloc s = ([], s)

-- `urlsplit`; `none` is the `ValueError`. The check of what stands in brackets and of the letters
-- outside ASCII in a network location is a parameter.
unfoldable pub urlsplit : (Text → Bool) → Text → Option Parts
unfolding split_scheme split_netloc clean cut contains
urlsplit refuses url =
    let (scheme, behind) = split_scheme (clean url) in
    let (netloc, rest) = split_netloc behind in
    let opens = contains netloc (codes "[") in
    let closes = contains netloc (codes "]") in
    let (body, fragment) = cut b'#' rest in
    let (path, query) = cut b'?' body in
    if (opens && not closes) || (closes && not opens) || refuses netloc
    then none
    else some record {
      scheme = scheme;
      netloc = netloc;
      path = path;
      query = text_or_empty query;
      fragment = text_or_empty fragment;
    }

abbrev pub with_mark : ℕ → Text → Text
with_mark c [] = []
with_mark c (d ∷ s) = c ∷ d ∷ s

abbrev pub rooted : Text → Text
rooted [] = []
rooted (c ∷ s) = if c == b'/' then c ∷ s else b'/' ∷ c ∷ s

-- `urlunsplit`, for parts with a network location.
unfoldable pub urlunsplit : Parts → Text
urlunsplit p =
    let url =
      codes "//"
      ++ (p.netloc ++ (rooted p.path ++ (with_mark b'?' p.query ++ with_mark b'#' p.fragment))) in
    elim p.scheme [ [] ↦ url | c ∷ s ↦ (c ∷ s) ++ (b':' ∷ url) ]

-- `netloc.rpartition('@')`: what stands in front of the last `@`, if there is one.
unfoldable pub userinfo : Text → Option Text
unfolding contains
userinfo [] = none
userinfo (c ∷ s) = elim (userinfo s) [
  | some u ↦ some (c ∷ u)
  | none ↦ if c == b'@' then some [] else none
]

-- `SplitResult.password`
unfoldable pub password : Text → Option Text
unfolding userinfo cut
password netloc = elim (userinfo netloc) [ none ↦ none | some u ↦ (cut b':' u).1 ]

-- `netloc.rpartition('@')[2]`
abbrev pub hostport : Text → Text
hostport netloc = behind_last b'@' netloc netloc

unfoldable pub port_digits : ℕ → Text → Option ℕ
port_digits n [] = some n
port_digits n (c ∷ s) =
    let rest = port_digits (n * 10 + (c - b'0')) s in
    if leb b'0' c && leb c b'9' then rest else none

-- The text of the port, which stands behind the host or its brackets.
unfoldable pub port_text : Text → Text
unfolding cut behind_last
port_text netloc = elim (cut b'[' (hostport netloc)).1 [
  | none ↦ text_or_empty (cut b':' (hostport netloc)).1
  | some bracketed ↦ text_or_empty (cut b':' (text_or_empty (cut b']' bracketed).1)).1
]

-- `SplitResult.port`; the outer `none` is the `ValueError`.
unfoldable pub port : Text → Option (Option ℕ)
unfolding port_text port_digits
port netloc = elim (port_text netloc) [
  | [] ↦ some none
  | c ∷ s ↦ elim (port_digits 0 (c ∷ s)) [
    | none ↦ none
    | some n ↦ if leb n 65535 then some (some n) else none
  ]
]
