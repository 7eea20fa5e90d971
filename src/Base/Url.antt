-- ===== src/Base/Url.antt =====
-- `urllib.parse.urlsplit(url).hostname`, for the parts of it that decide the host.
use solverr.Base.{
  ℕ, Bool, true, ◌&&◌, ◌||◌, not, Option, none, some, [], ◌∷◌, ◌++◌, leb, ◌==◌, if◌then◌else◌, keep,
}
use solverr.Base.Text.{Text, lower, cut, before, contains, codes}

unfoldable pub is_letter : ℕ → Bool
is_letter c = (leb b'a' c && leb c b'z') || (leb b'A' c && leb c b'Z')

unfoldable pub is_scheme_code : ℕ → Bool
unfolding is_letter
is_scheme_code c = is_letter c || (leb b'0' c && leb c b'9') || c == b'+' || c == b'-' || c == b'.'

unfoldable pub all_scheme : Text → Bool
unfolding is_scheme_code
all_scheme [] = true
all_scheme (c ∷ s) = is_scheme_code c && all_scheme s

-- Control characters and blanks in front are dropped, tabs and line ends everywhere.
unfoldable pub drop_control : Text → Text
drop_control [] = []
drop_control (c ∷ s) = if leb c 32 then drop_control s else c ∷ s

unfoldable pub clean : Text → Text
unfolding drop_control
clean s = keep (λ c. not (c == 9 || c == 10 || c == 13)) (drop_control s)

-- What stands behind a scheme, which begins with a letter.
unfoldable pub after_scheme : Text → Text
unfolding all_scheme cut is_letter
after_scheme [] = []
after_scheme (c ∷ s) =
    let (scheme, rest) = cut b':' (c ∷ s) in
    elim rest [ none ↦ c ∷ s | some r ↦ if is_letter c && all_scheme scheme then r else c ∷ s ]

unfoldable pub until_path : Text → Text
until_path [] = []
until_path (c ∷ s) =
    let rest = until_path s in if c == b'/' || c == b'?' || c == b'#' then [] else c ∷ rest

unfoldable pub netloc_of : Text → Text
unfolding until_path
netloc_of (a ∷ b ∷ s) = if a == b'/' && b == b'/' then until_path s else []
netloc_of s = []

-- The part behind the last `c`, or all of it.
unfoldable pub behind_last : ℕ → Text → Text → Text
behind_last c best [] = best
behind_last c best (d ∷ s) = behind_last c (if d == c then s else best) s

-- The host of `user:password@host:port`, in lower case up to a zone's `%`; `none` for an empty
-- host and for brackets that do not match, which `urlsplit` refuses.
unfoldable pub host_of_netloc : Text → Option Text
unfolding behind_last cut contains lower
host_of_netloc n =
    let info = behind_last b'@' n n in
    let (plain, bracketed) = cut b'[' info in
    let host : Text = elim bracketed [ none ↦ before b':' info | some b ↦ before b']' b ] in
    let (name, zone) = cut b'%' host in
    let lowered : Text = elim zone [ none ↦ lower name | some z ↦ lower name ++ (b'%' ∷ z) ] in
    let opens = contains n (codes "[") in
    let closes = contains n (codes "]") in
    if (opens && not closes) || (closes && not opens)
    then none
    else (elim host [ [] ↦ none | _ ∷ _ ↦ some lowered ])

unfoldable pub hostname : Text → Option Text
unfolding host_of_netloc netloc_of after_scheme clean
hostname url = host_of_netloc (netloc_of (after_scheme (clean url)))
