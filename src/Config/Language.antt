-- ===== src/Config/Language.antt =====
-- config.py: the browser's language and time zone.
use solverr.Base.{
  ℕ, Bool, true, ◌&&◌, ◌||◌, Option, none, some, List, [], ◌∷◌, ◌++◌, if◌then◌else◌, ◌==◌, leb,
  length,
}
use solverr.Base.Text.{
  Text, codes, text_eq, lower, upper, strip, split, before, lower_code, upper_code,
}
use solverr.Config.{Env, env_or}

unfoldable pub is_alpha : ℕ → Bool
unfolding lower_code
is_alpha c = leb b'a' (lower_code c) && leb (lower_code c) b'z'

abbrev pub is_digit : ℕ → Bool
is_digit c = leb b'0' c && leb c b'9'

unfoldable pub all_codes : (ℕ → Bool) → Text → Bool
all_codes p [] = true
all_codes p (c ∷ s) = p c && all_codes p s

-- The three groups of `_LANGUAGE_TAG`.
unfoldable pub is_language : Text → Bool
unfolding is_alpha all_codes
is_language t = all_codes is_alpha t && (length t == 2 || length t == 3)

unfoldable pub is_script : Text → Bool
unfolding is_alpha all_codes
is_script t = all_codes is_alpha t && length t == 4

unfoldable pub is_region : Text → Bool
unfolding is_alpha all_codes
is_region t = (all_codes is_alpha t && length t == 2) || (all_codes is_digit t && length t == 3)

-- `script.title()` of four letters.
unfoldable pub title_case : Text → Text
unfolding lower upper_code
title_case [] = []
title_case (c ∷ s) = upper_code c ∷ lower s

-- The parts of a tag between its dashes, put in order and in their case.
unfoldable pub tag_of : List Text → Option Text
unfolding is_language is_script is_region title_case lower upper
tag_of (l ∷ []) = if is_language l then some (lower l) else none
tag_of (l ∷ x ∷ []) =
    if is_language l && is_script x
    then some (lower l ++ b'-' ∷ title_case x)
    else (if is_language l && is_region x then some (lower l ++ b'-' ∷ upper x) else none)
tag_of (l ∷ s ∷ r ∷ []) =
    if is_language l && is_script s && is_region r
    then some (lower l ++ b'-' ∷ title_case s ++ b'-' ∷ upper r)
    else none
tag_of _ = none

unfoldable pub dashes : Text → Text
dashes [] = []
dashes (c ∷ s) = (if c == b'_' then b'-' else c) ∷ dashes s

-- The pattern's `$` also stands in front of a last line feed.
unfoldable pub without_newline : Text → Text
without_newline [] = []
without_newline (c ∷ []) = if c == 10 then [] else c ∷ []
without_newline (c ∷ d ∷ s) = c ∷ without_newline (d ∷ s)

-- `_language_tag`
unfoldable pub language_tag : Text → Option Text
unfolding dashes tag_of without_newline split upper
language_tag raw =
    let tag = dashes (before b'@' (before b'.' raw)) in
    if text_eq (upper tag) (codes "C") || text_eq (upper tag) (codes "POSIX")
    then none
    else tag_of (split b'-' (without_newline tag))

-- The setting as a tag, if it is not blank.
unfoldable pub tag_env : Env → Text → Option Text
unfolding language_tag strip
tag_env env name =
    let raw = strip (env_or env name []) in if text_eq raw [] then none else language_tag raw

unfoldable pub browser_geo : Env → Option Text
unfolding tag_env
browser_geo env = tag_env env (codes "BROWSER_GEO")

unfoldable pub browser_locale : Env → Option Text
unfolding tag_env browser_geo
browser_locale env = elim (tag_env env (codes "LANG")) [
  | some tag ↦ some tag
  | none ↦ browser_geo env
]

-- `browser_timezone`, on the system's table of time zones.
unfoldable pub browser_timezone : (Text → Bool) → Env → Option Text
unfolding lower strip
browser_timezone is_known env =
    let raw = strip (env_or env (codes "BROWSER_TIMEZONE") []) in
    if text_eq raw []
    then none
    else (if text_eq (lower raw) (codes "auto")
        then some raw
        else (if is_known raw then some raw else none))
