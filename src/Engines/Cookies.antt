-- ===== src/Engines/Cookies.antt =====
-- src/engines/stealth_engine.py: cookies between Playwright's shape and the clients', and the user agent.
-- A cookie is a dictionary of JSON values.
use mathlib.Core.List.{lookup}
use native.Mathlib.Decide.{ℕ_discrete}
use solverr.Base.{
  zero, suc, Bool, true, false, ◌||◌, Option, none, some, List, [], ◌∷◌, keep, if◌then◌else◌,
  or_else, is_some,
}
use solverr.Base.Dict.{remove, put}
use solverr.Base.Int.{ℤ, pos}
use solverr.Base.Text.{Text, Text-discrete, text_eq, codes}
use solverr.Base.Value.{Value, null, truth, int, decimal, str, obj, arr, end, nil, truncate}

abbrev pub Cookie : Type 0
Cookie = List (Text × Value)

-- `cookie.get(k)`, with a missing key and `None` as `null`.
abbrev pub get : Text → Cookie → Value
get k c = or_else (lookup Text-discrete k c) null

abbrev pub has : Text → Cookie → Bool
has k c = is_some (lookup Text-discrete k c)

abbrev pub is_null : Value → Bool
is_null null = true
is_null _ = false

-- A value in a condition.
abbrev pub is_true : Value → Bool
is_true null = false
is_true (truth b) = b
is_true (int (pos zero)) = false
is_true (int _) = true
is_true (decimal (pos zero) e) = false
is_true (decimal _ e) = true
is_true (str []) = false
is_true (str _) = true
is_true (obj end) = false
is_true (obj _) = true
is_true (arr nil) = false
is_true (arr _) = true

-- `int(expires)` of an expiry above 0; the browser library gives a number.
unfoldable pub expiry_of : Value → Option ℤ
unfolding truncate
expiry_of (int (pos (suc n))) = some (pos (suc n))
expiry_of (decimal (pos (suc m)) e) = some (truncate (pos (suc m)) e)
expiry_of _ = none

unfoldable pub to_client_cookie : Cookie → Cookie
unfolding expiry_of remove put Text-discrete ℕ_discrete
to_client_cookie cookie =
    let rest = remove Text-discrete (codes "expires") cookie in
    elim (expiry_of (get (codes "expires") cookie)) [
      | none ↦ rest
      | some t ↦ put Text-discrete (codes "expiry") (int t) rest
    ]

-- `_to_client_cookies`
unfoldable pub to_client_cookies : List Cookie → List Cookie
unfolding to_client_cookie
to_client_cookies [] = []
to_client_cookies (c ∷ cs) = to_client_cookie c ∷ to_client_cookies cs

-- `_PLAYWRIGHT_COOKIE_KEYS`
abbrev pub playwright_keys : List Text
playwright_keys =
    codes "name"
    ∷ codes "value"
    ∷ codes "url"
    ∷ codes "domain"
    ∷ codes "path"
    ∷ codes "expires"
    ∷ codes "httpOnly"
    ∷ codes "secure"
    ∷ codes "sameSite"
    ∷ []

abbrev pub one_of : List Text → Text → Bool
one_of [] k = false
one_of (t ∷ ts) k = text_eq t k || one_of ts k

-- `d.setdefault(k, v)`
abbrev pub set_default : Text → Value → Cookie → Cookie
set_default k v c = if has k c then c else put Text-discrete k v c

-- `float()` of the client's expiry is a parameter; `none` is the exception that it raises.
module _ (float : Value → Option Value) where
  -- The client's `expiry` in place of a missing `expires`.
  unfoldable pub with_expires : Cookie → Cookie → Option Cookie
  unfolding put Text-discrete ℕ_discrete
  with_expires cookie translated =
      if has (codes "expires") translated || is_null (get (codes "expiry") cookie)
      then some translated
      else (elim (float (get (codes "expiry") cookie)) [
        | none ↦ none
        | some t ↦ some (put Text-discrete (codes "expires") t translated)
      ])

  -- Where the cookie belongs, if it does not say so.
  unfoldable pub placed : Text → Cookie → Cookie
  unfolding put Text-discrete ℕ_discrete
  placed host translated =
      if is_true (get (codes "url") translated)
      then translated
      else set_default (codes "path") (str (codes "/")) (
          if is_true (get (codes "domain") translated)
          then translated
          else put Text-discrete (codes "domain") (str host) translated)

  unfoldable pub to_playwright_cookie : Text → Cookie → Option Cookie
  unfolding with_expires placed
  to_playwright_cookie host cookie =
      elim (with_expires cookie (keep (λ e. one_of playwright_keys e.0) cookie)) [
        | none ↦ none
        | some translated ↦ some (placed host translated)
      ]

  -- `_to_playwright_cookies`; `host` is the request's, empty if its URL has none.
  unfoldable pub to_playwright_cookies : Text → List Cookie → Option (List Cookie)
  unfolding to_playwright_cookie
  to_playwright_cookies host [] = some []
  to_playwright_cookies host (c ∷ cs) = elim (to_playwright_cookie host c) [
    | none ↦ none
    | some d ↦ elim (to_playwright_cookies host cs) [ none ↦ none | some ds ↦ some (d ∷ ds) ]
  ]

-- `_user_agent_from`; `none` is no response, and an exception while its headers are read.
unfoldable pub user_agent_from : Option Cookie → Value
user_agent_from none = str []
user_agent_from (some headers) =
    if is_true (get (codes "user-agent") headers) then get (codes "user-agent") headers else str []
