-- ===== src/Service/Request.antt =====
-- flaresolverr_service.py: the checks of a request, up to the choice of its command.
pub mod Checks
use solverr.Base.{
  ℕ, suc, ◌≤◌, ◌<◌, ◌≡◌, Bool, true, false, not, ◌&&◌, ◌||◌, Option, none, some, List, [], ◌∷◌, map,
  ◌==◌, ltb, leb, if◌then◌else◌,
}
use solverr.Base.Int.{ℤ, pos, negsuc}
use solverr.Base.Text.{Text, codes, lower, lower_code, strip, starts_with, text_eq}
use solverr.Base.Value.{Value, null, truth, int, str, Fields, int_of}
use solverr.Dtos.{TypeCheck, fine, wrong_type, wrong_cookie, get_attr, validate_request_types}
use solverr.Service.{
  Engine, chrome, stealth, Error, Result, ok, err, ◌>>=◌, ◌>>◌, raise_if, engine_name,
  timeout_no_number, url_missing, url_not_http, ttl_negative, engine_invalid, bad_type, bad_cookies,
}

-- A request once its types are checked. `max_timeout` is in milliseconds.
pub record Request : Type 0 where
  pub url : Option Text
  pub post_data : Option Text
  pub session : Option Text
  pub session_ttl_minutes : Option ℤ
  pub engine : Option Text
  pub tabs_till_verify : Option ℤ
  pub max_timeout : ℕ

-- A code point as `re.IGNORECASE` compares it with a small ASCII letter of the pattern: the long s
-- (383) counts as an s.
unfoldable pub fold_case : ℕ → ℕ
unfolding lower_code
fold_case c = if c == 383 then b's' else lower_code c

-- `_HTTP_URL.match(url)`: the pattern is `^https?://`, without regard to case.
unfoldable pub is_http_url : Text → Bool
unfolding fold_case
is_http_url url =
    starts_with (map fold_case url) (codes "http://")
    || starts_with (map fold_case url) (codes "https://")

unfoldable pub validate_url : Option Text → Result Text
unfolding is_http_url
validate_url none = err url_missing
validate_url (some []) = err url_missing
validate_url (some (c ∷ url)) = if is_http_url (c ∷ url) then ok (c ∷ url) else err url_not_http

unfoldable pub validate_session_ttl : Option ℤ → Result (Unit {0})
validate_session_ttl none = ok tt
validate_session_ttl (some (pos n)) = ok tt
validate_session_ttl (some (negsuc n)) = err ttl_negative

-- `if 0 < ceiling < value: value = ceiling`
unfoldable pub clamp : ℤ → ℕ → ℕ
clamp (negsuc n) value = value
clamp (pos ceiling) value = if ltb 0 ceiling && ltb ceiling value then ceiling else value

abbrev pub default_timeout : ℕ
default_timeout = 60000

-- A value below 1 counts as not asked for.
unfoldable pub budget_of : ℤ → ℕ
budget_of (negsuc n) = default_timeout
budget_of (pos ℕ.zero) = default_timeout
budget_of (pos (suc n)) = suc n

-- `_validate_max_timeout`: the milliseconds that `req.maxTimeout` is set to.
unfoldable pub validate_max_timeout : ℤ → Value → Result ℕ
unfolding clamp budget_of int_of
validate_max_timeout ceiling null = ok (clamp ceiling default_timeout)
validate_max_timeout ceiling (truth b) = err timeout_no_number
validate_max_timeout ceiling v = elim (int_of v) [
  | none ↦ err timeout_no_number
  | some n ↦ ok (clamp ceiling (budget_of n))
]

-- `_validate_engine`: the name in lower case, or nothing.
unfoldable pub validate_engine : Option Text → Result Text
unfolding lower strip
validate_engine none = ok []
validate_engine (some name) =
    let forced = lower (strip name) in
    if text_eq forced []
      || text_eq forced (codes "auto")
      || text_eq forced (engine_name chrome)
      || text_eq forced (engine_name stealth)
    then ok forced
    else err engine_invalid

abbrev pub text_of : Value → Option Text
text_of (str s) = some s
text_of v = none

abbrev pub whole_of : Value → Option ℤ
whole_of (int n) = some n
whole_of v = none

-- The checks of `_controller_v1_handler` behind the one for `cmd`.
unfoldable pub read_request : ℤ → Fields → Result Request
unfolding validate_request_types validate_max_timeout
read_request ceiling req = elim (validate_request_types req) [
  | wrong_type name kind ↦ err (bad_type name kind)
  | wrong_cookie ↦ err bad_cookies
  | fine ↦ do
    timeout ← validate_max_timeout ceiling (get_attr req (codes "maxTimeout"))
    ok (record {
      url = text_of (get_attr req (codes "url"));
      post_data = text_of (get_attr req (codes "postData"));
      session = text_of (get_attr req (codes "session"));
      session_ttl_minutes = whole_of (get_attr req (codes "session_ttl_minutes"));
      engine = text_of (get_attr req (codes "engine"));
      tabs_till_verify = whole_of (get_attr req (codes "tabs_till_verify"));
      max_timeout = timeout;
    })
]
