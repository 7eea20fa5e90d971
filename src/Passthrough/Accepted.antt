-- ===== src/Passthrough/Accepted.antt =====
-- passthrough.py and flaresolverr_service.py: the service accepts the requests that the passthrough
-- puts to it.
use solverr.Base.{ℕ, zero, suc, ◌≤◌, ◌≡◌, refl, Option, none, some, arith, ℕ_discrete}
use solverr.Base.Int.{ℤ}
use solverr.Base.Text.{Text, Text-discrete, lower_code}
use solverr.Base.Value.{Value, obj, Fields, attr, int_of}
use solverr.Dtos.{validate_request_types, check_types, check_cookies, annotations, has_kind}
use solverr.Service.{ok}
use solverr.Service.Request.{
  Request, read_request, validate_url, validate_session_ttl, is_http_url, fold_case,
  validate_max_timeout, clamp, budget_of,
}
use solverr.Service.Commands.{check_get}
use solverr.Passthrough.{Settings, target, session_of}
use solverr.Passthrough.Solve.{request_for}

abbrev pub proxy_value : Option Fields → Option Value
proxy_value none = none
proxy_value (some fs) = some (obj fs)

-- The request as the service reads it.
abbrev pub as_read : ℤ → Settings → Text × Text → Request
as_read ceiling s place = record {
  url = some (target place);
  post_data = none;
  session = some (session_of place.0);
  session_ttl_minutes = none;
  engine = none;
  tabs_till_verify = none;
  max_timeout = clamp ceiling s.timeout_ms;
}

get-accepted :
    (ceiling : ℤ) (s : Settings) (place : Text × Text) → check_get (as_read ceiling s place) ≡ ok tt
unfolding check_get validate_session_ttl validate_url is_http_url fold_case lower_code target
get-accepted ceiling s place = refl

read-suc :
    (ceiling : ℤ) (s : Settings) (proxy : Option Fields) (place : Text × Text) (n : ℕ)
    → s.timeout_ms ≡ suc n
    → read_request ceiling (request_for s (proxy_value proxy) place) ≡ ok (as_read ceiling s place)
unfolding read_request validate_request_types check_types check_cookies annotations has_kind
    request_for attr validate_max_timeout int_of budget_of Text-discrete ℕ_discrete
read-suc ceiling s none place n h = rw h refl
read-suc ceiling s (some fs) place n h = rw h refl

one_more : (n : ℕ) → 1 ≤ n → (m : ℕ) × (n ≡ suc m)
one_more zero h = absurd (omega (arith, h))
one_more (suc n) h = (n, refl)

-- With a timeout of a millisecond or more the service reads the request of
-- the passthrough with the target, the session of its host, no engine and that timeout under the
-- ceiling, and its checks for `request.get` pass.
pub request_for-read :
    (ceiling : ℤ) (s : Settings) (proxy : Option Fields) (place : Text × Text)
    → 1 ≤ s.timeout_ms
    → (read_request ceiling (request_for s (proxy_value proxy) place)
        ≡ ok (as_read ceiling s place))
      × (check_get (as_read ceiling s place) ≡ ok tt)
request_for-read ceiling s proxy place h =
    let (n, e) = one_more s.timeout_ms h in
    (read-suc ceiling s proxy place n e, get-accepted ceiling s place)
