-- ===== src/Service/Answers.antt =====
-- flaresolverr_service.py: `_to_challenge_resolution`, the fields of a solved request.
use solverr.Base.{
  ◌≡◌, Bool, true, false, Option, none, some, arith, ℕ_discrete, is_some, if◌then◌else◌,
}
use solverr.Base.Int.{pos}
use solverr.Base.Text.{Text, Text-discrete, text_eq, codes}
use solverr.Base.Value.{Value, null, int, str, Fields, field, end, attr}
use solverr.Service.{SolveResult}

-- A field that is set only if there is a value.
abbrev pub field_if : Text → Option Value → Fields → Fields
field_if name none fs = fs
field_if name (some v) fs = field name v fs

abbrev pub str_of : Option Text → Option Value
str_of none = none
str_of (some s) = some (str s)

abbrev pub str_or_null : Option Text → Value
str_or_null none = null
str_or_null (some s) = str s

-- The fields of `result`.
unfoldable pub to_challenge_resolution : SolveResult → Fields
to_challenge_resolution r = field (codes "url") (str r.url) (
    field (codes "status") (int (pos r.status)) (
      field (codes "cookies") r.cookies (
        field (codes "userAgent") (str r.user_agent) (
          field (codes "turnstile_token") (str_or_null r.turnstile_token) (
            field_if (codes "headers") r.headers (
              field_if (codes "response") (str_of r.response) (
                field_if (codes "contentType") (str_of r.content_type)
                  (field_if (codes "screenshot") (str_of r.screenshot) end))))))))

-- Whether a field is there.
unfoldable pub has_field : Text → Fields → Bool
has_field name end = false
has_field name (field k v fs) = if text_eq name k then true else has_field name fs

-- The answer has the headers, the body, its type and the screenshot exactly if the engine returned
-- them, and always the status that the engine gave.
pub resolution-fields :
    (r : SolveResult)
    → (let fs = to_challenge_resolution r in
        (has_field (codes "headers") fs ≡ is_some r.headers)
        × (has_field (codes "response") fs ≡ is_some r.response)
        × (has_field (codes "contentType") fs ≡ is_some r.content_type)
        × (has_field (codes "screenshot") fs ≡ is_some r.screenshot)
        × (attr (codes "status") fs null ≡ int (pos r.status)))
unfolding to_challenge_resolution has_field attr Text-discrete ℕ_discrete
resolution-fields r = ground arith
