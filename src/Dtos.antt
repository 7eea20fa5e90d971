-- ===== src/Dtos.antt =====
-- dtos.py: the parameters of a /v1 request and the types that they must have.
pub mod Check
use solverr.Base.{
  ℕ, ◌≡◌, Bool, true, false, not, ◌&&◌, ◌||◌, Option, none, some, List, [], ◌∷◌, if◌then◌else◌, All,
}
use solverr.Base.Text.{Text, codes}
use solverr.Base.Value.{
  Value, null, truth, int, decimal, str, arr, obj, Items, nil, cons, Fields, end, field, attr,
}

-- The declared types, with `_TYPE_OVERRIDES` put in: `any` is a parameter that is not checked.
pub data Kind : Type 0 where
  string whole boolean list object number any : Kind

-- `isinstance(value, expected)`, where `True` is no number.
unfoldable pub has_kind : Kind → Value → Bool
has_kind any v = true
has_kind string (str s) = true
has_kind whole (int n) = true
has_kind boolean (truth b) = true
has_kind list (arr xs) = true
has_kind object (obj fs) = true
has_kind number (int n) = true
has_kind number (decimal m e) = true
has_kind _ _ = false

-- `V1RequestBase.__annotations__`, in the order of the class.
unfoldable pub annotations : List (Text × Kind)
annotations =
    (codes "cmd", string)
    ∷ (codes "cookies", list)
    ∷ (codes "maxTimeout", any)
    ∷ (codes "proxy", object)
    ∷ (codes "session", string)
    ∷ (codes "session_ttl_minutes", whole)
    ∷ (codes "headers", any)
    ∷ (codes "userAgent", string)
    ∷ (codes "url", string)
    ∷ (codes "postData", string)
    ∷ (codes "returnOnlyCookies", boolean)
    ∷ (codes "returnScreenshot", boolean)
    ∷ (codes "download", boolean)
    ∷ (codes "returnRawHtml", boolean)
    ∷ (codes "waitInSeconds", number)
    ∷ (codes "disableMedia", boolean)
    ∷ (codes "tabs_till_verify", whole)
    ∷ (codes "engine", string)
    ∷ []

-- `getattr(req, name, None)`
abbrev pub get_attr : Fields → Text → Value
get_attr req name = attr name req null

-- The parameter that is refused, if one is.
pub data TypeCheck : Type 0 where
  fine : TypeCheck
  wrong_type : Text → Kind → TypeCheck
  wrong_cookie : TypeCheck

abbrev pub accepts : Kind → Value → Bool
accepts kind null = true
accepts kind v = has_kind kind v

unfoldable pub check_types : List (Text × Kind) → Fields → TypeCheck
unfolding has_kind attr
check_types [] req = fine
check_types (a ∷ rows) req =
    let rest = check_types rows req in
    if accepts a.1 (get_attr req a.0) then rest else wrong_type a.0 a.1

unfoldable pub are_objects : Items → Bool
are_objects nil = true
are_objects (cons (obj fs) xs) = are_objects xs
are_objects (cons v xs) = false

-- `req.cookies or []`, which is a list once the types are checked.
unfoldable pub check_cookies : Value → TypeCheck
unfolding are_objects
check_cookies (arr xs) = if are_objects xs then fine else wrong_cookie
check_cookies v = fine

unfoldable pub validate_request_types : Fields → TypeCheck
unfolding check_types check_cookies
validate_request_types req = elim (check_types annotations req) [
  | fine ↦ check_cookies (get_attr req (codes "cookies"))
  | refused ↦ refused
]
