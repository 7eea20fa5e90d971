-- ===== src/Redact/Body.antt =====
-- redact.py: `body`, the log's copy of a request or of a response, with the rules of its fields.
use solverr.Base.{Bool, ◌||◌, is_some, [], if◌then◌else◌}
use solverr.Base.Text.{Text, Text-discrete, text_eq, codes, lower}
use solverr.Base.Value.{
  Value, null, truth, int, decimal, str, obj, arr, Fields, field, end, Items, cons, nil,
}
use solverr.Geo.Egress.{given}
use solverr.Redact.{redacted, form}
use solverr.Redact.Url.{url, proxy_url}

abbrev pub mask : Value
mask = str redacted

-- Which rule of `body` a field's name has.
pub data Rule : Type 0 where
  secret : Rule
  cookies : Rule
  headers : Rule
  post_data : Rule
  proxy : Rule
  address : Rule
  plain : Rule

unfoldable pub rule_of : Text → Rule
unfolding Text-discrete
rule_of k =
    if text_eq k (codes "password") || text_eq k (codes "turnstile_token")
    then secret
    else if text_eq k (codes "cookies")
    then cookies
    else if text_eq k (codes "headers")
    then headers
    else if text_eq k (codes "postData")
    then post_data
    else if text_eq k (codes "proxy")
    then proxy
    else if text_eq k (codes "url")
    then address
    else plain

-- The value's truth.
unfoldable pub is_true : Value → Bool
unfolding given
is_true v = is_some (given v)

-- `{k: REDACTED for k in value}`
unfoldable pub mask_all : Fields → Fields
mask_all end = end
mask_all (field k v fs) = field k mask (mask_all fs)

-- `dict(c, value=REDACTED)` of a cookie that has a value, else the cookie.
unfoldable pub mask_value : Fields → Fields
unfolding Text-discrete
mask_value end = end
mask_value (field k v fs) = field k (if text_eq k (codes "value") then mask else v) (mask_value fs)

unfoldable pub mask_cookie : Value → Value
unfolding mask_value
mask_cookie (obj fs) = obj (mask_value fs)
mask_cookie other = mask

unfoldable pub mask_cookies : Items → Items
unfolding mask_cookie
mask_cookies nil = nil
mask_cookies (cons v vs) = cons (mask_cookie v) (mask_cookies vs)

-- `_cookies`
unfoldable pub redact_cookies : Value → Value
unfolding mask_cookies mask_all
redact_cookies (arr vs) = arr (mask_cookies vs)
redact_cookies (obj fs) = obj (mask_all fs)
redact_cookies (str s) = mask
redact_cookies other = other

abbrev pub is_secret_header : Text → Bool
is_secret_header k =
    text_eq (lower k) (codes "cookie")
    || text_eq (lower k) (codes "set-cookie")
    || text_eq (lower k) (codes "authorization")
    || text_eq (lower k) (codes "proxy-authorization")

unfoldable pub mask_headers : Fields → Fields
unfolding lower Text-discrete
mask_headers end = end
mask_headers (field k v fs) = field k (if is_secret_header k then mask else v) (mask_headers fs)

-- A value of a shape that is not expected: kept if there is nothing in it.
unfoldable pub mask_unknown : Value → Value
mask_unknown null = null
mask_unknown (str []) = str []
mask_unknown (arr nil) = arr nil
mask_unknown (obj end) = obj end
mask_unknown other = mask

-- `_headers`
unfoldable pub redact_headers : Value → Value
unfolding mask_headers mask_unknown
redact_headers (obj fs) = obj (mask_headers fs)
redact_headers other = mask_unknown other

-- `_post_data`
unfoldable pub redact_post_data : Value → Value
unfolding form mask_all
redact_post_data (str s) = str (form s)
redact_post_data (obj fs) = obj (mask_all fs)
redact_post_data (arr vs) = mask
redact_post_data other = other

unfoldable pub redact_address : (Text → Bool) → Value → Value
unfolding url
redact_address refuses (str s) = str (url refuses s)
redact_address refuses other = other

-- The `url` of a proxy.
unfoldable pub redact_proxy_url : (Text → Bool) → Value → Value
unfolding proxy_url
redact_proxy_url refuses (str s) = str (proxy_url refuses s)
redact_proxy_url refuses other = mask

-- The value of a field, for the two ways in which its own fields are gone through.
unfoldable pub apply_rule : (Text → Bool) → Rule → Value → Value → Value → Value
unfolding is_true redact_cookies redact_headers redact_post_data redact_address
apply_rule refuses secret v walked proxied = if is_true v then mask else walked
apply_rule refuses cookies v walked proxied = redact_cookies v
apply_rule refuses headers v walked proxied = redact_headers v
apply_rule refuses post_data v walked proxied = redact_post_data v
apply_rule refuses proxy v walked proxied = proxied
apply_rule refuses address v walked proxied = redact_address refuses v
apply_rule refuses plain v walked proxied = walked

-- The value of a proxy's field.
unfoldable pub apply_proxy_rule : (Text → Bool) → Rule → Value → Value → Value
unfolding is_true redact_proxy_url
apply_proxy_rule refuses secret v walked = if is_true v then mask else walked
apply_proxy_rule refuses address v walked = redact_proxy_url refuses v
apply_proxy_rule refuses other v walked = walked

unfoldable mutual
  unfolding apply_rule apply_proxy_rule rule_of proxy_url mask_unknown

  -- `body`
  pub body : (Text → Bool) → Value → Value
  body refuses (obj fs) = obj (body_fields refuses fs)
  body refuses (arr vs) = arr (body_items refuses vs)
  body refuses null = null
  body refuses (truth b) = truth b
  body refuses (int n) = int n
  body refuses (decimal n e) = decimal n e
  body refuses (str s) = str s

  pub body_items : (Text → Bool) → Items → Items
  body_items refuses nil = nil
  body_items refuses (cons v vs) = cons (body refuses v) (body_items refuses vs)

  pub body_fields : (Text → Bool) → Fields → Fields
  body_fields refuses end = end
  body_fields refuses (field k v fs) =
      field k (apply_rule refuses (rule_of k) v (body refuses v) (redact_proxy refuses v))
        (body_fields refuses fs)

  -- `_proxy`
  pub redact_proxy : (Text → Bool) → Value → Value
  redact_proxy refuses (str s) = str (proxy_url refuses s)
  redact_proxy refuses (obj fs) = obj (proxy_fields refuses fs)
  redact_proxy refuses null = null
  redact_proxy refuses (truth b) = mask
  redact_proxy refuses (int n) = mask
  redact_proxy refuses (decimal n e) = mask
  redact_proxy refuses (arr vs) = mask_unknown (arr vs)

  pub proxy_fields : (Text → Bool) → Fields → Fields
  proxy_fields refuses end = end
  proxy_fields refuses (field k v fs) =
      field k (apply_proxy_rule refuses (rule_of k) v (body refuses v)) (proxy_fields refuses fs)
