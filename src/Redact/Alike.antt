-- ===== src/Redact/Alike.antt =====
-- Requests that differ in nothing but credentials. What a credential is, is said field by field, by
-- tables of names that are this file's own and on the shapes of the two values, and not by what the
-- log makes of them.
use solverr.Base.{
  zero, not, ℕ, ◌≡◌, ◌≢◌, ◌⊎◌, Bool, true, false, some, is_some, List, [], ◌∷◌, map, if◌then◌else◌,
}
use solverr.Base.Int.{pos}
use solverr.Base.Split.{Parts, urlsplit, password, hostport}
use solverr.Base.Text.{Text, Text-discrete, text_eq, codes, cut, split, lower}
use solverr.Base.Value.{
  Value, null, truth, int, decimal, str, obj, arr, Fields, field, end, Items, cons, nil,
}
use solverr.Redact.{masked}
use solverr.Redact.Body.{Rule, secret, cookies, headers, post_data, proxy, address, plain}
use solverr.Redact.Url.{url, username}

-- The names of the fields that hold credentials, or something that credentials are in.
abbrev credentials : List (Text × Rule)
credentials =
    (codes "password", secret)
    ∷ (codes "turnstile_token", secret)
    ∷ (codes "cookies", cookies)
    ∷ (codes "headers", headers)
    ∷ (codes "postData", post_data)
    ∷ (codes "proxy", proxy)
    ∷ (codes "url", address)
    ∷ []

abbrev place_in : List (Text × Rule) → Text → Rule
place_in [] k = plain
place_in ((name, r) ∷ rs) k = if text_eq k name then r else place_in rs k

-- What a field of this name holds.
unfoldable pub place_of : Text → Rule
unfolding Text-discrete
place_of k = place_in credentials k

abbrev sign_ins : List Text
sign_ins =
    codes "authorization" ∷ codes "proxy-authorization" ∷ codes "cookie" ∷ codes "set-cookie" ∷ []

abbrev one_of : List Text → Text → Bool
one_of [] k = false
one_of (name ∷ names) k = if text_eq k name then true else one_of names k

-- The headers that sign a caller in, by their names in any case.
unfoldable pub signs_in : Text → Bool
unfolding lower Text-discrete
signs_in k = one_of sign_ins (lower k)

-- The same names in the same order.
abbrev pub SameNames : Fields → Fields → Type 0
SameNames end gs = gs ≡ end
SameNames (field k v fs) gs = (w : Value) × (hs : Fields) × (gs ≡ field k w hs) × SameNames fs hs

-- The same fields, but for the values of those that `hidden` picks.
abbrev pub SameBut : (Text → Bool) → Fields → Fields → Type 0
SameBut hidden end gs = gs ≡ end
SameBut hidden (field k v fs) gs =
    (w : Value) × (hs : Fields) × (gs ≡ field k w hs)
    × ((hidden k ≡ true) ⊎ (v ≡ w))
    × SameBut hidden fs hs

abbrev pub IsObject : Value → Type 0
IsObject v = (fs : Fields) × (v ≡ obj fs)

abbrev pub is_value_name : Text → Bool
is_value_name k = text_eq k (codes "value")

-- Two cookies with the same fields but their values, or two entries that are no cookies.
abbrev pub AlikeCookie : Value → Value → Type 0
AlikeCookie (obj fs) w = (gs : Fields) × (w ≡ obj gs) × SameBut is_value_name fs gs
AlikeCookie v w = ¬ IsObject w

abbrev pub AlikeCookieList : Items → Items → Type 0
AlikeCookieList nil ws = ws ≡ nil
AlikeCookieList (cons v vs) ws =
    (w : Value) × (us : Items) × (ws ≡ cons w us) × AlikeCookie v w × AlikeCookieList vs us

abbrev pub AlikeCookies : Value → Value → Type 0
AlikeCookies (arr vs) w = (ws : Items) × (w ≡ arr ws) × AlikeCookieList vs ws
AlikeCookies (obj fs) w = (gs : Fields) × (w ≡ obj gs) × SameNames fs gs
AlikeCookies (str s) w = (t : Text) × (w ≡ str t)
AlikeCookies v w = v ≡ w

abbrev pub AlikeHeaders : Value → Value → Type 0
AlikeHeaders (obj fs) w = (gs : Fields) × (w ≡ obj gs) × SameBut signs_in fs gs
AlikeHeaders (str (c ∷ s)) w = (d : ℕ) × (t : Text) × (w ≡ str (d ∷ t))
AlikeHeaders (arr (cons v vs)) w = (u : Value) × (us : Items) × (w ≡ arr (cons u us))
AlikeHeaders v w = v ≡ w

-- Forms with the same names, and values at the same names.
abbrev pub AlikePost : Value → Value → Type 0
AlikePost (str s) w =
    (t : Text) × (w ≡ str t)
    × (map (λ p. masked (cut b'=' p)) (split b'&' s)
        ≡ map (λ p. masked (cut b'=' p)) (split b'&' t))
AlikePost (obj fs) w = (gs : Fields) × (w ≡ obj gs) × SameNames fs gs
AlikePost (arr vs) w = (ws : Items) × (w ≡ arr ws)
AlikePost v w = v ≡ w

-- Two URLs with passwords that have all other parts in common. The two passwords are not themselves
-- what the log writes in their place.
pub record OtherPassword (refuses : Text → Bool) (s t : Text) : Type 0 where
  pub parts : Parts
  pub other : Parts
  pub splits : urlsplit refuses s ≡ some parts
  pub other_splits : urlsplit refuses t ≡ some other
  pub has_password : is_some (password parts.netloc) ≡ true
  pub other_has : is_some (password other.netloc) ≡ true
  pub same_scheme : parts.scheme ≡ other.scheme
  pub same_user : username parts.netloc ≡ username other.netloc
  pub same_host : hostport parts.netloc ≡ hostport other.netloc
  pub same_path : parts.path ≡ other.path
  pub same_query : parts.query ≡ other.query
  pub same_fragment : parts.fragment ≡ other.fragment
  pub is_changed : url refuses s ≢ s
  pub other_changed : url refuses t ≢ t

abbrev pub AlikeUrl : (Text → Bool) → Value → Value → Type 0
AlikeUrl refuses (str s) w = (t : Text) × (w ≡ str t) × ((s ≡ t) ⊎ OtherPassword refuses s t)
AlikeUrl refuses v w = v ≡ w

-- A value that is no secret, since there is nothing in it.
unfoldable pub is_nothing : Value → Bool
is_nothing null = true
is_nothing (truth b) = not b
is_nothing (int (pos zero)) = true
is_nothing (int n) = false
is_nothing (decimal (pos zero) e) = true
is_nothing (decimal m e) = false
is_nothing (str []) = true
is_nothing (str (c ∷ s)) = false
is_nothing (obj end) = true
is_nothing (obj (field k v fs)) = false
is_nothing (arr nil) = true
is_nothing (arr (cons v vs)) = false

-- A secret that is given, or the same value.
abbrev pub AlikeSecret : Value → Value → Type 0
AlikeSecret v w = ((is_nothing v ≡ false) × (is_nothing w ≡ false)) ⊎ (v ≡ w)

-- The `url` of a proxy; one that is no text is hidden whole.
abbrev pub AlikeServer : (Text → Bool) → Value → Value → Type 0
AlikeServer refuses (str s) w = (t : Text) × (w ≡ str t) × ((s ≡ t) ⊎ OtherPassword refuses s t)
AlikeServer refuses v w = (s : Text) → ¬ (w ≡ str s)

-- What a field's rule lets its values differ in, from what they may differ in as plain values and as
-- proxies.
abbrev pub AlikeBy : (Text → Bool) → Rule → Value → Value → Type 0 → Type 0 → Type 0
AlikeBy refuses secret v w as_plain as_proxy = AlikeSecret v w
AlikeBy refuses cookies v w as_plain as_proxy = AlikeCookies v w
AlikeBy refuses headers v w as_plain as_proxy = AlikeHeaders v w
AlikeBy refuses post_data v w as_plain as_proxy = AlikePost v w
AlikeBy refuses proxy v w as_plain as_proxy = as_proxy
AlikeBy refuses address v w as_plain as_proxy = AlikeUrl refuses v w
AlikeBy refuses plain v w as_plain as_proxy = as_plain

-- The same for a field of a proxy.
abbrev pub AlikeProxyBy : (Text → Bool) → Rule → Value → Value → Type 0 → Type 0
AlikeProxyBy refuses secret v w as_plain = AlikeSecret v w
AlikeProxyBy refuses address v w as_plain = AlikeServer refuses v w
AlikeProxyBy refuses other v w as_plain = as_plain

unfoldable mutual
  unfolding place_of is_nothing

  pub Alike : (Text → Bool) → Value → Value → Type 0
  Alike refuses (obj fs) w = (gs : Fields) × (w ≡ obj gs) × AlikeFields refuses fs gs
  Alike refuses (arr vs) w = (ws : Items) × (w ≡ arr ws) × AlikeItems refuses vs ws
  Alike refuses null w = null ≡ w
  Alike refuses (truth b) w = truth b ≡ w
  Alike refuses (int n) w = int n ≡ w
  Alike refuses (decimal n e) w = decimal n e ≡ w
  Alike refuses (str s) w = str s ≡ w

  pub AlikeItems : (Text → Bool) → Items → Items → Type 0
  AlikeItems refuses nil ws = ws ≡ nil
  AlikeItems refuses (cons v vs) ws =
      (w : Value) × (us : Items) × (ws ≡ cons w us) × Alike refuses v w × AlikeItems refuses vs us

  pub AlikeFields : (Text → Bool) → Fields → Fields → Type 0
  AlikeFields refuses end gs = gs ≡ end
  AlikeFields refuses (field k v fs) gs =
      (w : Value) × (hs : Fields) × (gs ≡ field k w hs)
      × AlikeBy refuses (place_of k) v w (Alike refuses v w) (AlikeProxy refuses v w)
      × AlikeFields refuses fs hs

  -- Proxies; of one in a shape that is not known nothing is shown.
  pub AlikeProxy : (Text → Bool) → Value → Value → Type 0
  AlikeProxy refuses (obj fs) w = (gs : Fields) × (w ≡ obj gs) × AlikeProxyFields refuses fs gs
  AlikeProxy refuses (str s) w = (t : Text) × (w ≡ str t) × ((s ≡ t) ⊎ OtherPassword refuses s t)
  AlikeProxy refuses (arr vs) w = arr vs ≡ w
  AlikeProxy refuses null w = null ≡ w
  AlikeProxy refuses (truth b) w = (c : Bool) × (w ≡ truth c)
  AlikeProxy refuses (int n) w = int n ≡ w
  AlikeProxy refuses (decimal n e) w = decimal n e ≡ w

  pub AlikeProxyFields : (Text → Bool) → Fields → Fields → Type 0
  AlikeProxyFields refuses end gs = gs ≡ end
  AlikeProxyFields refuses (field k v fs) gs =
      (w : Value) × (hs : Fields) × (gs ≡ field k w hs)
      × AlikeProxyBy refuses (place_of k) v w (Alike refuses v w)
      × AlikeProxyFields refuses fs hs
