-- ===== src/Redact/Secrecy.antt =====
-- The log's copies of fields that differ in credentials.
use solverr.Base.{
  zero, suc, false, ℕ, ◌≡◌, refl, sym, ap, ◌∙◌, ◌⊎◌, inl, inr, Bool, true, false, Option, none,
  some, List, [], ◌∷◌, ◌++◌, map, if◌then◌else◌, arith,
}
use solverr.Base.Text.{Text, cut, split}
use solverr.Base.Value.{
  Value, null, truth, int, decimal, str, obj, arr, Fields, field, end, Items, cons, nil,
}
use solverr.Redact.{masked, redacted, redact_pair, form, join}
use solverr.Base.Int.{pos, negsuc}
use solverr.Geo.Egress.{given}
use solverr.Redact.Alike.{
  is_nothing, SameNames, SameBut, IsObject, is_value_name, AlikeCookie, AlikeCookieList,
  AlikeCookies, AlikeHeaders, AlikePost, AlikeSecret, signs_in,
}
use solverr.Redact.Body.{
  mask, is_true, is_secret_header, mask_all, mask_value, mask_cookie, mask_cookies, redact_cookies,
  mask_headers, mask_unknown, redact_headers, redact_post_data,
}

mask_all-SameNames : (fs gs : Fields) → SameNames fs gs → mask_all fs ≡ mask_all gs
unfolding mask_all
mask_all-SameNames end gs h = rw h refl
mask_all-SameNames (field k v fs) gs (w, hs, e, h) =
    rw e (ap (field k mask) (mask_all-SameNames fs hs h))

-- A field that may differ where it is hidden is the same once it is masked there.
masked_field :
    (b : Bool) (v w : Value)
    → (b ≡ true) ⊎ (v ≡ w)
    → (if b then mask else v) ≡ (if b then mask else w)
masked_field true v w h = refl
masked_field false v w (inl e) = ground arith
masked_field false v w (inr e) = e

mask_value-SameBut : (fs gs : Fields) → SameBut is_value_name fs gs → mask_value fs ≡ mask_value gs
unfolding mask_value
mask_value-SameBut end gs h = rw h refl
mask_value-SameBut (field k v fs) gs (w, hs, e, p, h) =
    rw e (cc (masked_field (is_value_name k) v w p, mask_value-SameBut fs hs h))

is_secret_header-signs_in : (k : Text) → is_secret_header k ≡ signs_in k
unfolding signs_in
is_secret_header-signs_in k = ground arith

masked_header :
    (k : Text) (v w : Value)
    → (signs_in k ≡ true) ⊎ (v ≡ w)
    → (if is_secret_header k then mask else v) ≡ (if is_secret_header k then mask else w)
masked_header k v w h = rw (is_secret_header-signs_in k) (masked_field (signs_in k) v w h)

mask_headers-SameBut : (fs gs : Fields) → SameBut signs_in fs gs → mask_headers fs ≡ mask_headers gs
unfolding mask_headers
mask_headers-SameBut end gs h = rw h refl
mask_headers-SameBut (field k v fs) gs (w, hs, e, p, h) =
    rw e (cc (masked_header k v w p, mask_headers-SameBut fs hs h))

mask_cookie-other : (w : Value) → ¬ IsObject w → mask ≡ mask_cookie w
unfolding mask_cookie
mask_cookie-other (obj fs) h = elim (h (fs, refl)) [ ]
mask_cookie-other null h = refl
mask_cookie-other (truth b) h = refl
mask_cookie-other (int n) h = refl
mask_cookie-other (decimal n e) h = refl
mask_cookie-other (str s) h = refl
mask_cookie-other (arr vs) h = refl

mask_cookie-AlikeCookie : (v w : Value) → AlikeCookie v w → mask_cookie v ≡ mask_cookie w
unfolding mask_cookie
mask_cookie-AlikeCookie (obj fs) w (gs, e, h) = rw e (ap obj (mask_value-SameBut fs gs h))
mask_cookie-AlikeCookie null w h = mask_cookie-other w h
mask_cookie-AlikeCookie (truth b) w h = mask_cookie-other w h
mask_cookie-AlikeCookie (int n) w h = mask_cookie-other w h
mask_cookie-AlikeCookie (decimal n e) w h = mask_cookie-other w h
mask_cookie-AlikeCookie (str s) w h = mask_cookie-other w h
mask_cookie-AlikeCookie (arr vs) w h = mask_cookie-other w h

mask_cookies-AlikeCookieList :
    (vs ws : Items) → AlikeCookieList vs ws → mask_cookies vs ≡ mask_cookies ws
unfolding mask_cookies
mask_cookies-AlikeCookieList nil ws h = rw h refl
mask_cookies-AlikeCookieList (cons v vs) ws (w, us, e, p, h) =
    rw e (cc (mask_cookie-AlikeCookie v w p, mask_cookies-AlikeCookieList vs us h))

pub redact_cookies-AlikeCookies :
    (v w : Value) → AlikeCookies v w → redact_cookies v ≡ redact_cookies w
unfolding redact_cookies
redact_cookies-AlikeCookies (arr vs) w (ws, e, h) =
    rw e (ap arr (mask_cookies-AlikeCookieList vs ws h))
redact_cookies-AlikeCookies (obj fs) w (gs, e, h) = rw e (ap obj (mask_all-SameNames fs gs h))
redact_cookies-AlikeCookies (str s) w (t, e) = rw e refl
redact_cookies-AlikeCookies null w h = ap redact_cookies h
redact_cookies-AlikeCookies (truth b) w h = ap redact_cookies h
redact_cookies-AlikeCookies (int n) w h = ap redact_cookies h
redact_cookies-AlikeCookies (decimal n e) w h = ap redact_cookies h

pub redact_headers-AlikeHeaders :
    (v w : Value) → AlikeHeaders v w → redact_headers v ≡ redact_headers w
unfolding redact_headers mask_unknown
redact_headers-AlikeHeaders (obj fs) w (gs, e, h) = rw e (ap obj (mask_headers-SameBut fs gs h))
redact_headers-AlikeHeaders (str []) w h = ap redact_headers h
redact_headers-AlikeHeaders (str (c ∷ s)) w (d, t, e) = rw e refl
redact_headers-AlikeHeaders (arr nil) w h = ap redact_headers h
redact_headers-AlikeHeaders (arr (cons v vs)) w (u, us, e) = rw e refl
redact_headers-AlikeHeaders null w h = ap redact_headers h
redact_headers-AlikeHeaders (truth b) w h = ap redact_headers h
redact_headers-AlikeHeaders (int n) w h = ap redact_headers h
redact_headers-AlikeHeaders (decimal n e) w h = ap redact_headers h

-- A pair's text, from its name and its value.
abbrev unmask : Text × Option Text → Text
unmask (name, none) = name
unmask (name, some value) = name ++ b'=' ∷ value

cut-none : (c : ℕ) (s : Text) → (cut c s).1 ≡ none → (cut c s).0 ≡ s
unfolding cut
cut-none c [] h = refl
cut-none c (d ∷ s) h = ground (arith, cut-none c s)

redact_pair-unmask : (p : Text) → redact_pair p ≡ unmask (masked (cut b'=' p))
unfolding redact_pair
redact_pair-unmask p = go (cut b'=' p) refl
  where
    go :
        (r : Text × Option Text)
        → cut b'=' p ≡ r
        → (elim r.1 [ none ↦ p | some value ↦ r.0 ++ b'=' ∷ redacted ]) ≡ unmask (masked r)
    go (name, none) e = sym (cut-none b'=' p (ap (λ r. r.1) e)) ∙ ap (λ r. r.0) e
    go (name, some value) e = refl

map-unmask : (ps : List Text) → map redact_pair ps ≡ map unmask (map (λ p. masked (cut b'=' p)) ps)
map-unmask [] = refl
map-unmask (p ∷ ps) = cc (redact_pair-unmask p, map-unmask ps)

-- The log's copy of a form is made of the names, and of where there are values.
form-join :
    (s : Text) → form s ≡ join b'&' (map unmask (map (λ p. masked (cut b'=' p)) (split b'&' s)))
unfolding form split cut join
form-join [] = refl
form-join (c ∷ s) = ap (join b'&') (map-unmask (split b'&' (c ∷ s)))

pub redact_post_data-AlikePost :
    (v w : Value) → AlikePost v w → redact_post_data v ≡ redact_post_data w
unfolding redact_post_data
redact_post_data-AlikePost (str s) w (t, e, h) =
    rw e (ap str (form-join s ∙ ap (λ l. join b'&' (map unmask l)) h ∙ sym (form-join t)))
redact_post_data-AlikePost (obj fs) w (gs, e, h) = rw e (ap obj (mask_all-SameNames fs gs h))
redact_post_data-AlikePost (arr vs) w (ws, e) = rw e refl
redact_post_data-AlikePost null w h = ap redact_post_data h
redact_post_data-AlikePost (truth b) w h = ap redact_post_data h
redact_post_data-AlikePost (int n) w h = ap redact_post_data h
redact_post_data-AlikePost (decimal n e) w h = ap redact_post_data h

is_true-given : (v : Value) → is_nothing v ≡ false → is_true v ≡ true
unfolding is_true is_nothing given
is_true-given null h = absurd (ground arith)
is_true-given (truth true) h = refl
is_true-given (truth false) h = absurd (ground arith)
is_true-given (int (pos zero)) h = absurd (ground arith)
is_true-given (int (pos (suc n))) h = refl
is_true-given (int (negsuc n)) h = refl
is_true-given (decimal (pos zero) e) h = absurd (ground arith)
is_true-given (decimal (pos (suc n)) e) h = refl
is_true-given (decimal (negsuc n) e) h = refl
is_true-given (str []) h = absurd (ground arith)
is_true-given (str (c ∷ s)) h = refl
is_true-given (obj end) h = absurd (ground arith)
is_true-given (obj (field k v fs)) h = refl
is_true-given (arr nil) h = absurd (ground arith)
is_true-given (arr (cons v vs)) h = refl

-- A secret that is given is masked; else the rest is as for the same value.
pub secret_eq :
    (v w x y : Value)
    → AlikeSecret v w
    → (v ≡ w → x ≡ y)
    → (if is_true v then mask else x) ≡ (if is_true w then mask else y)
secret_eq v w x y (inl (a, b)) k = rw (is_true-given v a, is_true-given w b) refl
secret_eq v w x y (inr e) k = rw e (ap (λ z. if is_true w then mask else z) (k e))
