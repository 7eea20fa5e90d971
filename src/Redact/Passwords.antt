-- ===== src/Redact/Passwords.antt =====
-- The log's copies of URLs that differ in their passwords.
use solverr.Base.{
  ℕ, ◌≡◌, ◌≢◌, refl, sym, ap, ◌∙◌, ◌⊎◌, inl, inr, Bool, true, some, is_some, [], ◌∷◌, arith,
}
use solverr.Base.Split.{
  Parts, urlsplit, urlunsplit, password, hostport, userinfo, split_scheme, split_netloc,
}
use solverr.Base.Url.{clean, drop_control}
use solverr.Base.Text.{Text, cut, contains}
use solverr.Base.Value.{Value, null, truth, int, decimal, str, obj, arr}
use solverr.Redact.Alike.{OtherPassword, AlikeUrl, AlikeServer}
use solverr.Redact.Body.{mask, redact_address, redact_proxy_url}
use solverr.Redact.Url.{url, proxy_url, username, mask_parts, masked_netloc}

abbrev masked_parts : Parts → Parts
masked_parts p = record {
  scheme = p.scheme;
  netloc = masked_netloc p.netloc;
  path = p.path;
  query = p.query;
  fragment = p.fragment;
}

mask_parts-some :
    (value : Text) (p : Parts)
    → is_some (password p.netloc) ≡ true
    → mask_parts value p ≡ urlunsplit (masked_parts p)
unfolding mask_parts
mask_parts-some value p h = ground (arith, h)

url-some :
    (refuses : Text → Bool) (s : Text) (p : Parts)
    → urlsplit refuses s ≡ some p
    → is_some (password p.netloc) ≡ true
    → url refuses s ≡ urlunsplit (masked_parts p)
unfolding url
url-some refuses s p e h = rw (url, e) (mask_parts-some s p h)

masked_parts_eq :
    (p q : Parts)
    → p.scheme ≡ q.scheme
    → username p.netloc ≡ username q.netloc
    → hostport p.netloc ≡ hostport q.netloc
    → p.path ≡ q.path
    → p.query ≡ q.query
    → p.fragment ≡ q.fragment
    → masked_parts p ≡ masked_parts q
masked_parts_eq p q a b c d e f = cc (a, b, c, d, e, f)

url-OtherPassword :
    (refuses : Text → Bool) (s t : Text) → OtherPassword refuses s t → url refuses s ≡ url refuses t
url-OtherPassword refuses s t h =
    url-some refuses s h.parts h.splits h.has_password
    ∙ ap urlunsplit (
        masked_parts_eq h.parts h.other h.same_scheme h.same_user h.same_host h.same_path
          h.same_query h.same_fragment)
    ∙ sym (url-some refuses t h.other h.other_splits h.other_has)

proxy_url-changed :
    (refuses : Text → Bool) (c : ℕ) (s : Text)
    → url refuses (c ∷ s) ≢ c ∷ s
    → proxy_url refuses (c ∷ s) ≡ url refuses (c ∷ s)
unfolding proxy_url
proxy_url-changed refuses c s h = ground (arith, h)

no_password-empty :
    (refuses : Text → Bool) (p : Parts)
    → urlsplit refuses [] ≡ some p
    → ¬ (is_some (password p.netloc) ≡ true)
unfolding urlsplit password userinfo contains split_scheme split_netloc clean drop_control cut
no_password-empty refuses p e h = ground (arith, e, h)

proxy_url-OtherPassword :
    (refuses : Text → Bool) (s t : Text)
    → OtherPassword refuses s t
    → proxy_url refuses s ≡ proxy_url refuses t
proxy_url-OtherPassword refuses [] t h =
    elim (no_password-empty refuses h.parts h.splits h.has_password) [ ]
proxy_url-OtherPassword refuses (c ∷ s) [] h =
    elim (no_password-empty refuses h.other h.other_splits h.other_has) [ ]
proxy_url-OtherPassword refuses (c ∷ s) (d ∷ t) h =
    proxy_url-changed refuses c s h.is_changed
    ∙ url-OtherPassword refuses (c ∷ s) (d ∷ t) h
    ∙ sym (proxy_url-changed refuses d t h.other_changed)

pub proxy_text_eq :
    (refuses : Text → Bool) (s t : Text)
    → (s ≡ t) ⊎ OtherPassword refuses s t
    → proxy_url refuses s ≡ proxy_url refuses t
proxy_text_eq refuses s t (inl e) = ap (proxy_url refuses) e
proxy_text_eq refuses s t (inr h) = proxy_url-OtherPassword refuses s t h

url_text_eq :
    (refuses : Text → Bool) (s t : Text)
    → (s ≡ t) ⊎ OtherPassword refuses s t
    → url refuses s ≡ url refuses t
url_text_eq refuses s t (inl e) = ap (url refuses) e
url_text_eq refuses s t (inr h) = url-OtherPassword refuses s t h

pub redact_address-AlikeUrl :
    (refuses : Text → Bool) (v w : Value)
    → AlikeUrl refuses v w
    → redact_address refuses v ≡ redact_address refuses w
unfolding redact_address
redact_address-AlikeUrl refuses (str s) w (t, e, h) = rw e (ap str (url_text_eq refuses s t h))
redact_address-AlikeUrl refuses (obj fs) w h = ap (redact_address refuses) h
redact_address-AlikeUrl refuses (arr vs) w h = ap (redact_address refuses) h
redact_address-AlikeUrl refuses null w h = ap (redact_address refuses) h
redact_address-AlikeUrl refuses (truth b) w h = ap (redact_address refuses) h
redact_address-AlikeUrl refuses (int n) w h = ap (redact_address refuses) h
redact_address-AlikeUrl refuses (decimal n k) w h = ap (redact_address refuses) h

no_text-mask :
    (refuses : Text → Bool) (w : Value)
    → ((s : Text) → ¬ (w ≡ str s))
    → mask ≡ redact_proxy_url refuses w
unfolding redact_proxy_url
no_text-mask refuses (str s) h = elim (h s refl) [ ]
no_text-mask refuses (obj fs) h = refl
no_text-mask refuses (arr vs) h = refl
no_text-mask refuses null h = refl
no_text-mask refuses (truth b) h = refl
no_text-mask refuses (int n) h = refl
no_text-mask refuses (decimal n k) h = refl

pub redact_proxy_url-AlikeServer :
    (refuses : Text → Bool) (v w : Value)
    → AlikeServer refuses v w
    → redact_proxy_url refuses v ≡ redact_proxy_url refuses w
unfolding redact_proxy_url
redact_proxy_url-AlikeServer refuses (str s) w (t, e, h) =
    rw e (ap str (proxy_text_eq refuses s t h))
redact_proxy_url-AlikeServer refuses (obj fs) w h = no_text-mask refuses w h
redact_proxy_url-AlikeServer refuses (arr vs) w h = no_text-mask refuses w h
redact_proxy_url-AlikeServer refuses null w h = no_text-mask refuses w h
redact_proxy_url-AlikeServer refuses (truth b) w h = no_text-mask refuses w h
redact_proxy_url-AlikeServer refuses (int n) w h = no_text-mask refuses w h
redact_proxy_url-AlikeServer refuses (decimal n k) w h = no_text-mask refuses w h
