-- ===== src/Redact/Logged.antt =====
-- The log's copies of requests that differ in credentials.
use solverr.Base.{arith, ◌≡◌, refl, ap, sym, Bool}
use solverr.Base.Text.{Text}
use solverr.Base.Value.{
  Value, null, truth, int, decimal, str, obj, arr, Fields, field, end, Items, cons, nil,
}
use solverr.Redact.Alike.{
  place_of, AlikeBy, AlikeProxyBy, Alike, AlikeItems, AlikeFields, AlikeProxy, AlikeProxyFields,
}
use solverr.Redact.Body.{
  Rule, secret, cookies, headers, post_data, proxy, address, plain, rule_of, apply_rule,
  apply_proxy_rule, body, body_items, body_fields, redact_proxy, proxy_fields,
}
use solverr.Redact.Passwords.{redact_address-AlikeUrl, redact_proxy_url-AlikeServer, proxy_text_eq}
use solverr.Redact.Secrecy.{
  redact_cookies-AlikeCookies, redact_headers-AlikeHeaders, redact_post_data-AlikePost, secret_eq,
}

apply_rule_eq :
    (refuses : Text → Bool) (r : Rule) (v w : Value)
    → AlikeBy refuses r v w (Alike refuses v w) (AlikeProxy refuses v w)
    → (Alike refuses v w → body refuses v ≡ body refuses w)
    → (AlikeProxy refuses v w → redact_proxy refuses v ≡ redact_proxy refuses w)
    → apply_rule refuses r v (body refuses v) (redact_proxy refuses v)
      ≡ apply_rule refuses r w (body refuses w) (redact_proxy refuses w)
unfolding apply_rule
apply_rule_eq refuses secret v w h b p =
    secret_eq v w (body refuses v) (body refuses w) h (ap (body refuses))
apply_rule_eq refuses cookies v w h b p = redact_cookies-AlikeCookies v w h
apply_rule_eq refuses headers v w h b p = redact_headers-AlikeHeaders v w h
apply_rule_eq refuses post_data v w h b p = redact_post_data-AlikePost v w h
apply_rule_eq refuses proxy v w h b p = p h
apply_rule_eq refuses address v w h b p = redact_address-AlikeUrl refuses v w h
apply_rule_eq refuses plain v w h b p = b h

apply_proxy_rule_eq :
    (refuses : Text → Bool) (r : Rule) (v w : Value)
    → AlikeProxyBy refuses r v w (Alike refuses v w)
    → (Alike refuses v w → body refuses v ≡ body refuses w)
    → apply_proxy_rule refuses r v (body refuses v) ≡ apply_proxy_rule refuses r w (body refuses w)
unfolding apply_proxy_rule
apply_proxy_rule_eq refuses secret v w h b =
    secret_eq v w (body refuses v) (body refuses w) h (ap (body refuses))
apply_proxy_rule_eq refuses address v w h b = redact_proxy_url-AlikeServer refuses v w h
apply_proxy_rule_eq refuses cookies v w h b = b h
apply_proxy_rule_eq refuses headers v w h b = b h
apply_proxy_rule_eq refuses post_data v w h b = b h
apply_proxy_rule_eq refuses proxy v w h b = b h
apply_proxy_rule_eq refuses plain v w h b = b h

rule_of-place_of : (k : Text) → rule_of k ≡ place_of k
unfolding rule_of place_of
rule_of-place_of k = ground arith

-- A field by its name.
field_eq :
    (refuses : Text → Bool) (k : Text) (v w : Value)
    → AlikeBy refuses (place_of k) v w (Alike refuses v w) (AlikeProxy refuses v w)
    → (Alike refuses v w → body refuses v ≡ body refuses w)
    → (AlikeProxy refuses v w → redact_proxy refuses v ≡ redact_proxy refuses w)
    → apply_rule refuses (rule_of k) v (body refuses v) (redact_proxy refuses v)
      ≡ apply_rule refuses (rule_of k) w (body refuses w) (redact_proxy refuses w)
field_eq refuses k v w h b p =
    rw (rule_of-place_of k) (apply_rule_eq refuses (place_of k) v w h b p)

proxy_field_eq :
    (refuses : Text → Bool) (k : Text) (v w : Value)
    → AlikeProxyBy refuses (place_of k) v w (Alike refuses v w)
    → (Alike refuses v w → body refuses v ≡ body refuses w)
    → apply_proxy_rule refuses (rule_of k) v (body refuses v)
      ≡ apply_proxy_rule refuses (rule_of k) w (body refuses w)
proxy_field_eq refuses k v w h b =
    rw (rule_of-place_of k) (apply_proxy_rule_eq refuses (place_of k) v w h b)

mutual
  unfolding Alike AlikeItems AlikeFields AlikeProxy AlikeProxyFields body body_items body_fields
      redact_proxy proxy_fields

  walk : (refuses : Text → Bool) (v w : Value) → Alike refuses v w → body refuses v ≡ body refuses w
  walk refuses (obj fs) w (gs, e, h) = rw e (ap obj (walk_fields refuses fs gs h))
  walk refuses (arr vs) w (ws, e, h) = rw e (ap arr (walk_items refuses vs ws h))
  walk refuses null w h = ap (body refuses) h
  walk refuses (truth b) w h = ap (body refuses) h
  walk refuses (int n) w h = ap (body refuses) h
  walk refuses (decimal n k) w h = ap (body refuses) h
  walk refuses (str s) w h = ap (body refuses) h

  walk_items :
      (refuses : Text → Bool) (vs ws : Items)
      → AlikeItems refuses vs ws
      → body_items refuses vs ≡ body_items refuses ws
  walk_items refuses nil ws h = ap (body_items refuses) (sym h)
  walk_items refuses (cons v vs) ws (w, us, e, p, h) =
      rw e (cc (walk refuses v w p, walk_items refuses vs us h))

  walk_fields :
      (refuses : Text → Bool) (fs gs : Fields)
      → AlikeFields refuses fs gs
      → body_fields refuses fs ≡ body_fields refuses gs
  walk_fields refuses end gs h = ap (body_fields refuses) (sym h)
  walk_fields refuses (field k v fs) gs (w, hs, e, p, h) =
      let head = field_eq refuses k v w p (walk refuses v w) (walk_proxy refuses v w) in
      rw e (cc (head, walk_fields refuses fs hs h))

  walk_proxy :
      (refuses : Text → Bool) (v w : Value)
      → AlikeProxy refuses v w
      → redact_proxy refuses v ≡ redact_proxy refuses w
  walk_proxy refuses (obj fs) w (gs, e, h) = rw e (ap obj (walk_proxy_fields refuses fs gs h))
  walk_proxy refuses (str s) w (t, e, h) = rw e (ap str (proxy_text_eq refuses s t h))
  walk_proxy refuses (arr vs) w h = ap (redact_proxy refuses) h
  walk_proxy refuses null w h = ap (redact_proxy refuses) h
  walk_proxy refuses (truth b) w (c, e) = rw e refl
  walk_proxy refuses (int n) w h = ap (redact_proxy refuses) h
  walk_proxy refuses (decimal n k) w h = ap (redact_proxy refuses) h

  walk_proxy_fields :
      (refuses : Text → Bool) (fs gs : Fields)
      → AlikeProxyFields refuses fs gs
      → proxy_fields refuses fs ≡ proxy_fields refuses gs
  walk_proxy_fields refuses end gs h = ap (proxy_fields refuses) (sym h)
  walk_proxy_fields refuses (field k v fs) gs (w, hs, e, p, h) =
      let head = proxy_field_eq refuses k v w p (walk refuses v w) in
      rw e (cc (head, walk_proxy_fields refuses fs hs h))
