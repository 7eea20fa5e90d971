-- ===== src/Geo/Egress.antt =====
-- geo.py: the zone and the language that both engines are given, from the settings and the exit. The
-- resolvers of invisible_core are a parameter, and so is the hash behind `_cache_key`. `_geo_zones`
-- keeps what `_zone_from_geo` computes from the tables, which do not change, and is left out.
use solverr.Base.{
  ℕ, zero, ◌*◌, ◌⊎◌, inl, inr, max, Option, none, some, List, [], ◌∷◌, ◌++◌, if◌then◌else◌, or_else,
}
use solverr.Base.Int.{ℤ, pos, negsuc}
use solverr.Base.Text.{Text, Text-discrete, codes, text_eq, lower, before}
use solverr.Base.Value.{
  Value, null, obj, str, Fields, end, field, attr, truth, int, decimal, arr, Items, nil, cons,
}
use solverr.Config.{Env, env_or, session_ttl_minutes}
use solverr.Config.Language
use solverr.Geo.{Exit, Fallback, resolved}
use solverr.Geo.Zones.{
  System, non_empty, non_empty_text, is_blank_text, zone_from_geo, container_timezone,
  is_known_zone,
}

-- A proxy as `proxy_to_config` makes it.
pub record Proxy : Type 0 where
  pub server : Text
  pub username : Option Value
  pub password : Option Value

-- What `proxy_to_config` raises, with its message.
pub data ProxyError : Type 0 where
  not_an_object : ProxyError
  no_url : ProxyError

abbrev pub given_items : Items → Option Value
given_items nil = none
given_items (cons v vs) = some (arr (cons v vs))

-- `if proxy.get(name): cfg[name] = proxy[name]`
unfoldable pub given : Value → Option Value
given null = none
given (truth b) = if b then some (truth b) else none
given (int (pos zero)) = none
given (int n) = some (int n)
given (decimal (pos zero) e) = none
given (decimal m e) = some (decimal m e)
given (str []) = none
given (str (c ∷ s)) = some (str (c ∷ s))
given (obj end) = none
given (obj (field k v fs)) = some (obj (field k v fs))
given (arr vs) = given_items vs

-- The proxy of an object that is not empty, for its `url`.
unfoldable pub proxy_of : Fields → Value → ProxyError ⊎ Option Proxy
unfolding attr given
proxy_of fs (str url) =
    if is_blank_text url
    then inl no_url
    else inr (
        some record {
          server = url;
          username = given (attr (codes "username") fs null);
          password = given (attr (codes "password") fs null);
        })
proxy_of fs other = inl no_url

unfoldable pub config_of : Fields → ProxyError ⊎ Option Proxy
unfolding attr proxy_of
config_of end = inr none
config_of (field k v fs) = proxy_of (field k v fs) (attr (codes "url") (field k v fs) null)

-- `proxy_to_config`
unfoldable pub proxy_to_config : Value → ProxyError ⊎ Option Proxy
unfolding config_of
proxy_to_config null = inr none
proxy_to_config (obj fs) = config_of fs
proxy_to_config other = inl not_an_object

-- `accept_language`
unfoldable pub accept_language : Text → Text
unfolding Text-discrete
accept_language tag =
    let base = before b'-' tag in if text_eq base tag then tag else tag ++ codes ", " ++ base

-- `prepare_session_geo` answers a zone, empty if it found none, and the exit's address, or raises.
-- `resolve_session_locale` answers a tag, or raises.
pub record Resolver : Type 0 where
  pub prepare : Text → Option Proxy → Option (Text × Option Text)
  pub resolve_locale : Option Text → Option Proxy → Option Text

-- `_from_egress`; `none` for the resolver is an invisible_core that has none. The log line of the first
-- exception is left out, and with it that it raises for a password that is not a text.
unfoldable pub from_egress :
    Option Resolver → Option Proxy → Option Text → Option Text → Option Text × Option Text
from_egress none proxy zone language = (zone, language)
from_egress (some r) proxy pinned language =
    let session : Option Text × Option Text = elim (r.prepare (or_else pinned []) proxy) [
      | none ↦ (pinned, none)
      | some (zone, ip) ↦ (non_empty zone, ip)
    ] in
    elim language [
      | some tag ↦ (session.0, some tag)
      | none ↦ (session.0, non_empty_text (r.resolve_locale session.1 proxy))
    ]

-- What the process runs on, and the hash of `_cache_key`.
pub record Host : Type 0 where
  pub sys : System
  pub env : Env
  pub cache_key : Option Proxy → Text

-- `_cache_seconds`
unfoldable pub cache_seconds : ℤ → ℕ
cache_seconds (pos minutes) = max 300 (minutes * 60)
cache_seconds (negsuc n) = 300

-- The fallbacks, from TZ and the settings.
abbrev pub fallback_of : Host → Fallback
fallback_of h = record {
  container_zone = container_timezone h.sys (env_or h.env (codes "TZ") []);
  default_language = codes "en-US";
  cache_seconds = cache_seconds (session_ttl_minutes h.env);
  failure_seconds = 60;
}

-- `_pinned_zone`
unfoldable pub pinned_zone : Host → Option Text
unfolding zone_from_geo Language.browser_timezone Language.browser_geo lower Text-discrete
pinned_zone h = elim (Language.browser_timezone (is_known_zone h.sys) h.env) [
  | none ↦ zone_from_geo h.sys (Language.browser_geo h.env)
  | some zone ↦ if text_eq (lower zone) (codes "auto") then none else some zone
]

-- One call of `_resolved`: what the resolvers are then, and the clock in its two critical sections.
pub record Call : Type 0 where
  pub resolver : Option Resolver
  pub first : ℕ
  pub second : ℕ

abbrev pub Cache : Type 0
Cache = List (Text × Exit)

-- `_resolved`, with the lookup between its two critical sections.
unfoldable pub resolve_exit :
    Host → Call → Option Proxy → Option Text → Option Text → Cache → Cache × Text × Text
unfolding resolved from_egress
resolve_exit h c proxy zone language m =
    let found = from_egress c.resolver proxy zone language in
    resolved (fallback_of h) c.first c.second (h.cache_key proxy) found.0 found.1 m

-- `browser_timezone`
unfoldable pub browser_timezone : Host → Call → Option Proxy → Cache → Cache × Text
unfolding pinned_zone resolve_exit Language.browser_locale
browser_timezone h c proxy m = elim (pinned_zone h) [
  | some zone ↦ (m, zone)
  | none ↦ let r = resolve_exit h c proxy none (Language.browser_locale h.env) m in (r.0, r.1)
]

-- `browser_language`
unfoldable pub browser_language : Host → Call → Option Proxy → Cache → Cache × Text
unfolding pinned_zone resolve_exit Language.browser_locale
browser_language h c proxy m = elim (Language.browser_locale h.env) [
  | some tag ↦ (m, tag)
  | none ↦ let r = resolve_exit h c proxy (pinned_zone h) none m in (r.0, r.2)
]

-- `browser_identity`: the cache, the zone and the language.
unfoldable pub browser_identity : Host → Call → Call → Option Proxy → Cache → Cache × Text × Text
unfolding browser_timezone browser_language
browser_identity h c d proxy m =
    let z = browser_timezone h c proxy m in
    let l = browser_language h d proxy z.0 in (l.0, z.1, l.1)
