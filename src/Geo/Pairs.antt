-- ===== src/Geo/Pairs.antt =====
-- The zone and the language that a browser is given, and what a proxy's field is read as.
use mathlib.Core.List.{lookup}
use solverr.Base.{
  ℕ, ◌≡◌, refl, ◌⊎◌, inl, inr, Bool, true, false, Option, none, some, is_some, arith, Bool-cases,
}
use solverr.Base.Dict.{remember, lookup-remember}
use solverr.Base.Text.{Text, Text-discrete, codes}
use solverr.Base.Value.{Value, null, obj, str, Fields, end, field, attr, truth, int, decimal, arr}
use solverr.Config.Language
use solverr.Geo.{Exit, Fallback, live, resolved, store_exit, max_cached_exits, exit_of, better}
use solverr.Geo.Egress.{
  Proxy, ProxyError, not_an_object, no_url, Host, Call, Cache, pinned_zone, resolve_exit,
  fallback_of, from_egress, browser_timezone, browser_language, browser_identity, proxy_to_config,
  config_of, proxy_of, given,
}
use solverr.Geo.Zones.{is_blank_text}

-- A cache whose entry for a key holds the pair.
record Holds (key : Text) (m : Cache) (zone language : Text) : Type 0 where
  entry : Exit
  found : lookup Text-discrete key m ≡ some entry
  same_zone : entry.zone ≡ zone
  same_language : entry.language ≡ language

live-found :
    (key : Text) (now : ℕ) (m : Cache) (e : Exit)
    → live key now m ≡ some e
    → lookup Text-discrete key m ≡ some e
unfolding live
live-found key now m e h = ground arith

found-live :
    (key : Text) (now : ℕ) (m : Cache) (e : Exit)
    → lookup Text-discrete key m ≡ some e
    → is_some (live key now m) ≡ true
    → live key now m ≡ some e
unfolding live
found-live key now m e f h = ground arith

better_complete : (b : Bool) (o : Option Exit) (e : Exit) → better b o ≡ some e → o ≡ some e
better_complete true o e h = ground arith
better_complete false none e h = ground arith
better_complete false (some d) e h = ground arith

store_exit-Holds :
    (f : Fallback) (now : ℕ) (key : Text) (seen_zone language : Option Text) (m : Cache)
    → let r = store_exit f now key seen_zone language m in Holds key r.0 r.1 r.2
unfolding store_exit
store_exit-Holds f now key seen_zone language m =
    go (better (exit_of f now seen_zone language).complete (live key now m)) refl
  where
    go :
        (o : Option Exit)
        → better (exit_of f now seen_zone language).complete (live key now m) ≡ o
        → let r : Cache × Text × Text = elim o [
          | some known ↦ (m, known.zone, known.language)
          | none ↦ (
            remember Text-discrete max_cached_exits key (exit_of f now seen_zone language) m,
            (exit_of f now seen_zone language).zone,
            (exit_of f now seen_zone language).language,
          )
        ] in
          Holds key r.0 r.1 r.2
    go none e = record {
      entry = exit_of f now seen_zone language;
      found =
          lookup-remember Text-discrete max_cached_exits key (exit_of f now seen_zone language) m
            (omega arith);
      same_zone = refl;
      same_language = refl;
    }
    go (some known) e = record {
      entry = known;
      found =
          live-found key now m known
            (better_complete (exit_of f now seen_zone language).complete (live key now m) known e);
      same_zone = refl;
      same_language = refl;
    }

resolved-Holds :
    (f : Fallback) (now later : ℕ) (key : Text) (seen_zone language : Option Text) (m : Cache)
    → let r = resolved f now later key seen_zone language m in Holds key r.0 r.1 r.2
unfolding resolved
resolved-Holds f now later key seen_zone language m = go (live key now m) refl
  where
    go :
        (o : Option Exit)
        → live key now m ≡ o
        → let r : Cache × Text × Text = elim o [
          | some e ↦ (m, e.zone, e.language)
          | none ↦ store_exit f later key seen_zone language m
        ] in
          Holds key r.0 r.1 r.2
    go none e = store_exit-Holds f later key seen_zone language m
    go (some x) e = record {
      entry = x;
      found = live-found key now m x e;
      same_zone = refl;
      same_language = refl;
    }

resolved-live :
    (f : Fallback) (now later : ℕ) (key : Text) (seen_zone language : Option Text) (m : Cache)
    (e : Exit)
    → live key now m ≡ some e
    → resolved f now later key seen_zone language m ≡ (m, e.zone, e.language)
unfolding resolved
resolved-live f now later key seen_zone language m e h = ground arith

resolved-Holds_again :
    (f : Fallback) (now later : ℕ) (key : Text) (seen_zone language : Option Text) (m : Cache)
    (z l : Text)
    → Holds key m z l
    → is_some (live key now m) ≡ true
    → resolved f now later key seen_zone language m ≡ (m, z, l)
resolved-Holds_again f now later key seen_zone language m z l h i =
    let e =
      resolved-live f now later key seen_zone language m h.entry
        (found-live key now m h.entry h.found i) in
    cc (e, h.same_zone, h.same_language)

-- If neither the zone nor the language is pinned, and the exit's entry behind the first of the two
-- calls has not expired when the second reads it, both halves of the browser's identity are those
-- that the first call found together, whatever the resolvers would say at the second.
pub browser_identity-resolve_exit :
    (h : Host) (c d : Call) (proxy : Option Proxy) (m : Cache)
    → pinned_zone h ≡ none
    → Language.browser_locale h.env ≡ none
    → is_some (live (h.cache_key proxy) d.first (resolve_exit h c proxy none none m).0) ≡ true
    → browser_identity h c d proxy m ≡ resolve_exit h c proxy none none m
unfolding browser_identity browser_timezone browser_language resolve_exit
browser_identity-resolve_exit h c d proxy m p q i =
    let key = h.cache_key proxy in
    let found = from_egress c.resolver proxy none none in
    let r = resolved (fallback_of h) c.first c.second key found.0 found.1 m in
    let again = from_egress d.resolver proxy none none in
    let e =
      resolved-Holds_again (fallback_of h) d.first d.second key again.0 again.1 r.0 r.1 r.2
        (resolved-Holds (fallback_of h) c.first c.second key found.0 found.1 m) i in
    ground (arith, e)

-- What each result of `proxy_to_config` says of the field.
abbrev pub Reads : Value → ProxyError ⊎ Option Proxy → Type 0
Reads v (inr none) = (v ≡ null) ⊎ (v ≡ obj end)
Reads v (inr (some p)) =
    (fs : Fields) × (v ≡ obj fs)
    × (attr (codes "url") fs null ≡ str p.server)
    × (is_blank_text p.server ≡ false)
    × (p.username ≡ given (attr (codes "username") fs null))
    × (p.password ≡ given (attr (codes "password") fs null))
Reads v (inl not_an_object) = (fs : Fields) → ¬ (v ≡ obj fs)
Reads v (inl no_url) =
    (fs : Fields) × (v ≡ obj fs)
    × ((url : Text) → attr (codes "url") fs null ≡ str url → is_blank_text url ≡ true)

proxy_of-Reads :
    (fs : Fields) (u : Value) → attr (codes "url") fs null ≡ u → Reads (obj fs) (proxy_of fs u)
unfolding proxy_of
proxy_of-Reads fs (str url) e = elim (Bool-cases (is_blank_text url)) [
  | inl b ↦ rw b (fs, refl, λ t q. ground (arith, e, b))
  | inr b ↦ rw b (fs, refl, e, b, refl, refl)
]
proxy_of-Reads fs null e = (fs, refl, λ t q. ground arith)
proxy_of-Reads fs (truth b) e = (fs, refl, λ t q. ground arith)
proxy_of-Reads fs (int n) e = (fs, refl, λ t q. ground arith)
proxy_of-Reads fs (decimal n k) e = (fs, refl, λ t q. ground arith)
proxy_of-Reads fs (obj gs) e = (fs, refl, λ t q. ground arith)
proxy_of-Reads fs (arr vs) e = (fs, refl, λ t q. ground arith)

config_of-Reads : (fs : Fields) → Reads (obj fs) (config_of fs)
unfolding config_of
config_of-Reads end = inr refl
config_of-Reads (field k v fs) =
    proxy_of-Reads (field k v fs) (attr (codes "url") (field k v fs) null) refl

-- A field is read as no proxy only where it is missing, null or an empty object. Every other is either
-- a proxy whose server is the field's `url`, a text that is not blank, or an error.
pub proxy_to_config-Reads : (v : Value) → Reads v (proxy_to_config v)
unfolding proxy_to_config
proxy_to_config-Reads null = inl refl
proxy_to_config-Reads (obj fs) = config_of-Reads fs
proxy_to_config-Reads (truth b) = λ fs e. ground arith
proxy_to_config-Reads (int n) = λ fs e. ground arith
proxy_to_config-Reads (decimal n k) = λ fs e. ground arith
proxy_to_config-Reads (str s) = λ fs e. ground arith
proxy_to_config-Reads (arr vs) = λ fs e. ground arith
