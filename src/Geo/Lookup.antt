-- ===== src/Geo/Lookup.antt =====
-- The services that an exit's address is asked of: config.py `geo_ip_lookup_urls`, and geo.py
-- `extend_lookup_urls`, which writes the list of them into invisible_core. The part of `urlsplit` that
-- Base.Split leaves open is a parameter.
use solverr.Base.{
  ◌≡◌, refl, ◌∙◌, Bool, false, not, ◌&&◌, ◌||◌, Option, none, some, is_some, List, [], ◌∷◌, ◌++◌,
  keep, map, arith,
}
use solverr.Base.Split.{urlsplit}
use solverr.Base.Text.{Text, Text-discrete, text_eq, codes, split, strip}
use solverr.Base.Url.{host_of_netloc}
use solverr.Config.{Env, env_or}
use solverr.Geo.Zones.{among}

-- `parts.scheme == 'https' and bool(parts.hostname)`
unfoldable pub is_https : (Text → Bool) → Text → Bool
unfolding urlsplit host_of_netloc Text-discrete
is_https refuses value = elim (urlsplit refuses value) [
  | none ↦ false
  | some p ↦ text_eq p.scheme (codes "https") && is_some (host_of_netloc p.netloc)
]

-- `geo_ip_lookup_urls`; an empty entry has no scheme.
unfoldable pub geo_ip_lookup_urls : (Text → Bool) → Env → List Text
unfolding is_https strip split
geo_ip_lookup_urls refuses env =
    keep (is_https refuses) (map strip (split b',' (env_or env (codes "GEO_IP_LOOKUP_URLS") [])))

-- `dict.fromkeys`: each of these once, where it comes first.
unfoldable pub from_keys : List Text → List Text
unfolding Text-discrete
from_keys [] = []
from_keys (u ∷ us) = u ∷ keep (λ v. not (text_eq u v)) (from_keys us)

-- The list in front of `extend_lookup_urls` and behind it; `none` is a library that has none.
unfoldable pub extend_lookup_urls : List Text → Option (List Text) → Option (List Text)
unfolding from_keys
extend_lookup_urls [] builtin = builtin
extend_lookup_urls (u ∷ us) none = none
extend_lookup_urls (u ∷ us) (some builtin) = some (from_keys ((u ∷ us) ++ builtin))

among-append : (us vs : List Text) (t : Text) → among (us ++ vs) t ≡ (among us t || among vs t)
among-append [] vs t = refl
among-append (u ∷ us) vs t = ground (arith, among-append us vs t)

among-keep :
    (u t : Text) (us : List Text)
    → among (keep (λ v. not (text_eq u v)) us) t ≡ (not (text_eq u t) && among us t)
among-keep u t [] = ground arith
among-keep u t (v ∷ us) = ground (arith, among-keep u t us)

among-from_keys : (us : List Text) (t : Text) → among (from_keys us) t ≡ among us t
unfolding from_keys
among-from_keys [] t = refl
among-from_keys (u ∷ us) t = ground (arith, among-keep u t (from_keys us), among-from_keys us t)

-- The services that are tried behind `extend_lookup_urls` are those of the setting and those of the
-- library, and no others.
extend_lookup_urls-among :
    (us builtin : List Text) (t : Text)
    → (services : List Text) × (extend_lookup_urls us (some builtin) ≡ some services)
      × (among services t ≡ (among us t || among builtin t))
unfolding extend_lookup_urls
extend_lookup_urls-among [] builtin t = (builtin, refl, refl)
extend_lookup_urls-among (u ∷ us) builtin t = (
  from_keys ((u ∷ us) ++ builtin),
  refl,
  among-from_keys ((u ∷ us) ++ builtin) t ∙ among-append (u ∷ us) builtin t,
)
