-- ===== src/Geo/Tests.antt =====
-- The exit's zone and language at concrete inputs.
use mathlib.Core.List.{lookup}
use solverr.Base.{◌≡◌, refl, none, some, List, [], ◌∷◌, ◌++◌, ℕ_discrete}
use solverr.Base.Text.{
  Text, Text-discrete, codes, upper, strip, split, strip_left, upper_code, is_blank,
}
use solverr.Base.Value.{str, obj, field, end}
use solverr.Config.{session_ttl_minutes, int_env}
use solverr.Base.Value.{parse_int}
use solverr.Config.Language
use solverr.Geo.{live, store_exit, resolved}
use solverr.Geo.Egress.{
  Host, Call, Resolver, pinned_zone, resolve_exit, browser_identity, from_egress, cache_seconds,
  proxy_to_config,
}
use solverr.Geo.Lookup.{from_keys}
use solverr.Geo.Pairs.{browser_identity-resolve_exit, Reads, proxy_to_config-Reads}
use solverr.Geo.Table.{led_by, naming, led, named, first_some, zone_table-lookup}
use solverr.Geo.Zones.{zone_table, zone_from_geo, row, columns, countries_of}

abbrev line : Text → Text → Text
line countries zone = countries ++ (9 ∷ (codes "+4723" ++ (9 ∷ zone)))

-- The row of CH names DE, and stands in front of DE's own.
abbrev rows : List Text
rows =
    codes "# zones"
    ∷ line (codes "CH,DE,LI") (codes "Europe/Zurich")
    ∷ line (codes "DE,DK") (codes "Europe/Berlin")
    ∷ []

zone_table-lookup_example :
    lookup Text-discrete (codes "DE") (zone_table (some rows ∷ []))
    ≡ first_some (led_by (codes "DE") rows) (naming (codes "DE") rows)
unfolding led_by naming led named row columns countries_of strip strip_left upper upper_code
    is_blank split Text-discrete ℕ_discrete
zone_table-lookup_example = zone_table-lookup (codes "DE") rows [] refl

zone_table-berlin :
    first_some (led_by (codes "DE") rows) (naming (codes "DE") rows) ≡ some (codes "Europe/Berlin")
unfolding led_by naming led named row columns countries_of strip strip_left upper upper_code
    is_blank split Text-discrete ℕ_discrete
zone_table-berlin = refl

abbrev host : Host
host = record {
  sys = record { files = []; available = [] };
  env = λ name. none;
  cache_key = λ proxy. codes "key";
}

abbrev berlin : Resolver
berlin = record {
  prepare = λ zone proxy. some (codes "Europe/Berlin", some (codes "192.0.2.1"));
  resolve_locale = λ ip proxy. some (codes "de-DE");
}

abbrev first_call : Call
first_call = record { resolver = some berlin; first = 5; second = 9 }

abbrev second_call : Call
second_call = record { resolver = none; first = 10; second = 11 }

browser_identity-resolve_exit_example :
    browser_identity host first_call second_call none []
    ≡ resolve_exit host first_call none none none []
unfolding pinned_zone resolve_exit live resolved store_exit from_egress Language.browser_timezone
    Language.browser_geo Language.browser_locale Language.tag_env zone_from_geo strip strip_left
    lookup Text-discrete ℕ_discrete cache_seconds session_ttl_minutes int_env parse_int
browser_identity-resolve_exit_example =
    browser_identity-resolve_exit host first_call second_call none [] refl refl refl

proxy_to_config-Reads_example :
    Reads
      (obj (field (codes "url") (str (codes "socks5://a:1")) end))
      (proxy_to_config (obj (field (codes "url") (str (codes "socks5://a:1")) end)))
proxy_to_config-Reads_example =
    proxy_to_config-Reads (obj (field (codes "url") (str (codes "socks5://a:1")) end))

services-once : from_keys (codes "b" ∷ codes "a" ∷ codes "b" ∷ []) ≡ codes "b" ∷ codes "a" ∷ []
unfolding from_keys Text-discrete ℕ_discrete
services-once = refl
