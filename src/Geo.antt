-- ===== src/Geo.antt =====
-- geo.py: the cache of what is known of an exit, and the proxy that it is reached through. Times are
-- seconds of the monotonic clock; a key stands for the hash that `_cache_key` makes.
pub mod Egress
mod Lookup
pub mod Pairs
pub mod Table
mod Tests
pub mod Zones
use solverr.Base.{
  ℕ, ◌+◌, ◌≤◌, ◌≡◌, refl, Bool, true, false, ◌&&◌, Option, none, some, List, ltb, if◌then◌else◌,
  is_some, or_else, length, arith,
}
use solverr.Base.Text.{Text, Text-discrete}
use solverr.Base.Dict.{remember, put, remove, length-evict}
use mathlib.Core.List.{lookup}

pub record Exit : Type 0 where
  pub expires : ℕ
  pub zone : Text
  pub language : Text
  pub complete : Bool

abbrev pub max_cached_exits : ℕ
max_cached_exits = 512

-- The entry under a key that has not expired.
unfoldable pub live : Text → ℕ → List (Text × Exit) → Option Exit
unfolding lookup
live key now m = elim (lookup Text-discrete key m) [
  | none ↦ none
  | some e ↦ if ltb now e.expires then some e else none
]

-- The fallbacks, and how long an answer is kept that is whole and one that is not.
pub record Fallback : Type 0 where
  pub container_zone : Text
  pub default_language : Text
  pub cache_seconds : ℕ
  pub failure_seconds : ℕ

-- The entry for what `_from_egress` found.
abbrev pub exit_of : Fallback → ℕ → Option Text → Option Text → Exit
exit_of f now zone language = record {
  expires = now + (if is_some zone && is_some language then f.cache_seconds else f.failure_seconds);
  zone = or_else zone f.container_zone;
  language = or_else language f.default_language;
  complete = is_some zone && is_some language;
}

-- The complete entry that is there, which an incomplete answer does not replace.
abbrev pub better : Bool → Option Exit → Option Exit
better true e = none
better false none = none
better false (some e) = if e.complete then some e else none

-- The second critical section of `_resolved`.
unfoldable pub store_exit :
    Fallback
    → ℕ
    → Text
    → Option Text
    → Option Text
    → List (Text × Exit)
    → List (Text × Exit) × Text × Text
unfolding live remember
store_exit f now key zone language m =
    let e = exit_of f now zone language in
    elim (better e.complete (live key now m)) [
      | some known ↦ (m, known.zone, known.language)
      | none ↦ (remember Text-discrete max_cached_exits key e m, e.zone, e.language)
    ]

-- `_resolved`, for what `_from_egress` finds between the two critical sections, which is asked only
-- if the first one finds nothing.
unfoldable pub resolved :
    Fallback
    → ℕ
    → ℕ
    → Text
    → Option Text
    → Option Text
    → List (Text × Exit)
    → List (Text × Exit) × Text × Text
unfolding live store_exit
resolved f now later key zone language m = elim (live key now m) [
  | some e ↦ (m, e.zone, e.language)
  | none ↦ store_exit f later key zone language m
]

length-remember :
    (key : Text) (e : Exit) (m : List (Text × Exit))
    → length (remember Text-discrete max_cached_exits key e m) ≤ max_cached_exits
unfolding remember
length-remember key e m =
    length-evict max_cached_exits (put Text-discrete key e (remove Text-discrete key m))

-- The cache never holds more than 512 exits.
pub store_exit-length :
    (f : Fallback) (now : ℕ) (key : Text) (zone language : Option Text) (m : List (Text × Exit))
    → length m ≤ max_cached_exits
    → length (store_exit f now key zone language m).0 ≤ max_cached_exits
unfolding store_exit
store_exit-length f now key zone language m h =
    ground (arith, length-remember key (exit_of f now zone language) m)

-- A lookup that did not find both the zone and the language never replaces an entry that has both
-- and has not expired: that entry's pair is answered.
pub store_exit-keeps :
    (f : Fallback) (now : ℕ) (key : Text) (seen_zone language : Option Text)
    (m : List (Text × Exit)) (known : Exit)
    → live key now m ≡ some known
    → known.complete ≡ true
    → (is_some seen_zone && is_some language) ≡ false
    → store_exit f now key seen_zone language m ≡ (m, known.zone, known.language)
unfolding store_exit
store_exit-keeps f now key seen_zone language m known l c i = rw (store_exit, i, l, c) refl
