-- ===== src/Passthrough.antt =====
-- passthrough.py: the settings of the proxy, and where a request's path leads.
pub mod Cache
pub mod Counts
pub mod Bounds
pub mod Handle
pub mod Slots
pub mod Solve
pub mod Accepted
mod Tests
pub mod Hits
pub mod SlotsInv
pub mod Coalesce
pub mod Route
use solverr.Base.{
  ℕ, ◌*◌, ◌≡◌, Bool, true, false, not, ◌&&◌, ◌||◌, Option, none, some, List, [], ◌∷◌, ◌++◌, map,
  ◌==◌, ltb, leb, if◌then◌else◌, min,
}
use solverr.Base.Int.{ℤ, pos, negsuc, positive}
use solverr.Base.Text.{Text, codes, starts_with, contains, lower, strip, cut, before, text_eq}
use solverr.Service.Request.{fold_case}

-- The names that `start` sets once. A number of 0 or less switches its limit or the cache off, and
-- is only compared with 0: it is `none` here.
pub record Settings : Type 0 where
  pub allowed_hosts : List Text
  pub cache_ttl : Option ℕ
  pub cache_max_bytes : Option ℕ
  pub cache_requires : Text
  pub timeout_ms : ℕ

-- `_DEFAULT_HOST`
unfoldable pub default_host : List Text → Option Text
default_host [] = none
default_host (h ∷ hs) = some h

-- `_effective_timeout_ms`
unfoldable pub effective_timeout_ms : ℤ → ℕ
effective_timeout_ms configured = elim (positive (some configured)) [ some ms ↦ ms | none ↦ 60000 ]

-- What `start` sets, from what config.py reads.
unfoldable pub settings_of : List Text → ℤ → ℤ → Text → ℤ → Settings
unfolding effective_timeout_ms
settings_of hosts ttl max_bytes requires timeout = record {
  allowed_hosts = hosts;
  cache_ttl = positive (some ttl);
  cache_max_bytes = positive (some max_bytes);
  cache_requires = requires;
  timeout_ms = effective_timeout_ms timeout;
}

abbrev pub skipped_extensions : List Text
skipped_extensions =
    codes "css"
    ∷ codes "js"
    ∷ codes "mjs"
    ∷ codes "map"
    ∷ codes "png"
    ∷ codes "jpg"
    ∷ codes "jpeg"
    ∷ codes "gif"
    ∷ codes "svg"
    ∷ codes "webp"
    ∷ codes "ico"
    ∷ codes "woff"
    ∷ codes "woff2"
    ∷ codes "ttf"
    ∷ codes "eot"
    ∷ codes "mp4"
    ∷ codes "webm"
    ∷ []

unfoldable pub is_one_of : List Text → Text → Bool
is_one_of [] t = false
is_one_of (x ∷ xs) t = if text_eq t x then true else is_one_of xs t

-- `_SKIP_EXT.search(path)`: a dot with one of the extensions at the end behind it.
unfoldable pub ends_in_extension : Text → Bool
unfolding is_one_of fold_case
ends_in_extension [] = false
ends_in_extension (c ∷ s) =
    if c == b'.' && is_one_of skipped_extensions (map fold_case s)
    then true
    else ends_in_extension s

-- The asset test of `_handle`, on `raw.split("?", 1)[0].split("#", 1)[0]`.
unfoldable pub is_asset : Text → Bool
unfolding ends_in_extension cut
is_asset raw = ends_in_extension (before b'#' (before b'?' raw))

-- `s[1:] if s.startswith(c) else s`
abbrev pub without_first : ℕ → Text → Text
without_first c [] = []
without_first c (d ∷ s) = if d == c then s else d ∷ s

unfoldable pub has_code : ℕ → Text → Bool
has_code c [] = false
has_code c (d ∷ s) = if d == c then true else has_code c s

-- The host segment and the rest, before the host is tidied.
unfoldable pub cut_host : Text → Text × Text
unfolding cut
cut_host body = elim (cut b'/' body).1 [
  | some rest ↦ ((cut b'/' body).0, b'/' ∷ rest)
  | none ↦
      ((cut b'?' body).0, b'/' ∷ elim (cut b'?' body).1 [ some query ↦ b'?' ∷ query | none ↦ [] ])
]

-- The test behind it: a host that is empty or holds a `?` or a `#` is none.
unfoldable pub tidy_host : Text × Text → Option (Text × Text)
unfolding lower strip has_code
tidy_host (host, remainder) =
    let h = lower (strip host) in
    if text_eq h [] || has_code b'?' h || has_code b'#' h then none else some (h, remainder)

-- `_split_host`
unfoldable pub split_host : Text → Option (Text × Text)
unfolding cut_host tidy_host
split_host raw = elim (without_first b'/' raw) [
  | [] ↦ none
  | c ∷ body ↦ if c == b'?' || c == b'#' then none else tidy_host (cut_host (c ∷ body))
]

-- `raw if raw.startswith("/") else "/" + raw`
abbrev pub with_slash : Text → Text
with_slash [] = b'/' ∷ []
with_slash (c ∷ s) = if c == b'/' then c ∷ s else b'/' ∷ c ∷ s

-- Where `_handle` leads a path: the host and the rest of the target, or the answer 404.
unfoldable pub route : Settings → Text → Option (Text × Text)
unfolding is_asset split_host is_one_of default_host
route s raw = if is_asset raw then none else (elim (split_host raw) [
  | none ↦ none
  | some p ↦
      if is_one_of s.allowed_hosts p.0
      then some p
      else (elim (default_host s.allowed_hosts) [ none ↦ none | some h ↦ some (h, with_slash raw) ])
])

-- `target = "https://" + host + remainder`
unfoldable pub target : Text × Text → Text
target (host, remainder) = codes "https://" ++ host ++ remainder

-- The session id of a host's requests.
unfoldable pub session_of : Text → Text
session_of host = codes "passthrough:" ++ host

-- `_earns_full_ttl`; `requires` is encoded as the body is. An absent content type is empty.
unfoldable pub earns_full_ttl : Text → Text → Text → Bool
unfolding contains lower
earns_full_ttl [] body content_type = true
earns_full_ttl (c ∷ requires) body content_type =
    if contains (lower content_type) (codes "html") then contains body (c ∷ requires) else true

-- `_cache_ttl_for`, where the cache is on.
unfoldable pub cache_ttl_for : Text → ℕ → Text → Text → ℕ
unfolding earns_full_ttl
cache_ttl_for requires ttl body content_type =
    if earns_full_ttl requires body content_type then ttl else min 60 ttl
