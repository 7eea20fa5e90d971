-- ===== src/Passthrough/Cache.antt =====
-- passthrough.py: the response cache.
use solverr.Base.{
  ℕ, ◌+◌, ◌-◌, ◌*◌, Bool, true, false, Option, none, some, List, [], ◌∷◌, ltb, leb, if◌then◌else◌,
  length,
}
use solverr.Base.Text.{Text, Text-discrete}
use solverr.Base.Dict.{keys, remove, put}
use mathlib.Core.List.{lookup}

-- A body is a list of bytes; `expires` is a reading of the monotonic clock.
pub record Entry : Type 0 where
  pub expires : ℕ
  pub status : ℕ
  pub body : List ℕ
  pub content_type : Text

-- `_cache` and `_cache_bytes`
pub record Cache : Type 0 where
  pub entries : List (Text × Entry)
  pub bytes : ℕ

unfoldable pub empty_cache : Cache
empty_cache = record { entries = []; bytes = 0 }

-- `_drop`
unfoldable pub drop_entry : Text → Cache → Cache
unfolding remove lookup
drop_entry key c = elim (lookup Text-discrete key c.entries) [
  | none ↦ c
  | some e ↦ record {
    entries = remove Text-discrete key c.entries;
    bytes = c.bytes - length e.body;
  }
]

unfoldable pub drop_all : List Text → Cache → Cache
unfolding drop_entry
drop_all [] c = c
drop_all (k ∷ ks) c = drop_all ks (drop_entry k c)

-- The keys of the entries that are over at this time.
unfoldable pub stale_keys : ℕ → List (Text × Entry) → List Text
stale_keys now [] = []
stale_keys now ((k, e) ∷ d) =
    let rest = stale_keys now d in if leb e.expires now then k ∷ rest else rest

-- `sorted(_cache, key=lambda k: _cache[k][0])`
unfoldable pub insert_key : Text → ℕ → List (Text × ℕ) → List (Text × ℕ)
insert_key k t [] = (k, t) ∷ []
insert_key k t ((j, u) ∷ d) =
    let rest = insert_key k t d in if leb t u then (k, t) ∷ (j, u) ∷ d else (j, u) ∷ rest

unfoldable pub by_expiry : List (Text × Entry) → List (Text × ℕ)
unfolding insert_key
by_expiry [] = []
by_expiry ((k, e) ∷ d) = insert_key k e.expires (by_expiry d)

-- The eviction loop: until the new body fits.
unfoldable pub make_room : ℕ → ℕ → List Text → Cache → Cache
unfolding drop_entry
make_room most size [] c = c
make_room most size (k ∷ ks) c =
    let rest = make_room most size ks (drop_entry k c) in
    if leb (c.bytes + size) most then c else rest

-- `_cache_store` once the body is not over the ceiling for one body.
unfoldable pub store_entry : Option ℕ → ℕ → ℕ → Text → ℕ → List ℕ → Text → Cache → Cache
unfolding drop_all stale_keys by_expiry make_room put
store_entry max_bytes now ttl raw status body content_type c =
    let pruned = drop_entry raw (drop_all (stale_keys now c.entries) c) in
    let roomy : Cache = elim max_bytes [
      | none ↦ pruned
      | some most ↦ make_room most (length body) (keys (by_expiry pruned.entries)) pruned
    ] in
    record {
      entries =
          put Text-discrete raw
            (record {
              expires = now + ttl;
              status = status;
              body = body;
              content_type = content_type;
            })
            roomy.entries;
      bytes = roomy.bytes + length body;
    }

-- `0 < _CACHE_MAX_BYTES < size / _MAX_BODY_SHARE`, where the share is a quarter.
unfoldable pub is_too_large : Option ℕ → List ℕ → Bool
is_too_large none body = false
is_too_large (some most) body = ltb most (4 * length body)

-- `_cache_store`: the cache, and whether the body was stored.
unfoldable pub cache_store : Option ℕ → ℕ → ℕ → Text → ℕ → List ℕ → Text → Cache → Cache × Bool
unfolding is_too_large store_entry
cache_store max_bytes now ttl raw status body content_type c =
    if is_too_large max_bytes body
    then (c, false)
    else (store_entry max_bytes now ttl raw status body content_type c, true)

-- The entry under a path, if it may be served at this time: the test of `_handle`.
unfoldable pub fresh : Option ℕ → ℕ → Text → Cache → Option Entry
unfolding lookup
fresh none now raw c = none
fresh (some ttl) now raw c = elim (lookup Text-discrete raw c.entries) [
  | none ↦ none
  | some e ↦ if ltb now e.expires then some e else none
]
