-- ===== src/Passthrough/Bounds.antt =====
-- What the response cache holds after a call of `_cache_store`.
use solverr.Base.{
  ℕ, ◌+◌, ◌≤◌, ◌≡◌, refl, false, Option, none, some, List, arith, ltb, if◌then◌else◌, length,
  Bool-cases, inl, inr, true, ◌⊎◌,
}
use solverr.Base.Text.{Text, Text-discrete}
use solverr.Base.Dict.{keys, put, put-IsDistinct, lookup-put_self}
use mathlib.Core.List.{lookup}
use solverr.Passthrough.Cache.{
  Entry, Cache, drop_entry, drop_all, stale_keys, by_expiry, make_room, store_entry, is_too_large,
  cache_store, fresh,
}
use solverr.Passthrough.Counts.{
  IsCounted, size-put, drop_entry-IsCounted, drop_entry-gone, drop_all-IsCounted,
  make_room-IsCounted, make_room-gone, make_room-fits,
}

-- What the cache is after any number of calls: counted, and under the cap if there is one.
abbrev pub IsBounded : Option ℕ → Cache → Type 0
IsBounded none c = IsCounted c
IsBounded (some most) c = IsCounted c × (c.bytes ≤ most)

abbrev roomy : Option ℕ → ℕ → Cache → Cache
roomy none size c = c
roomy (some most) size c = make_room most size (keys (by_expiry c.entries)) c

abbrev HasRoom : Option ℕ → ℕ → Cache → Type 0
HasRoom none size c = Unit
HasRoom (some most) size c = c.bytes + size ≤ most

roomy-HasRoom :
    (max_bytes : Option ℕ) (body : List ℕ) (raw : Text) (c : Cache)
    → is_too_large max_bytes body ≡ false
    → IsCounted c
    → lookup Text-discrete raw c.entries ≡ none
    → IsCounted (roomy max_bytes (length body) c)
      × (lookup Text-discrete raw (roomy max_bytes (length body) c).entries ≡ none)
      × HasRoom max_bytes (length body) (roomy max_bytes (length body) c)
unfolding is_too_large
roomy-HasRoom none body raw c f h g = (h, g, tt)
roomy-HasRoom (some most) body raw c f h g = (
  make_room-IsCounted most (length body) (keys (by_expiry c.entries)) c h,
  make_room-gone most (length body) (keys (by_expiry c.entries)) raw c g,
  make_room-fits most (length body) c h (ground arith),
)

abbrev pub entry : ℕ → ℕ → ℕ → List ℕ → Text → Entry
entry now ttl status body content_type = record {
  expires = now + ttl;
  status = status;
  body = body;
  content_type = content_type;
}

-- `store_entry` in three parts.
store_entry-parts :
    (max_bytes : Option ℕ) (now ttl : ℕ) (raw : Text) (status : ℕ) (body : List ℕ)
    (content_type : Text) (c : Cache)
    → store_entry max_bytes now ttl raw status body content_type c ≡ (
        let pruned = drop_entry raw (drop_all (stale_keys now c.entries) c) in
        record {
          entries =
              put Text-discrete raw
                (entry now ttl status body content_type)
                (roomy max_bytes (length body) pruned).entries;
          bytes = (roomy max_bytes (length body) pruned).bytes + length body;
        })
unfolding store_entry
store_entry-parts none now ttl raw status body content_type c = refl
store_entry-parts (some most) now ttl raw status body content_type c = refl

add-IsBounded :
    (max_bytes : Option ℕ) (raw : Text) (e : Entry) (c : Cache)
    → IsCounted c
    → lookup Text-discrete raw c.entries ≡ none
    → HasRoom max_bytes (length e.body) c
    → IsBounded max_bytes
        (record { entries = put Text-discrete raw e c.entries; bytes = c.bytes + length e.body })
add-IsBounded none raw e c h g r = (
  omega (arith, size-put raw e c.entries g, h.0),
  put-IsDistinct Text-discrete raw e c.entries h.1,
)
add-IsBounded (some most) raw e c h g r = (
  (
    omega (arith, size-put raw e c.entries g, h.0),
    put-IsDistinct Text-discrete raw e c.entries h.1,
  ),
  r,
)

pruned-IsCounted :
    (now : ℕ) (raw : Text) (c : Cache)
    → IsCounted c
    → IsCounted (drop_entry raw (drop_all (stale_keys now c.entries) c))
pruned-IsCounted now raw c h =
    drop_entry-IsCounted raw (drop_all (stale_keys now c.entries) c)
      (drop_all-IsCounted (stale_keys now c.entries) c h)

IsBounded-IsCounted : (max_bytes : Option ℕ) (c : Cache) → IsBounded max_bytes c → IsCounted c
IsBounded-IsCounted none c h = h
IsBounded-IsCounted (some most) c h = h.0

-- `_cache_store` keeps the cache bounded: `_cache_bytes` is the number of the bytes of all bodies,
-- no path has two entries, and under a cap the bytes never exceed it.
pub cache_store-IsBounded :
    (max_bytes : Option ℕ) (now ttl : ℕ) (raw : Text) (status : ℕ) (body : List ℕ)
    (content_type : Text) (c : Cache)
    → IsBounded max_bytes c
    → IsBounded max_bytes (cache_store max_bytes now ttl raw status body content_type c).0
unfolding cache_store
cache_store-IsBounded max_bytes now ttl raw status body content_type c h =
    elim (Bool-cases (is_too_large max_bytes body)) [
      | inl e ↦ rw (cache_store, e) h
      | inr e ↦
          let counted = pruned-IsCounted now raw c (IsBounded-IsCounted max_bytes c h) in
          let pruned = drop_entry raw (drop_all (stale_keys now c.entries) c) in
          let (i, g, r) =
            roomy-HasRoom max_bytes body raw pruned e counted
              (drop_entry-gone raw (drop_all (stale_keys now c.entries) c)) in
          rw (cache_store, e, store_entry-parts max_bytes now ttl raw status body content_type c)
            (add-IsBounded max_bytes raw (entry now ttl status body content_type)
              (roomy max_bytes (length body) pruned) i g r)
    ]

fresh-put :
    (limit later : ℕ) (raw : Text) (e : Entry) (d : List (Text × Entry)) (n : ℕ)
    → fresh (some limit) later raw (record { entries = put Text-discrete raw e d; bytes = n })
      ≡ (if ltb later e.expires then some e else none)
unfolding fresh
fresh-put limit later raw e d n = rw (fresh, lookup-put_self Text-discrete raw e d) refl

-- A body that `_cache_store` reports as stored is served for its time to live, and not after it;
-- one that it refuses leaves the whole cache as it was.
pub fresh-cache_store :
    (max_bytes : Option ℕ) (limit now ttl later : ℕ) (raw : Text) (status : ℕ) (body : List ℕ)
    (content_type : Text) (c : Cache)
    → (let r = cache_store max_bytes now ttl raw status body content_type c in
        ((r.1 ≡ true)
          × (fresh (some limit) later raw r.0 ≡ (
              if ltb later (now + ttl)
              then some (entry now ttl status body content_type)
              else none)))
        ⊎ ((r.1 ≡ false) × (r.0 ≡ c)))
unfolding cache_store fresh
fresh-cache_store max_bytes limit now ttl later raw status body content_type c =
    elim (Bool-cases (is_too_large max_bytes body)) [
      | inl e ↦ rw (cache_store, e) (inr (refl, refl))
      | inr e ↦
          let pruned = drop_entry raw (drop_all (stale_keys now c.entries) c) in
          rw (cache_store, e, store_entry-parts max_bytes now ttl raw status body content_type c)
            (inl (
              refl,
              (fresh-put limit later raw (entry now ttl status body content_type)
                  (roomy max_bytes (length body) pruned).entries
                  ((roomy max_bytes (length body) pruned).bytes + length body)),
            ))
    ]
