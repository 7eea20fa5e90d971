-- ===== src/Passthrough/Handle.antt =====
-- passthrough.py: `_handle`, as the critical sections of the threads that serve requests.
use solverr.Base.{
  ℕ, suc, Bool, true, false, not, ◌&&◌, Option, none, some, List, [], ltb, leb, ◌==◌, if◌then◌else◌,
}
use solverr.Base.Text.{Text, Text-discrete, codes}
use solverr.Base.Dict.{remove, put}
use mathlib.Core.List.{lookup}
use solverr.Detection.{looks_like_challenge_html}
use solverr.Passthrough.{Settings, cache_ttl_for}
use solverr.Passthrough.Cache.{Entry, Cache, cache_store, fresh, empty_cache}

-- An answer to the client.
pub record Answer : Type 0 where
  pub status : ℕ
  pub body : List ℕ
  pub content_type : Text

abbrev pub solver_error : Answer
solver_error = record {
  status = 502;
  body = codes "solver error";
  content_type = codes "text/html; charset=utf-8";
}

-- What `_solve` returns: the answer, and the page's text that the challenge test reads.
pub record Solved : Type 0 where
  pub answer : Answer
  pub page : Option Text

-- `_Pending`: its answer once there is one, and whether its event is set.
pub record Pending : Type 0 where
  pub result : Option Answer
  pub is_set : Bool

-- `_cache` and `_inflight`, and the slots as shared objects under their handles.
pub record Proxy : Type 0 where
  pub cache : Cache
  pub inflight : List (Text × ℕ)
  pub slots : ℕ → Pending
  pub next_slot : ℕ

unfoldable pub start_proxy : Proxy
unfolding empty_cache
start_proxy = record {
  cache = empty_cache;
  inflight = [];
  slots = λ _. record { result = none; is_set = false };
  next_slot = 0;
}

abbrev pub set_slot : (ℕ → Pending) → ℕ → Pending → ℕ → Pending
set_slot f h p j = if j == h then p else f j

-- What the first critical section finds.
pub data Found : Type 0 where
  hit : Entry → Found
  owner : ℕ → Found
  waiter : ℕ → Found

-- The first critical section: the cached entry, or a slot of the path, a new one for its owner.
unfoldable pub look : Settings → ℕ → Text → Proxy → Proxy × Found
unfolding fresh lookup put
look s now raw p = elim (fresh s.cache_ttl now raw p.cache) [
  | some e ↦ (p, hit e)
  | none ↦ elim (lookup Text-discrete raw p.inflight) [
    | some h ↦ (p, waiter h)
    | none ↦ (
      record p {
        inflight = put Text-discrete raw p.next_slot p.inflight;
        slots = set_slot p.slots p.next_slot (record { result = none; is_set = false });
        next_slot = suc p.next_slot;
      },
      owner p.next_slot,
    )
  ]
]

-- Whether a solved page may be cached.
unfoldable pub is_cacheable : Solved → Bool
unfolding looks_like_challenge_html
is_cacheable r =
    leb 200 r.answer.status && ltb r.answer.status 300 && not (looks_like_challenge_html r.page)

-- The critical section of `_cache_store`, where the page is to be cached at all.
unfoldable pub keep_answer : Settings → ℕ → Text → Solved → Cache → Cache
unfolding cache_store cache_ttl_for is_cacheable
keep_answer s now raw r c = elim s.cache_ttl [
  | none ↦ c
  | some ttl ↦
      if is_cacheable r
      then (cache_store s.cache_max_bytes now
          (cache_ttl_for s.cache_requires ttl r.answer.body r.answer.content_type) raw
          r.answer.status r.answer.body r.answer.content_type c).0
      else c
]

-- What the owner does with what `_solve` gave: `none` is an exception. The slot gets the answer.
unfoldable pub settle : Settings → ℕ → Text → ℕ → Option Solved → Proxy → Proxy
unfolding keep_answer
settle s now raw h none p = p
settle s now raw h (some r) p = record p {
  cache = keep_answer s now raw r p.cache;
  slots = set_slot p.slots h (record (p.slots h) { result = some r.answer });
}

-- The `finally` of the owner: the slot is released and its waiters are woken.
unfoldable pub release : Text → ℕ → Proxy → Proxy
unfolding remove
release raw h p = record p {
  inflight = remove Text-discrete raw p.inflight;
  slots = set_slot p.slots h (record (p.slots h) { is_set = true });
}

-- What the owner sends.
unfoldable pub owner_answer : Option Solved → Answer
owner_answer none = solver_error
owner_answer (some r) = r.answer

-- What a waiter sends once its event is set or its time is up.
unfoldable pub waiter_answer : ℕ → Proxy → Answer
waiter_answer h p = elim (p.slots h).result [ none ↦ solver_error | some a ↦ a ]
