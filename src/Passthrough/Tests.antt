-- ===== src/Passthrough/Tests.antt =====
-- passthrough.py at concrete requests.
use solverr.Base.{
  ◌+◌, ◌≤◌, ◌≡◌, refl, sym, subst, ◌⊎◌, inl, true, false, Option, none, some, [], ◌∷◌, In, arith,
  if◌then◌else◌, is_some, ltb, ℕ_discrete, ◌++◌,
}
use solverr.Base.Text.{
  Text, Text-discrete, codes, cut, lower, strip, strip_left, is_blank, lower_code,
}
use mathlib.Core.List.{lookup}
use solverr.Service.Request.{fold_case}
use solverr.Passthrough.{
  Settings, route, cache_ttl_for, earns_full_ttl, is_asset, ends_in_extension, split_host, cut_host,
  tidy_host, is_one_of, has_code, default_host, target,
}
use solverr.Base.Int.{pos}
use solverr.Service.{ok}
use solverr.Service.Request.{read_request}
use solverr.Service.Commands.{check_get}
use solverr.Passthrough.Solve.{request_for}
use solverr.Passthrough.Accepted.{as_read, request_for-read}
use solverr.Passthrough.Bounds.{IsBounded, entry, cache_store-IsBounded, fresh-cache_store}
use solverr.Passthrough.Cache.{Cache, empty_cache, cache_store, fresh}
use solverr.Passthrough.Coalesce.{one_owner, waiter-answer}
use solverr.Passthrough.Handle.{
  Answer, Solved, look, start_proxy, waiter_answer, settle, release, owner_answer,
}
use solverr.Passthrough.Route.{route-In, cache_ttl_for-bounds}
use solverr.Passthrough.Slots.{
  World, owner_at, start, Reach, began, then_step, looks, settles, releases, after_look, Insert,
  here,
}
use solverr.Passthrough.Hits.{hits, on_path}

abbrev html : Text
html = codes "text/html; charset=utf-8"

abbrev settings : Settings
settings = record {
  allowed_hosts = codes "a.org" ∷ codes "b.org" ∷ [];
  cache_ttl = some 3600;
  cache_max_bytes = some 100;
  cache_requires = codes "x";
  timeout_ms = 90000;
}

abbrev page : Answer
page = record { status = 200; body = codes "page"; content_type = html }

abbrev page_path : Text
page_path = codes "/a.org/p"

-- A request comes, is solved, and is answered.
abbrev asked : World
asked = after_look start page_path (look settings 5 page_path start.proxy)

abbrev solved : Option Solved
solved = some (record { answer = page; page = some (codes "page") })

abbrev settled : World
settled = record asked {
  proxy = settle settings 6 page_path 0 solved asked.proxy;
  owners = owner_at page_path 0 (some solved) ∷ [];
}

abbrev answered : World
answered = record {
  proxy = release page_path 0 settled.proxy;
  owners = [];
  sent = (0, owner_answer solved) ∷ [];
}

one_asks : asked.owners ≡ owner_at page_path 0 none ∷ []
unfolding look start_proxy fresh lookup empty_cache
one_asks = refl

Reach-asked : Reach settings asked
Reach-asked = then_step began (looks 5 page_path start)

is_first : Insert (owner_at page_path 0 none) [] asked.owners
is_first = subst (λ os. Insert (owner_at page_path 0 none) [] os) (sym one_asks) here

Reach-answered : Reach settings answered
unfolding look start_proxy fresh lookup empty_cache
Reach-answered =
    then_step (then_step Reach-asked (settles 6 page_path 0 solved asked [] is_first))
      (releases page_path 0 solved settled [] here)

one_owner_example :
    hits (on_path page_path) asked.owners
    ≡ (if is_some (lookup Text-discrete page_path asked.proxy.inflight) then 1 else 0)
one_owner_example = one_owner settings asked page_path Reach-asked

waiter-answer_example :
    ((answered.proxy.slots 0).is_set ≡ true)
    × (waiter_answer 0 answered.proxy ≡ owner_answer solved)
waiter-answer_example =
    waiter-answer settings answered 0 (owner_answer solved) Reach-answered (inl refl)

abbrev stored : Cache
stored = (cache_store (some 100) 5 60 page_path 200 (codes "page") html empty_cache).0

empty-IsBounded : IsBounded (some 100) empty_cache
unfolding empty_cache
empty-IsBounded = ((refl, tt), omega arith)

cache_store-IsBounded_example : IsBounded (some 100) stored
cache_store-IsBounded_example =
    cache_store-IsBounded (some 100) 5 60 page_path 200 (codes "page") html empty_cache
      empty-IsBounded

fresh-cache_store_example :
    (let r = cache_store (some 100) 5 60 page_path 200 (codes "page") html empty_cache in
      ((r.1 ≡ true)
        × (fresh (some 3600) 64 page_path r.0
            ≡ (if ltb 64 (5 + 60) then some (entry 5 60 200 (codes "page") html) else none)))
      ⊎ ((r.1 ≡ false) × (r.0 ≡ empty_cache)))
fresh-cache_store_example =
    fresh-cache_store (some 100) 3600 5 60 64 page_path 200 (codes "page") html empty_cache

-- A link that lost its host goes to the first host.
abbrev lost_path : Text
lost_path = codes "/details/3"

goes : route settings lost_path ≡ some (codes "a.org", lost_path)
unfolding route is_asset ends_in_extension split_host cut_host tidy_host is_one_of has_code
    default_host cut lower strip strip_left is_blank lower_code fold_case Text-discrete ℕ_discrete
goes = refl

route-In_example :
    (is_asset lost_path ≡ false)
    × In (codes "a.org") settings.allowed_hosts
    × (rest : Text) × (target (codes "a.org", lost_path)
        ≡ codes "https://" ++ codes "a.org" ++ (b'/' ∷ rest))
route-In_example = route-In settings lost_path (codes "a.org") lost_path goes

cache_ttl_for-bounds_case :
    (cache_ttl_for (codes "x") 3600 (codes "page") html ≤ 3600)
    × ((cache_ttl_for (codes "x") 3600 (codes "page") html ≡ 3600)
        ⊎ ((earns_full_ttl (codes "x") (codes "page") html ≡ false)
            × (cache_ttl_for (codes "x") 3600 (codes "page") html ≤ 60)))
cache_ttl_for-bounds_case = cache_ttl_for-bounds (codes "x") 3600 (codes "page") html

abbrev place : Text × Text
place = (codes "a.org", codes "/p")

request_for-read_example :
    (read_request (pos 180000) (request_for settings none place)
      ≡ ok (as_read (pos 180000) settings place))
    × (check_get (as_read (pos 180000) settings place) ≡ ok tt)
request_for-read_example = request_for-read (pos 180000) settings none place (omega arith)
