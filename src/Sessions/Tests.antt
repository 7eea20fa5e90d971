-- ===== src/Sessions/Tests.antt =====
-- sessions.py at concrete stores.
use solverr.Base.{
  List, ℕ, ◌+◌, ◌<◌, ◌≡◌, refl, Bool, true, false, Option, none, some, [], ◌∷◌, arith, ℕ_discrete,
}
use solverr.Base.Text.{Text-discrete, codes}
use solverr.Base.Dict.{put}
use mathlib.Core.List.{lookup}
use solverr.Sessions.{Session, find, init, claim, expire, is_expired, new_session, store_new, idle}
use solverr.Sessions.Count.{count}
use solverr.Sessions.Refine.{
  Op, on_create, on_destroy, on_discard, on_exists, session, flag, answers, spec_answers,
}
use solverr.Sessions.Refine.Calls.{answers-map}
use solverr.Sessions.Create.{Shared, Launch, get, create, renew, settle, id_or, proxy_for}
use solverr.Sessions.Evict.{values, take_stale, is_stale, remove_all}
use solverr.Sessions.Get.{IsClaimed, get-IsClaimed}
use solverr.Sessions.Inv.{closings, born}
use solverr.Sessions.Proxies.{recall_proxy, remember_proxy}
use solverr.Sessions.Rebuild.{get-rebuild_proxy}
use solverr.Sessions.Safety.{claimed_survives, one_place, in_use-count}
use solverr.Sessions.Steps.{
  World, start, Reach, here, next, builds, stores, reaps, after_build, after_store, after_reap,
}

abbrev session_a : Session ℕ ℕ
session_a = record { handle = 0; session_id = codes "a"; payload = 7; created_at = 5; proxy = none }

abbrev built : World ℕ ℕ
built = after_build (codes "a") 7 none 5 start

abbrev stored : World ℕ ℕ
stored = after_store session_a [] true 6 built

-- Much later a reaper comes by.
abbrev reaped : World ℕ ℕ
reaped = after_reap 10 100 stored

is_launching : built.launching ≡ session_a ∷ []
unfolding after_build new_session start init
is_launching = refl

reached : Reach start reaped
reached =
    next
      (next (next here (builds (codes "a") 7 none 5)) (stores session_a [] [] true 6 is_launching))
      (reaps 10 100)

is_held : 0 < count 0 reaped.held
unfolding after_reap after_store after_build new_session start init store_new take_stale is_stale
    remove_all put claim lookup idle
is_held = omega arith

none_dropped : count 0 reaped.dropped ≡ 0
unfolding after_reap after_store after_build new_session start init store_new take_stale
none_dropped = refl

claimed_survives_example :
    (0 < count 0 (values reaped.store.sessions))
    × (count 0 reaped.pending ≡ 0)
    × (closings 0 reaped.store.closed ≡ 0)
claimed_survives_example = claimed_survives reaped session_a reached is_held none_dropped

one_place_example :
    count 0 reaped.launching
      + count 0 (values reaped.store.sessions)
      + count 0 reaped.pending
      + closings 0 reaped.store.closed
    ≡ born 0 reaped.store.next_handle
one_place_example = one_place reaped 0 reached

in_use-count_example : reaped.store.in_use 0 ≡ count 0 reaped.held + count 0 reaped.renewed
in_use-count_example = in_use-count reaped 0 reached

-- A store where the session that has the id is another one than the one in hand.
abbrev session_b : Session ℕ ℕ
session_b = record {
  handle = 1;
  session_id = codes "a";
  payload = 8;
  created_at = 60;
  proxy = none;
}

abbrev launch : Launch ℕ ℕ
launch = record {
  build = λ proxy. some 9;
  uuid = codes "uuid";
  found_at = 70;
  built_at = 71;
  stored_at = 72;
}

-- The id is remembered with the proxy 4, and no session is there.
abbrev forgotten : Shared ℕ ℕ
forgotten = record { store = init; proxies = (codes "a", some 4) ∷ [] }

abbrev rebuilt : Shared ℕ ℕ × Option (Session ℕ ℕ × Bool)
rebuilt = get (codes "a") (some 10) (some 5) launch 73 launch forgotten

abbrev session_c : Session ℕ ℕ
session_c = record {
  handle = 0;
  session_id = codes "a";
  payload = 9;
  created_at = 71;
  proxy = some 4;
}

rebuilds : rebuilt ≡ (rebuilt.0, some (session_c, true))
unfolding get create renew settle id_or proxy_for recall_proxy lookup expire is_expired new_session
    store_new put claim remember_proxy init Text-discrete ℕ_discrete
rebuilds = refl

get-IsClaimed_example : IsClaimed (codes "a") rebuilt.0 session_c
get-IsClaimed_example =
    get-IsClaimed b'a' [] (some 10) 73 (some 5) launch launch forgotten rebuilt.0 session_c true
      rebuilds

own_is_known : lookup Text-discrete (codes "a") forgotten.proxies ≡ some (some 4)
unfolding lookup Text-discrete ℕ_discrete
own_is_known = refl

a_is_gone : find (codes "a") forgotten.store ≡ none
unfolding lookup init
a_is_gone = refl

get-rebuild_proxy_example :
    (true ≡ true)
    × (session_c.proxy ≡ some 4)
    × (lookup Text-discrete (codes "a") rebuilt.0.proxies ≡ some (some 4))
get-rebuild_proxy_example =
    get-rebuild_proxy b'a' [] (some 10) (some 4) (some 5) launch launch 73 forgotten rebuilt.0
      session_c true own_is_known a_is_gone rebuilds

-- Two sessions of one id, with a failed launch and a discard between them.
abbrev calls : List (Op ℕ ℕ)
calls =
    on_create (some (codes "a")) (some 1) false launch
    ∷ on_create (some (codes "a")) (some 2) true launch
    ∷ on_discard (codes "a")
    ∷ on_create (some (codes "a")) none false (record launch { build = λ _. none })
    ∷ on_create (some (codes "a")) (some 3) true launch
    ∷ on_destroy (codes "b")
    ∷ on_exists (codes "a")
    ∷ []

answers-map_example :
    answers calls (record { store = init; proxies = [] }) ≡ spec_answers calls (λ _. none)
answers-map_example = answers-map calls []

calls-answers :
    spec_answers calls (λ _. none)
    ≡ session (some (some 1, true))
      ∷ session (some (some 1, false))
      ∷ flag true
      ∷ session none
      ∷ session (some (some 3, true))
      ∷ flag false
      ∷ flag true
      ∷ []
unfolding spec_answers Text-discrete ℕ_discrete
calls-answers = refl
