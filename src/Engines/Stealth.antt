-- ===== src/Engines/Stealth.antt =====
-- src/engines/stealth_engine.py: `solve`, with `_start_context` and `_close_bounded`.
use solverr.Base.{
  ℕ, zero, suc, ◌+◌, ◌*◌, min, Bool, true, false, Option, none, some, List, [], ◌∷◌, ◌++◌,
  if◌then◌else◌,
}
use solverr.Base.Text.{Text}
use solverr.Budget.{remaining_share, one_second}
use solverr.Engines.Hold.{
  Event, marked, locked, owned, released, end_use, shut, shut_failed, capped, uncapped,
}
use solverr.Engines.{Call, returned, timed_out, raised, and_then, rewrite_error, not_free}

-- One request: what the code around it answers, and the readings of the clock, in microseconds. A call
-- is given the time it may take.
pub record Request (A : Type 0) : Type 0 where
  pub session : Option Text
  pub started : ℕ
  pub timeout : ℕ
  pub shown_timeout : Text
  -- `config.stealth_start_timeout()`
  pub start_timeout : ℕ
  -- `SessionStore.get`, with the launch budget that this thread sets for `_start_context`.
  pub get : Option ℕ → Call Unit
  pub now_at_lock : ℕ
  -- `session.lock.acquire`
  pub acquire : ℕ → Bool
  -- `geo.proxy_to_config` and the constructor
  pub make : Call Unit
  pub now_at_start : ℕ
  -- `ctx.start()` on the runtime
  pub start : ℕ → Call Unit
  pub now_at_solve : ℕ
  -- `_do_solve` with its own limit, on the runtime with the second one
  pub do_solve : ℕ → ℕ → Call A
  -- `ctx.close()` on the runtime: what the library's teardown comes to in the time it may take
  pub close : Call Unit

-- `_start_context`: what a launch may take, by the budget that the thread has set.
unfoldable pub launch_allowed : Option ℕ → ℕ → ℕ
launch_allowed none start_timeout = start_timeout
launch_allowed (some zero) start_timeout = start_timeout
launch_allowed (some (suc n)) start_timeout = min (suc n) start_timeout

-- Where the `try` block is left, with the variables that `finally` reads and the calls made.
pub record Left (A : Type 0) : Type 0 where
  pub result : Call A
  pub in_use : Bool
  pub has_lock : Bool
  pub own_ctx : Bool
  pub events : List Event

-- `_close_bounded` of the own browser. A teardown over its time is logged, and so is one that raises.
unfoldable pub close_bounded : Call Unit → Event
close_bounded (returned _) = shut
close_bounded timed_out = shut_failed
close_bounded (raised e) = shut_failed

module _ {A : Type 0} where
  -- The solve: the runtime waits five seconds longer than the solve's own limit.
  unfoldable pub run_solve : Request A → Call A
  unfolding remaining_share
  run_solve r =
      let left = remaining_share r.started r.timeout r.now_at_solve in
      r.do_solve left (left + 5 * one_second)

  unfoldable pub with_session : Text → Request A → Left A
  unfolding run_solve remaining_share
  with_session id r = elim (r.get (some r.timeout)) [
    | timed_out ↦ record {
      result = timed_out;
      in_use = false;
      has_lock = false;
      own_ctx = false;
      events = [];
    }
    | raised e ↦ record {
      result = raised e;
      in_use = false;
      has_lock = false;
      own_ctx = false;
      events = [];
    }
    | returned _ ↦
        if r.acquire (remaining_share r.started r.timeout r.now_at_lock)
        then record {
          result = run_solve r;
          in_use = true;
          has_lock = true;
          own_ctx = false;
          events = marked ∷ locked ∷ [];
        }
        else record {
          result = raised (not_free id);
          in_use = true;
          has_lock = false;
          own_ctx = false;
          events = marked ∷ [];
        }
  ]

  unfoldable pub with_own : Request A → Left A
  unfolding run_solve remaining_share and_then
  with_own r = elim r.make [
    | timed_out ↦ record {
      result = timed_out;
      in_use = false;
      has_lock = false;
      own_ctx = false;
      events = [];
    }
    | raised e ↦ record {
      result = raised e;
      in_use = false;
      has_lock = false;
      own_ctx = false;
      events = [];
    }
    | returned _ ↦ record {
      result =
          and_then
            (r.start (min (remaining_share r.started r.timeout r.now_at_start) r.start_timeout))
            (λ _. run_solve r);
      in_use = false;
      has_lock = false;
      own_ctx = true;
      events = owned ∷ [];
    }
  ]

  -- The `try` block.
  unfoldable pub attempt : Request A → Left A
  unfolding with_session with_own
  attempt r = elim r.session [ none ↦ with_own r | some id ↦ with_session id r ]

  -- The calls of the `finally` block.
  unfoldable pub gives_back : Request A → Left A → List Event
  unfolding close_bounded
  gives_back r l =
      uncapped
      ∷ ((if l.has_lock then released ∷ [] else [])
          ++ ((if l.in_use then end_use ∷ [] else [])
              ++ (if l.own_ctx then close_bounded r.close ∷ [] else [])))

  -- `solve`, with the calls that it makes.
  unfoldable pub solve : Request A → Call A × List Event
  unfolding attempt gives_back rewrite_error
  solve r =
      let l = attempt r in
      (rewrite_error r.shown_timeout l.result, capped ∷ (l.events ++ gives_back r l))

-- `_start_context`: a launch that fails closes what it has made, and then raises; an exception of the
-- closing, other than the time limit's, takes its place. What is left open is `owned`.
unfoldable pub start_context :
    Option ℕ → ℕ → Call Unit → (ℕ → Call Unit) → Call Unit → Call Unit × List Event
unfolding launch_allowed close_bounded
start_context budget start_timeout make start close = elim make [
  | timed_out ↦ (timed_out, [])
  | raised e ↦ (raised e, [])
  | returned _ ↦ elim (start (launch_allowed budget start_timeout)) [
    | returned _ ↦ (returned tt, owned ∷ [])
    | timed_out ↦
        (elim close [ raised e ↦ raised e | _ ↦ timed_out ], owned ∷ close_bounded close ∷ [])
    | raised f ↦
        (elim close [ raised e ↦ raised e | _ ↦ raised f ], owned ∷ close_bounded close ∷ [])
  ]
]
