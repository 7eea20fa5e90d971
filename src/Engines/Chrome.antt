-- ===== src/Engines/Chrome.antt =====
-- src/engines/chrome_engine.py: `solve`.
use solverr.Base.{
  ℕ, Bool, true, false, ◌&&◌, Option, none, some, List, [], ◌∷◌, ◌++◌, ltb, if◌then◌else◌,
}
use solverr.Base.Text.{Text}
use solverr.Budget.{remaining_share, solve_margin}
use solverr.Engines.Hold.{Event, marked, locked, owned, discarded, released, end_use, shut}
use solverr.Engines.{Call, returned, timed_out, raised, unless, rewrite_error, not_free}

-- One request: what the code around it answers, and the readings of the clock, in microseconds. A call
-- that hands back nothing is given by the text of its exception, if it raises one; the time limit's own
-- exception comes from `func_timeout` alone.
pub record Request (A : Type 0) : Type 0 where
  pub session : Option Text
  pub started : ℕ
  pub timeout : ℕ
  pub shown_timeout : Text
  -- `SessionStore.get`
  pub get : Option Text
  pub now_at_lock : ℕ
  -- `session.lock.acquire`
  pub acquire : ℕ → Bool
  -- `utils.get_webdriver`
  pub launch : Option Text
  pub now_launched : ℕ
  pub apply_timezone : Option Text
  pub now_in_zone : ℕ
  -- `_evil_logic` under `func_timeout`
  pub evil_logic : ℕ → Call A
  pub response_headers : Bool
  -- The platform is Windows.
  pub is_nt : Bool
  pub close : Option Text
  pub quit : Option Text

-- Where a block is left: what came of it, the variables that `finally` reads, and the calls made.
pub record Left (A : Type 0) : Type 0 where
  pub result : Call A
  pub in_use : Bool
  pub has_lock : Bool
  pub has_driver : Bool
  pub events : List Event

module _ {A : Type 0} where
  -- From the browser on: the timezone, if there is time for it, and the solve.
  unfoldable pub run_logic : Request A → Call A
  unfolding remaining_share unless
  run_logic r =
      let left = remaining_share r.started r.timeout r.now_launched in
      if ltb solve_margin left
      then unless r.apply_timezone
          (r.evil_logic (remaining_share r.started r.timeout r.now_in_zone))
      else r.evil_logic left

  unfoldable pub with_session : Text → Request A → Left A
  unfolding run_logic remaining_share
  with_session id r = elim r.get [
    | some e ↦ record {
      result = raised e;
      in_use = false;
      has_lock = false;
      has_driver = false;
      events = [];
    }
    | none ↦
        if r.acquire (remaining_share r.started r.timeout r.now_at_lock)
        then record {
          result = run_logic r;
          in_use = true;
          has_lock = true;
          has_driver = true;
          events = marked ∷ locked ∷ [];
        }
        else record {
          result = raised (not_free id);
          in_use = true;
          has_lock = false;
          has_driver = false;
          events = marked ∷ [];
        }
  ]

  unfoldable pub with_own : Request A → Left A
  unfolding run_logic
  with_own r = elim r.launch [
    | some e ↦ record {
      result = raised e;
      in_use = false;
      has_lock = false;
      has_driver = false;
      events = [];
    }
    | none ↦ record {
      result = run_logic r;
      in_use = false;
      has_lock = false;
      has_driver = true;
      events = owned ∷ [];
    }
  ]

  -- The `try` block.
  unfoldable pub attempt : Request A → Left A
  unfolding with_session with_own
  attempt r = elim r.session [ none ↦ with_own r | some id ↦ with_session id r ]

  -- The session goes when the time limit stops the worker.
  unfoldable pub discards : Request A → Left A → List Event
  discards r l = elim l.result [
    | timed_out ↦ elim r.session [ none ↦ [] | some id ↦ discarded ∷ [] ]
    | returned a ↦ []
    | raised e ↦ []
  ]

  -- The network log is read, and so emptied.
  unfoldable pub drains : Request A → Left A → Bool
  drains r l = elim r.session [ none ↦ false | some id ↦ l.has_driver && r.response_headers ]

  -- The end of a browser of the request's own, with the exception it raises. On Windows the window is
  -- closed first, and the browser is not told to quit if that fails.
  unfoldable pub quit_own : Request A → Left A → Option Text × List Event
  quit_own r l = elim r.session [
    | some id ↦ (none, [])
    | none ↦
        if l.has_driver
        then (elim (if r.is_nt then r.close else none) [
          | some e ↦ (some e, [])
          | none ↦ (r.quit, shut ∷ [])
        ])
        else (none, [])
  ]

  -- The `finally` block's calls up to the own browser's end.
  unfoldable pub gives_back : Left A → List Event
  gives_back l =
      (if l.has_lock then released ∷ [] else []) ++ (if l.in_use then end_use ∷ [] else [])

  -- `solve`, with the calls that it makes. An exception while the own browser ends takes the place of
  -- the result.
  unfoldable pub solve : Request A → Call A × List Event
  unfolding attempt discards gives_back quit_own rewrite_error unless
  solve r =
      let l = attempt r in
      let (ended, shuts) = quit_own r l in
      (
        unless ended (rewrite_error r.shown_timeout l.result),
        l.events ++ (discards r l ++ (gives_back l ++ shuts)),
      )
