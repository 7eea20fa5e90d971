-- ===== src/Sessions/Steps.antt =====
-- sessions.py under threads. A world is a store with what the threads that use it have in hand,
-- and a step is one critical section, or one action between two of them, of any thread. The
-- calls of `create`, `get`, `end_use`, `discard`, `reap_idle` and `enforce_cap` are such steps
-- in a row, and those of other threads may come between any two.
use solverr.Base.{ℕ, ◌≡◌, Bool, true, false, Option, none, some, List, [], ◌∷◌, ◌++◌, if◌then◌else◌}
use solverr.Base.Text.{Text}
use solverr.Sessions.{
  Session, Store, find, find_existing, new_session, store_new, teardown, pop, expire, end_use, init,
}
use solverr.Sessions.Evict.{take_stale, take_excess}

-- `launching` has been built and not yet offered to the dictionary; `pending` is out of it and
-- waits for its teardown; `held` has one entry for each claim that is not given back. `dropped`
-- and `renewed` record the sessions that `discard` and an expiry took out.
pub record World (P X : Type 0) : Type 0 where
  pub store : Store P X
  pub launching : List (Session P X)
  pub pending : List (Session P X)
  pub held : List (Session P X)
  pub dropped : List (Session P X)
  pub renewed : List (Session P X)

module _ {P X : Type 0} where
  unfoldable pub start : World P X
  unfolding init
  start = record {
    store = init;
    launching = [];
    pending = [];
    held = [];
    dropped = [];
    renewed = [];
  }

  abbrev pub add_if : Bool → Session P X → List (Session P X) → List (Session P X)
  add_if true s ss = s ∷ ss
  add_if false s ss = ss

  abbrev pub add_some : Option (Session P X) → List (Session P X) → List (Session P X)
  add_some none ss = ss
  add_some (some s) ss = s ∷ ss

  -- `create` finds its id, or does not.
  unfoldable pub after_find : Text → Bool → ℕ → World P X → World P X
  unfolding find_existing
  after_find id claims now w =
      let (st, found) = find_existing id claims now w.store in
      record w { store = st; held = if claims then add_some found w.held else w.held }

  -- `create` has built a browser.
  unfoldable pub after_build : Text → X → Option P → ℕ → World P X → World P X
  unfolding new_session
  after_build id x proxy now w =
      let (st, s) = new_session id x proxy now w.store in
      record w { store = st; launching = s ∷ w.launching }

  -- `create` offers the session `s`, which was in hand among `before` and `after`.
  unfoldable pub after_store : Session P X → List (Session P X) → Bool → ℕ → World P X → World P X
  unfolding store_new
  after_store s rest claims now w =
      let (st, winner, won) = store_new s claims now w.store in
      record w {
        store = st;
        launching = rest;
        pending = if won then w.pending else s ∷ w.pending;
        held = add_if claims winner w.held;
      }

  -- `get` looks at the age of the session `s` that it holds.
  unfoldable pub after_expire :
      Session P X → List (Session P X) → Option ℕ → Bool → ℕ → World P X → World P X
  unfolding expire
  after_expire s rest ttl fresh now w =
      let (st, old) = expire ttl fresh s now w.store in
      record w {
        store = st;
        held = if old then rest else w.held;
        pending = add_if old s w.pending;
        renewed = add_if old s w.renewed;
      }

  unfoldable pub after_end_use : Session P X → List (Session P X) → ℕ → World P X → World P X
  unfolding end_use
  after_end_use s rest now w = record w { store = end_use s now w.store; held = rest }

  unfoldable pub after_discard : Text → World P X → World P X
  unfolding pop
  after_discard id w =
      let (st, found) = pop id w.store in
      record w {
        store = st;
        pending = add_some found w.pending;
        dropped = add_some found w.dropped;
      }

  unfoldable pub after_reap : ℕ → ℕ → World P X → World P X
  unfolding take_stale
  after_reap ttl now w =
      let (st, popped) = take_stale ttl now w.store in
      record w { store = st; pending = popped ++ w.pending }

  unfoldable pub after_cap : ℕ → World P X → World P X
  unfolding take_excess
  after_cap most w =
      let (st, popped) = take_excess most w.store in
      record w { store = st; pending = popped ++ w.pending }

  unfoldable pub after_teardown : Session P X → List (Session P X) → World P X → World P X
  unfolding teardown
  after_teardown s rest w = record w { store = teardown s w.store; pending = rest }

  -- A thread can only offer a session that it built, and only give back or renew one that it
  -- holds. `expires` is about a session that is still the one under its id: no `discard` came
  -- between the claim and the look at its age.
  pub data Step (w : World P X) : World P X → Type 0 where
    finds : (id : Text) (claims : Bool) (now : ℕ) → Step w (after_find id claims now w)
    builds :
        (id : Text) (x : X) (proxy : Option P) (now : ℕ) → Step w (after_build id x proxy now w)
    stores :
        (s : Session P X) (before after : List (Session P X)) (claims : Bool) (now : ℕ)
        → w.launching ≡ before ++ s ∷ after
        → Step w (after_store s (before ++ after) claims now w)
    expires :
        (s : Session P X) (before after : List (Session P X)) (ttl : Option ℕ) (fresh : Bool)
        (now : ℕ)
        → w.held ≡ before ++ s ∷ after
        → find s.session_id w.store ≡ some s
        → Step w (after_expire s (before ++ after) ttl fresh now w)
    ends :
        (s : Session P X) (before after : List (Session P X)) (now : ℕ)
        → w.held ≡ before ++ s ∷ after
        → Step w (after_end_use s (before ++ after) now w)
    discards : (id : Text) → Step w (after_discard id w)
    reaps : (ttl now : ℕ) → Step w (after_reap ttl now w)
    caps : (most : ℕ) → Step w (after_cap most w)
    closes :
        (s : Session P X) (before after : List (Session P X))
        → w.pending ≡ before ++ s ∷ after
        → Step w (after_teardown s (before ++ after) w)

  pub data Reach (w : World P X) : World P X → Type 0 where
    here : Reach w w
    next : {u v : World P X} → Reach w u → Step u v → Reach w v
