-- ===== src/Sessions.antt =====
-- sessions.py: what a session is, and the critical sections of `SessionStore`.
-- A session is an object that several threads share. `handle` is its identity. Its fields that
-- never change stand in `Session`; `last_used` and `in_use`, which change under the store's lock,
-- are kept in the store under the handle, so a thread that still holds a session which has left
-- the dictionary goes on updating the same object. Times are natural numbers in one unit.
pub mod Create
pub mod Batch
pub mod Count
pub mod Evict
pub mod Get
pub mod Proxies
pub mod Rebuild
pub mod Refine
pub mod Inv
pub mod KeepCreate
pub mod KeepRest
pub mod Safety
pub mod Steps
mod Tests
use solverr.Base.{
  ℕ, suc, ◌+◌, ◌-◌, ◌≡◌, Bool, true, false, not, ◌&&◌, Option, none, some, List, [], ◌∷◌, map, ite,
  ltb, leb, ◌==◌, if◌then◌else◌, length, take, keep,
}
use solverr.Base.Int.{ℤ, positive}
use solverr.Base.Text.{Text, Text-discrete}
use solverr.Base.Dict.{remove, put}
use mathlib.Core.List.{lookup}
use mathlib.Core.Option

-- `P` is what a proxy is, `X` what the engine keeps alive for a session.
pub record Session (P X : Type 0) : Type 0 where
  pub handle : ℕ
  pub session_id : Text
  pub payload : X
  pub created_at : ℕ
  pub proxy : Option P

-- `closed` lists the handles whose payload `teardown` was called on, the latest first.
pub record Store (P X : Type 0) : Type 0 where
  pub sessions : List (Text × Session P X)
  pub next_handle : ℕ
  pub last_used : ℕ → ℕ
  pub in_use : ℕ → ℕ
  pub closed : List ℕ

abbrev pub update : (ℕ → ℕ) → ℕ → ℕ → ℕ → ℕ
update f h n j = if j == h then n else f j

module _ {P X : Type 0} where
  -- `__init__`
  unfoldable pub init : Store P X
  init = record { sessions = []; next_handle = 0; last_used = λ _. 0; in_use = λ _. 0; closed = [] }

  abbrev pub find : Text → Store P X → Option (Session P X)
  find id st = lookup Text-discrete id st.sessions

  -- `now - session.created_at`: `datetime` differences below 0 exceed no limit.
  unfoldable pub lifetime : Session P X → ℕ → ℕ
  lifetime s now = now - s.created_at

  unfoldable pub idle : Store P X → Session P X → ℕ → ℕ
  idle st s now = now - st.last_used s.handle

  -- `Session(session_id, payload, created_at, proxy=proxy)`: a new object, last used when created.
  unfoldable pub new_session : Text → X → Option P → ℕ → Store P X → Store P X × Session P X
  new_session id x proxy now st = (
    record st {
      next_handle = suc st.next_handle;
      last_used = update st.last_used st.next_handle now;
      in_use = update st.in_use st.next_handle 0;
    },
    record {
      handle = st.next_handle;
      session_id = id;
      payload = x;
      created_at = now;
      proxy = proxy;
    },
  )

  -- `_claim`
  unfoldable pub claim : Session P X → ℕ → Store P X → Store P X
  claim s now st = record st {
    last_used = update st.last_used s.handle now;
    in_use = update st.in_use s.handle (st.in_use s.handle + 1);
  }

  -- `_teardown`: what the engine raises is logged and dropped.
  unfoldable pub teardown : Session P X → Store P X → Store P X
  teardown s st = record st { closed = s.handle ∷ st.closed }

  unfoldable pub teardown_all : List (Session P X) → Store P X → Store P X
  unfolding teardown
  teardown_all [] st = st
  teardown_all (s ∷ ss) st = teardown_all ss (teardown s st)

  -- The first critical section of `create`: the session that is there, claimed if asked for.
  unfoldable pub find_existing : Text → Bool → ℕ → Store P X → Store P X × Option (Session P X)
  unfolding claim
  find_existing id claims now st = elim (find id st) [
    | none ↦ (st, none)
    | some s ↦ (if claims then claim s now st else st, some s)
  ]

  -- The second: store the new session unless another thread was faster, and claim the winner.
  -- The result is the session that is in the dictionary, and whether it is the new one.
  unfoldable pub store_new : Session P X → Bool → ℕ → Store P X → Store P X × Session P X × Bool
  unfolding claim put
  store_new s claims now st = elim (find s.session_id st) [
    | none ↦
        let st' : Store P X = record st {
          sessions = put Text-discrete s.session_id s st.sessions;
        } in
        (if claims then claim s now st' else st', s, true)
    | some race ↦ (if claims then claim race now st else st, race, false)
  ]

  -- `exists`
  unfoldable pub exists : Text → Store P X → Bool
  exists id st = elim (find id st) [ none ↦ false | some _ ↦ true ]

  -- `session_ids`
  unfoldable pub session_ids : Store P X → List Text
  session_ids st = map (λ e. e.0) st.sessions

  -- The critical section of `discard`.
  unfoldable pub pop : Text → Store P X → Store P X × Option (Session P X)
  unfolding remove
  pop id st = (record st { sessions = remove Text-discrete id st.sessions }, find id st)

  -- `discard`
  unfoldable pub discard : Text → Store P X → Store P X × Bool
  unfolding pop teardown
  discard id st =
      let (st', found) = pop id st in
      elim found [ none ↦ (st', false) | some s ↦ (teardown s st', true) ]

  -- The test of `get` for a session that has outlived its limit and has no other holder.
  unfoldable pub is_expired : Option ℕ → Bool → Session P X → ℕ → Store P X → Bool
  unfolding lifetime
  is_expired ttl fresh s now st = elim ttl [
    | none ↦ false
    | some t ↦ not fresh && ltb t (lifetime s now) && st.in_use s.handle == 1
  ]

  -- The critical section of `get` that takes an expired session out.
  unfoldable pub expire : Option ℕ → Bool → Session P X → ℕ → Store P X → Store P X × Bool
  unfolding is_expired remove
  expire ttl fresh s now st =
      let old = is_expired ttl fresh s now st in
      (
        if old then record st { sessions = remove Text-discrete s.session_id st.sessions } else st,
        old,
      )

  -- `end_use`
  unfoldable pub end_use : Session P X → ℕ → Store P X → Store P X
  end_use s now st = record st {
    last_used = update st.last_used s.handle now;
    in_use = update st.in_use s.handle (st.in_use s.handle - 1);
  }
