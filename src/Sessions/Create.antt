-- ===== src/Sessions/Create.antt =====
-- sessions.py: `create`, `get` and `destroy`, as a thread runs them when no other one comes
-- between their critical sections. `Sessions/Steps` has the interleavings.
use solverr.Base.{ℕ, Bool, true, false, Option, none, some, [], ◌∷◌}
use solverr.Base.Text.{Text}
use solverr.Sessions.{
  Session, Store, find_existing, new_session, store_new, teardown, expire, discard,
}
use solverr.Sessions.Proxies.{Proxies, remember_proxy, recall_proxy, forget_proxy}

-- One engine's store beside the proxies that both stores share.
pub record Shared (P X : Type 0) : Type 0 where
  pub store : Store P X
  pub proxies : Proxies P

-- What one call of `create` gets from outside: the engine's `build`, which may raise, the id that
-- `uuid1` gives, and the clock at its three readings.
pub record Launch (P X : Type 0) : Type 0 where
  pub build : Option P → Option X
  pub uuid : Text
  pub found_at : ℕ
  pub built_at : ℕ
  pub stored_at : ℕ

-- `session_id or str(uuid1())`
unfoldable pub id_or : Option Text → Text → Text
id_or none uuid = uuid
id_or (some []) uuid = uuid
id_or (some (c ∷ id)) uuid = c ∷ id

-- The session's own proxy if it is remembered, else the request's.
unfoldable pub proxy_for {ℓ} : {P : Type ℓ} → Option (Option P) → Option P → Option P
proxy_for none asked = asked
proxy_for (some own) asked = own

module _ {P X : Type 0} where
  -- `create` once the browser is up.
  unfoldable pub settle :
      Session P X → Option P → Bool → ℕ → Shared P X → Shared P X × Session P X × Bool
  unfolding store_new teardown remember_proxy
  settle s proxy claims now w =
      let (st, winner, won) = store_new s claims now w.store in
      elim won [
        | true ↦ (
          record { store = st; proxies = remember_proxy s.session_id proxy w.proxies },
          winner,
          true,
        )
        | false ↦ (record w { store = teardown s st }, winner, false)
      ]

  -- Without a result `build` raised: no session is stored then.
  unfoldable pub create :
      Option Text
      → Option P
      → Bool
      → Launch P X
      → Shared P X
      → Shared P X × Option (Session P X × Bool)
  unfolding id_or find_existing new_session settle
  create session_id proxy claims l w =
      let id = id_or session_id l.uuid in
      let (st, existing) = find_existing id claims l.found_at w.store in
      elim existing [
        | some s ↦ (record w { store = st }, some (s, false))
        | none ↦ elim (l.build proxy) [
          | none ↦ (record w { store = st }, none)
          | some x ↦
              let (st', s) = new_session id x proxy l.built_at st in
              let (w', winner, won) =
                settle s proxy claims l.stored_at (record w { store = st' }) in
              (w', some (winner, won))
        ]
      ]

  -- `get` once a session is claimed: an expired one is closed and built again.
  unfoldable pub renew :
      Text
      → Option ℕ
      → ℕ
      → Launch P X
      → Shared P X
      → Session P X
      → Bool
      → Shared P X × Option (Session P X × Bool)
  unfolding expire teardown create
  renew session_id ttl now l w s fresh =
      let (st, expired) = expire ttl fresh s now w.store in
      elim expired [
        | false ↦ (w, some (s, fresh))
        | true ↦ create (some session_id) s.proxy true l (record w { store = teardown s st })
      ]

  unfoldable pub get :
      Text
      → Option ℕ
      → Option P
      → Launch P X
      → ℕ
      → Launch P X
      → Shared P X
      → Shared P X × Option (Session P X × Bool)
  unfolding recall_proxy proxy_for create renew
  get session_id ttl proxy first now second w =
      let (proxies, remembered) = recall_proxy session_id w.proxies in
      let (w', found) =
        create (some session_id) (proxy_for remembered proxy) true first
          (record w { proxies = proxies }) in
      elim found [
        | none ↦ (w', none)
        | some (s, fresh) ↦ renew session_id ttl now second w' s fresh
      ]

  -- `destroy`
  unfoldable pub destroy : Text → Shared P X → Shared P X × Bool
  unfolding forget_proxy discard
  destroy id w =
      let (st, existed) = discard id w.store in
      (record { store = st; proxies = forget_proxy id w.proxies }, existed)
