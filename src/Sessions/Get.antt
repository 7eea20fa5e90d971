-- ===== src/Sessions/Get.antt =====
-- What one call of `create` or `get` promises its caller.
use solverr.Base.{
  ℕ, ◌<◌, ◌≡◌, refl, sym, ◌∙◌, ◌⊎◌, Bool, true, false, Option, none, some, ◌∷◌, arith, Option-cases,
  Bool-cases, inl, inr,
}
use solverr.Base.Text.{Text, Text-discrete}
use solverr.Base.Dict.{remove, put, lookup-put_self}
use solverr.Sessions.{Session, Store, find, is_expired, expire, claim, new_session, teardown}
use solverr.Sessions.Create.{Shared, Launch, create, get, renew, proxy_for}
use solverr.Sessions.Proxies.{remember_proxy, recall_proxy}

module _ {P X : Type 0} where
  -- The session that `create` builds, and the store that it leaves.
  abbrev pub made : Text → X → Option P → ℕ → Store P X → Session P X
  made id x proxy now st = record {
    handle = st.next_handle;
    session_id = id;
    payload = x;
    created_at = now;
    proxy = proxy;
  }

  abbrev pub with_made : Text → X → Option P → Launch P X → Store P X → Store P X
  with_made id x proxy l st =
      let s = made id x proxy l.built_at st in
      claim s l.stored_at (record ((new_session id x proxy l.built_at st).0) {
        sessions = put Text-discrete id s st.sessions;
      })

  -- The session is stored under the id and marked in use.
  abbrev pub IsClaimed : Text → Shared P X → Session P X → Type 0
  IsClaimed id w s = (find id w.store ≡ some s) × (0 < w.store.in_use s.handle)

  module _ (c : ℕ) (cs : Text) (proxy : Option P) (l : Launch P X) (w : Shared P X) where
    pub create-found :
        (s : Session P X)
        → find (c ∷ cs) w.store ≡ some s
        → create (some (c ∷ cs)) proxy true l w
          ≡ (record w { store = claim s l.found_at w.store }, some (s, false))
    unfolding create
    create-found s e = ground arith

    pub create_raised :
        find (c ∷ cs) w.store ≡ none
        → l.build proxy ≡ none
        → create (some (c ∷ cs)) proxy true l w ≡ (w, none)
    unfolding create
    create_raised e b = ground arith

    pub create-built :
        (x : X)
        → find (c ∷ cs) w.store ≡ none
        → l.build proxy ≡ some x
        → create (some (c ∷ cs)) proxy true l w ≡ (
          record {
            store = with_made (c ∷ cs) x proxy l w.store;
            proxies = remember_proxy (c ∷ cs) proxy w.proxies;
          },
          some (made (c ∷ cs) x proxy l.built_at w.store, true),
        )
    unfolding create
    create-built x e b = ground arith

    -- A result of `create` is stored under its id and marked in use.
    create-IsClaimed :
        (w' : Shared P X) (s : Session P X) (fresh : Bool)
        → create (some (c ∷ cs)) proxy true l w ≡ (w', some (s, fresh))
        → IsClaimed (c ∷ cs) w' s
    unfolding claim new_session
    create-IsClaimed w' s fresh h = elim (Option-cases (find (c ∷ cs) w.store)) [
      | inl miss ↦ elim (Option-cases (l.build proxy)) [
        | inl raised ↦ absurd (ground (arith, create_raised miss raised))
        | inr (x, built) ↦ ground (
          arith,
          create-built x miss built,
          lookup-put_self Text-discrete (c ∷ cs) (made (c ∷ cs) x proxy l.built_at w.store)
              w.store.sessions,
        )
      ]
      | inr (t, found) ↦ ground (arith, create-found t found)
    ]

  module _ (c : ℕ) (cs : Text) (ttl : Option ℕ) (now : ℕ) where
    -- The store that the second `create` of an expired session starts from.
    abbrev pub closed_out : Session P X → Shared P X → Shared P X
    closed_out s w = record w {
      store =
          teardown s
            (record (w.store) { sessions = remove Text-discrete s.session_id w.store.sessions });
    }

    pub renew_cases :
        (l : Launch P X) (w : Shared P X) (s : Session P X) (fresh : Bool)
        → ((is_expired ttl fresh s now w.store ≡ false)
            × (renew (c ∷ cs) ttl now l w s fresh ≡ (w, some (s, fresh))))
          ⊎ ((is_expired ttl fresh s now w.store ≡ true)
              × (renew (c ∷ cs) ttl now l w s fresh
                  ≡ create (some (c ∷ cs)) s.proxy true l (closed_out s w)))
    unfolding renew
    renew_cases l w s fresh = elim (Bool-cases (is_expired ttl fresh s now w.store)) [
      | inl old ↦ inr (old, rw (old, renew) (rw (old, expire)))
      | inr young ↦ inl (young, rw (young, renew))
    ]

    renew-IsClaimed :
        (l : Launch P X) (w w' : Shared P X) (s t : Session P X) (old fresh : Bool)
        → IsClaimed (c ∷ cs) w s
        → renew (c ∷ cs) ttl now l w s old ≡ (w', some (t, fresh))
        → IsClaimed (c ∷ cs) w' t
    renew-IsClaimed l w w' s t old fresh k h = elim (renew_cases l w s old) [
      | inl (_, same) ↦ ground arith
      | inr (_, again) ↦ create-IsClaimed c cs s.proxy l (closed_out s w) w' t fresh (sym again ∙ h)
    ]

    -- The world and the proxy with which `get` calls `create`.
    abbrev pub recalled : Shared P X → Shared P X
    recalled w = record w { proxies = (recall_proxy (c ∷ cs) w.proxies).0 }

    abbrev pub own_proxy : Option P → Shared P X → Option P
    own_proxy proxy w = proxy_for ((recall_proxy (c ∷ cs) w.proxies).1) proxy

    -- What `get` does with the outcome of its first `create`.
    abbrev pub GoesOn : Option P → Launch P X → Launch P X → Shared P X → Shared P X → Type 0
    GoesOn proxy first second w w₁ =
        ((create (some (c ∷ cs)) (own_proxy proxy w) true first (recalled w) ≡ (w₁, none))
          × (get (c ∷ cs) ttl proxy first now second w ≡ (w₁, none)))
        ⊎ ((s : Session P X) × (f : Bool) × (create (some (c ∷ cs)) (own_proxy proxy w) true first
                (recalled w)
              ≡ (w₁, some (s, f)))
            × (get (c ∷ cs) ttl proxy first now second w ≡ renew (c ∷ cs) ttl now second w₁ s f))

    pub get_cases :
        (proxy : Option P) (first second : Launch P X) (w : Shared P X)
        → (w₁ : Shared P X) × GoesOn proxy first second w w₁
    unfolding get
    get_cases proxy first second w =
        go (create (some (c ∷ cs)) (own_proxy proxy w) true first (recalled w)) refl
      where
        go :
            (r : Shared P X × Option (Session P X × Bool))
            → create (some (c ∷ cs)) (own_proxy proxy w) true first (recalled w) ≡ r
            → (w₁ : Shared P X) × GoesOn proxy first second w w₁
        go (w₁, none) e = (w₁, inl (e, rw (e, get) (rw e)))
        go (w₁, some (s, f)) e = (w₁, inr (s, f, e, rw (e, get) (rw e)))

    -- `get` returns a session that is stored under the id asked for and is marked in use, whether
    -- it found it, built it, or closed an expired one and built it anew.
    pub get-IsClaimed :
        (proxy : Option P) (first second : Launch P X) (w w' : Shared P X) (s : Session P X)
        (fresh : Bool)
        → get (c ∷ cs) ttl proxy first now second w ≡ (w', some (s, fresh))
        → IsClaimed (c ∷ cs) w' s
    get-IsClaimed proxy first second w w' s fresh h =
        let (w₁, how) = get_cases proxy first second w in
        elim how [
          | inl (_, g) ↦ absurd (ground arith)
          | inr (t, f, made_it, g) ↦
              renew-IsClaimed second w₁ w' t s f fresh
                (create-IsClaimed c cs _ first (recalled w) w₁ t f made_it) (sym g ∙ h)
        ]
