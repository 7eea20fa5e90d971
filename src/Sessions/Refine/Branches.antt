-- ===== src/Sessions/Refine/Branches.antt =====
-- The branches of `create`, each as an equation.
use solverr.Base.{ℕ, ◌≡◌, refl, Bool, true, false, Option, none, some, ite, if◌then◌else◌}
use solverr.Base.Dict.{lookup-put}
use solverr.Base.Text.{Text, Text-discrete}
use solverr.Sessions.Create.{Shared, Launch, id_or, settle, create}
use solverr.Sessions.Proxies.{remember_proxy}
use solverr.Sessions.{Session, Store, find, claim, find_existing, new_session, store_new}

module _ {P X : Type 0} where
  pub find-store_new :
      (s : Session P X) (claims : Bool) (now : ℕ) (st : Store P X) (j : Text)
      → find s.session_id st ≡ none
      → (find j (store_new s claims now st).0
          ≡ ite (Text-discrete s.session_id j) (some s) (find j st))
        × ((store_new s claims now st).1 ≡ s)
        × ((store_new s claims now st).2 ≡ true)
  unfolding store_new claim
  find-store_new s true now st j e =
      rw (e, store_new) (lookup-put Text-discrete s.session_id j s st.sessions, refl, refl)
  find-store_new s false now st j e =
      rw (e, store_new) (lookup-put Text-discrete s.session_id j s st.sessions, refl, refl)

  pub find_existing-some :
      (id : Text) (claims : Bool) (now : ℕ) (st : Store P X) (s : Session P X)
      → find id st ≡ some s
      → find_existing id claims now st ≡ (if claims then claim s now st else st, some s)
  unfolding find_existing
  find_existing-some id claims now st s e = rw (e, find_existing) refl

  pub find_existing-none :
      (id : Text) (claims : Bool) (now : ℕ) (st : Store P X)
      → find id st ≡ none
      → find_existing id claims now st ≡ (st, none)
  unfolding find_existing
  find_existing-none id claims now st e = rw (e, find_existing) refl

  pub create-found :
      (id : Option Text) (proxy : Option P) (claims : Bool) (l : Launch P X) (w : Shared P X)
      (s : Session P X)
      → find (id_or id l.uuid) w.store ≡ some s
      → create id proxy claims l w ≡ (
        record w { store = if claims then claim s l.found_at w.store else w.store },
        some (s, false),
      )
  unfolding create
  create-found id proxy claims l w s e =
      let found = find_existing-some (id_or id l.uuid) claims l.found_at w.store s e in
      rw (found, create) (rw found refl)

  pub create-failed :
      (id : Option Text) (proxy : Option P) (claims : Bool) (l : Launch P X) (w : Shared P X)
      → find (id_or id l.uuid) w.store ≡ none
      → l.build proxy ≡ none
      → create id proxy claims l w ≡ (w, none)
  unfolding create
  create-failed id proxy claims l w e b =
      let missing = find_existing-none (id_or id l.uuid) claims l.found_at w.store e in
      rw (missing, create) (rw b (rw missing refl))

  pub create-built :
      (id : Option Text) (proxy : Option P) (claims : Bool) (l : Launch P X) (w : Shared P X)
      (x : X)
      → find (id_or id l.uuid) w.store ≡ none
      → l.build proxy ≡ some x
      → (let built = new_session (id_or id l.uuid) x proxy l.built_at w.store in
          let r = settle built.1 proxy claims l.stored_at (record w { store = built.0 }) in
          create id proxy claims l w ≡ (r.0, some (r.1, r.2)))
  unfolding create
  create-built id proxy claims l w x e b =
      let missing = find_existing-none (id_or id l.uuid) claims l.found_at w.store e in
      rw (missing, create) (rw b (rw missing refl))

  pub settle_new :
      (s : Session P X) (proxy : Option P) (claims : Bool) (now : ℕ) (w : Shared P X)
      → find s.session_id w.store ≡ none
      → settle s proxy claims now w ≡ (
        record {
          store = (store_new s claims now w.store).0;
          proxies = remember_proxy s.session_id proxy w.proxies;
        },
        s,
        true,
      )
  unfolding settle store_new
  settle_new s proxy claims now w e = rw (e, settle) (rw (e, store_new) refl)
