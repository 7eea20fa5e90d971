-- ===== src/Sessions/Refine/Calls.antt =====
-- The calls of one thread on a store answer what the map answers.
use mathlib.Core.List.{lookup}
use mathlib.Core.Option
use solverr.Base.{
  ◌≡◌, refl, sym, ap, ◌∙◌, subst, Bool, true, false, Option, none, some, List, [], ◌∷◌, ite,
  if◌then◌else◌, is_some,
}
use solverr.Base.Dict.{lookup-remove}
use solverr.Base.Text.{Text, Text-discrete}
use solverr.Sessions.Create.{Shared, Launch, id_or, destroy}
use solverr.Sessions.Proxies.{Proxies}
use solverr.Sessions.Refine.Branches.{
  find-store_new, create-found, create-failed, create-built, settle_new,
}
use solverr.Sessions.Refine.{
  Op, on_create, on_destroy, on_discard, on_exists, Answer, session, flag, Spec, assign, answer_of,
  perform, answers, spec_create, spec_perform, spec_answers, Stands,
}
use solverr.Sessions.{
  Session, Store, init, find, claim, teardown, new_session, store_new, discard, pop, exists,
}

module _ {P X : Type 0} where
  map-ite :
      {Q : Type 0} (d : Dec Q) (a b : Option (Session P X))
      → Option.map (λ s. s.proxy) (ite d a b)
        ≡ ite d (Option.map (λ s. s.proxy) a) (Option.map (λ s. s.proxy) b)
  map-ite (yes q) a b = refl
  map-ite (no q) a b = refl

  find-discard :
      (id j : Text) (st : Store P X)
      → find j (discard id st).0 ≡ ite (Text-discrete id j) none (find j st)
  unfolding discard pop teardown
  find-discard id j st = go (find id st)
    where
      go :
          (o : Option (Session P X))
          → (let r : Store P X × Bool = elim o [
            | none ↦ ((pop id st).0, false)
            | some s ↦ (teardown s (pop id st).0, true)
          ] in
              find j r.0 ≡ ite (Text-discrete id j) none (find j st))
      go none = lookup-remove Text-discrete id j st.sessions
      go (some s) = lookup-remove Text-discrete id j st.sessions

  existed-discard :
      (id : Text) (st : Store P X)
      → (discard id st).1 ≡ is_some (Option.map (λ s. s.proxy) (find id st))
  unfolding discard
  existed-discard id st = go (find id st)
    where
      go :
          (o : Option (Session P X))
          → (let r : Store P X × Bool = elim o [
            | none ↦ ((pop id st).0, false)
            | some s ↦ (teardown s (pop id st).0, true)
          ] in
              r.1 ≡ is_some (Option.map (λ s. s.proxy) o))
      go none = refl
      go (some s) = refl

  discard-Stands :
      (id : Text) (st : Store P X) (m : Spec P)
      → Stands st m
      → Stands (discard id st).0 (assign id none m) × ((discard id st).1 ≡ is_some (m id))
  unfolding Stands
  discard-Stands id st m h = (
    λ j.
        ap (Option.map (λ s. s.proxy)) (find-discard id j st)
        ∙ map-ite (Text-discrete id j) none (find j st)
        ∙ ap (ite (Text-discrete id j) none) (h j),
    existed-discard id st ∙ ap is_some (h id),
  )

  -- The answer to a call, and that the store stands for the map behind it.
  abbrev Agrees : Shared P X × Answer P → Spec P × Answer P → Type 0
  Agrees r q = Stands r.0.store q.0 × (r.1 ≡ q.1)

  spec_found :
      (id : Text) (proxy own : Option P) (b : Option X) (m : Spec P)
      → m id ≡ some own
      → spec_create id proxy b m ≡ (m, session (some (own, false)))
  unfolding spec_create
  spec_found id proxy own b m e = rw (e, spec_create) refl

  spec_built :
      (id : Text) (proxy : Option P) (x : X) (m : Spec P)
      → m id ≡ none
      → spec_create id proxy (some x) m ≡ (assign id (some proxy) m, session (some (proxy, true)))
  unfolding spec_create
  spec_built id proxy x m e = rw (e, spec_create) refl

spec_failed :
    {P : Type 0} (X : Type 0) (id : Text) (proxy : Option P) (m : Spec P)
    → m id ≡ none
    → spec_create {X = X} id proxy none m ≡ (m, session none)
unfolding spec_create
spec_failed X id proxy m e = rw (e, spec_create) refl

module _ {P X : Type 0} where
  agree_by :
      {r r' : Shared P X × Answer P} {q q' : Spec P × Answer P}
      → r ≡ r'
      → q ≡ q'
      → Agrees r' q'
      → Agrees r q
  agree_by {r = r} {q' = q'} e f h =
      subst (λ q. Agrees r q) (sym f) (subst (λ x. Agrees x q') (sym e) h)

  answered : Shared P X × Option (Session P X × Bool) → Shared P X × Answer P
  answered r = (r.0, answer_of r.1)

  create-Agrees :
      (id : Option Text) (proxy : Option P) (claims : Bool) (l : Launch P X) (w : Shared P X)
      (m : Spec P)
      → Stands w.store m
      → Agrees
          (perform (on_create id proxy claims l) w)
          (spec_perform (on_create id proxy claims l) m)
  unfolding perform spec_perform new_session answered Stands claim
  create-Agrees id proxy claims l w m h = go (find i w.store) refl
    where
      i : Text
      i = id_or id l.uuid

      known : (o : Option (Session P X)) → find i w.store ≡ o → m i ≡ Option.map (λ s. s.proxy) o
      known o e = sym (h i) ∙ ap (Option.map (λ s. s.proxy)) e

      claimed :
          (s : Session P X) (b : Bool)
          → Stands (if b then claim s l.found_at w.store else w.store) m
      claimed s true = h
      claimed s false = h

      stored :
          (x : X)
          → find i w.store ≡ none
          → (let built = new_session i x proxy l.built_at w.store in
              Stands (store_new built.1 claims l.stored_at built.0).0 (assign i (some proxy) m))
      stored x e =
          let built = new_session i x proxy l.built_at w.store in
          (λ j.
            ap (Option.map (λ s. s.proxy)) (find-store_new built.1 claims l.stored_at built.0 j e).0
            ∙ map-ite (Text-discrete i j) (some built.1) (find j w.store)
            ∙ ap (ite (Text-discrete i j) (some proxy)) (h j))

      launch :
          (b : Option X)
          → find i w.store ≡ none
          → l.build proxy ≡ b
          → Agrees
              (perform (on_create id proxy claims l) w)
              (spec_perform (on_create id proxy claims l) m)
      launch none e b =
          agree_by (ap answered (create-failed id proxy claims l w e b))
            (ap (λ o. spec_create i proxy o m) b ∙ spec_failed X i proxy m (known none e)) (h, refl)
      launch (some x) e b =
          let built = new_session i x proxy l.built_at w.store in
          agree_by
            (ap answered (
              create-built id proxy claims l w x e b
              ∙ ap (λ r. (r.0, some (r.1, r.2)))
                  (settle_new built.1 proxy claims l.stored_at (record w { store = built.0 }) e)))
            (ap (λ o. spec_create i proxy o m) b ∙ spec_built i proxy x m (known none e))
            (stored x e, refl)

      go :
          (o : Option (Session P X))
          → find i w.store ≡ o
          → Agrees
              (perform (on_create id proxy claims l) w)
              (spec_perform (on_create id proxy claims l) m)
      go (some s) e =
          agree_by (ap answered (create-found id proxy claims l w s e))
            (spec_found i proxy s.proxy (l.build proxy) m (known (some s) e))
            (claimed s claims, refl)
      go none e = launch (l.build proxy) e refl

  known_by : (id : Text) (st : Store P X) (m : Spec P) → Stands st m → exists id st ≡ is_some (m id)
  unfolding Stands exists
  known_by id st m h = go (find id st) ∙ ap is_some (h id)
    where
      go :
          (o : Option (Session P X))
          → (let b : Bool = elim o [ none ↦ false | some _ ↦ true ] in
              b ≡ is_some (Option.map (λ s. s.proxy) o))
      go none = refl
      go (some s) = refl

  perform-Agrees :
      (op : Op P X) (w : Shared P X) (m : Spec P)
      → Stands w.store m
      → Agrees (perform op w) (spec_perform op m)
  unfolding perform spec_perform destroy
  perform-Agrees (on_create id proxy claims l) w m h = create-Agrees id proxy claims l w m h
  perform-Agrees (on_destroy id) w m h =
      let (stands, existed) = discard-Stands id w.store m h in (stands, ap flag existed)
  perform-Agrees (on_discard id) w m h =
      let (stands, existed) = discard-Stands id w.store m h in (stands, ap flag existed)
  perform-Agrees (on_exists id) w m h = (h, ap flag (known_by id w.store m h))

  answers-Stands :
      (ops : List (Op P X)) (w : Shared P X) (m : Spec P)
      → Stands w.store m
      → answers ops w ≡ spec_answers ops m
  unfolding answers spec_answers
  answers-Stands [] w m h = refl
  answers-Stands (op ∷ ops) w m h =
      let (stands, same) = perform-Agrees op w m h in
      cc (same, answers-Stands ops (perform op w).0 (spec_perform op m).0 stands)

-- To one thread, a store that starts empty is a map from ids to proxies: whatever it creates, destroys,
-- discards and asks for, in whatever order and with launches that fail or not, it is handed the proxy of
-- the session that was created first and not taken out since, and is told the truth about what is new and
-- what was there. Claims, clocks, teardowns and the memory of proxies change none of these answers.
pub answers-map :
    {P X : Type 0} (ops : List (Op P X)) (proxies : Proxies P)
    → answers ops (record { store = init; proxies = proxies }) ≡ spec_answers ops (λ _. none)
unfolding Stands init lookup
answers-map ops proxies =
    answers-Stands ops (record { store = init; proxies = proxies }) (λ _. none) (λ id. refl)
