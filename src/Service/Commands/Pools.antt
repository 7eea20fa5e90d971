-- ===== src/Service/Commands/Pools.antt =====
-- flaresolverr_service.py: what the session commands do to both pools.
use solverr.Base.{
  ℕ, ◌≡◌, refl, true, false, ◌||◌, ◌&&◌, not, Option, none, some, List, [], ◌∷◌, ◌++◌, map, arith,
  Bool-cases, Option-cases, inl, inr, ◌≢◌, ite, if◌then◌else◌,
}
use solverr.Base.Text.{Text, Text-discrete}
use solverr.Base.Dict.{lookup-remove}
use mathlib.Core.List.{lookup}
use solverr.Sessions.{Store, exists, discard, pop, teardown, session_ids}
use solverr.Sessions.Create.{Launch, destroy}
use solverr.Service.{Engine, chrome, stealth, ok, err, Config, State, no_such_session}
use solverr.Service.Request.{Request, validate_engine}
use solverr.Service.Routing.{pool_has, holders}
use solverr.Service.Routing.Plan.{holders_table}
use solverr.Service.Commands.{
  already_there, removed, destroy_both, sessions_destroy, sessions_create, sessions_list, has_id,
  once_each,
}

module _ {P X : Type 0} where
  exists-discard :
      (id j : Text) (st : Store P X)
      → exists j (discard id st).0 ≡ ite (Text-discrete id j) false (exists j st)
  unfolding exists discard pop teardown
  exists-discard id j st = ground (arith, lookup-remove Text-discrete id j st.sessions)

  discard-existed : (id : Text) (st : Store P X) → (discard id st).1 ≡ exists id st
  unfolding exists discard pop
  discard-existed id st = ground arith

has_id-keys :
    {V : Type 0} (id : Text) (d : List (Text × V))
    → has_id id (map (λ e. e.0) d)
      ≡ elim (lookup Text-discrete id d) [ none ↦ false | some _ ↦ true ]
unfolding has_id lookup
has_id-keys id [] = refl
has_id-keys id (e ∷ d) = ground (arith, has_id-keys id d)

has_id-append :
    (id : Text) (xs ys : List Text) → has_id id (xs ++ ys) ≡ (has_id id xs || has_id id ys)
unfolding has_id
has_id-append id [] ys = refl
has_id-append id (x ∷ xs) ys = ground (arith, has_id-append id xs ys)

has_id-once_each :
    (id : Text) (seen xs : List Text)
    → has_id id (once_each seen xs) ≡ (not (has_id id seen) && has_id id xs)
unfolding has_id once_each
has_id-once_each id seen [] = ground arith
has_id-once_each id seen (x ∷ xs) = ground (arith, has_id-once_each id (x ∷ seen) xs)

module _ {P X Y : Type 0} where
  -- After `sessions.destroy` of an id neither pool has it, every other id is where it was, and the
  -- command succeeds exactly if a pool had the id.
  pub destroy_both-pools :
      (id j : Text) (e : Engine) (st : State P X Y)
      → (pool_has e j (destroy_both id st).0 ≡ ite (Text-discrete id j) false (pool_has e j st))
        × ((sessions_destroy (some id) st).1 ≡ (
            if pool_has chrome id st || pool_has stealth id st
            then ok removed
            else err no_such_session))
  unfolding destroy_both sessions_destroy pool_has destroy
  destroy_both-pools id j chrome st = ground (
    arith,
    exists-discard id j st.chrome_pool,
    discard-existed id st.chrome_pool,
    Option-cases st.stealth_pool,
  )
  destroy_both-pools id j stealth st = elim (Option-cases st.stealth_pool) [
    | inl e ↦ ground (arith, e, discard-existed id st.chrome_pool)
    | inr (pool, e) ↦ ground (
      arith,
      e,
      exists-discard id j pool,
      discard-existed id pool,
      discard-existed id st.chrome_pool,
    )
  ]

  -- `sessions.list` names an id exactly if a pool has it.
  pub sessions_list-pools :
      (id : Text) (st : State P X Y)
      → has_id id (sessions_list st) ≡ (pool_has chrome id st || pool_has stealth id st)
  unfolding sessions_list pool_has exists session_ids
  sessions_list-pools id st = elim (Option-cases st.stealth_pool) [
    | inl e ↦
        rw (sessions_list, pool_has, e) (ground (arith, has_id-keys id st.chrome_pool.sessions))
    | inr (pool, e) ↦
        rw (sessions_list, pool_has, e)
          (ground (
            arith,
            has_id-keys id st.chrome_pool.sessions,
            has_id-keys id pool.sessions,
            has_id-once_each id [] (session_ids st.chrome_pool ++ session_ids pool),
            has_id-append id (session_ids st.chrome_pool) (session_ids pool),
          ))
  ]

  holders-some :
      (config : Config) (c : ℕ) (id : Text) (e : Engine) (st : State P X Y)
      → pool_has e (c ∷ id) st ≡ true
      → (f : Engine) × (es : List Engine) × (holders (some (c ∷ id)) st ≡ f ∷ es)
  holders-some config c id chrome st h = elim (Bool-cases (pool_has stealth (c ∷ id) st)) [
    | inl g ↦ (chrome, stealth ∷ [], rw (holders_table config st c id, h, g) refl)
    | inr g ↦ (chrome, [], rw (holders_table config st c id, h, g) refl)
  ]
  holders-some config c id stealth st h = elim (Bool-cases (pool_has chrome (c ∷ id) st)) [
    | inl g ↦ (chrome, stealth ∷ [], rw (holders_table config st c id, g, h) refl)
    | inr g ↦ (stealth, [], rw (holders_table config st c id, g, h) refl)
  ]

  -- With a known engine's name, `sessions.create` for an id that a pool has changes nothing and says
  -- that the session is there.
  pub sessions_create-held :
      (config : Config) (req : Request) (proxy : Option P) (lx : Launch P X) (ly : Launch P Y)
      (st : State P X Y) (id forced : Text) (e : Engine)
      → req.session ≡ some id
      → id ≢ []
      → validate_engine req.engine ≡ ok forced
      → pool_has e id st ≡ true
      → sessions_create config req proxy lx ly st ≡ (st, ok (already_there id))
  unfolding sessions_create
  sessions_create-held config req proxy lx ly st [] forced e s n v h = absurd (n refl)
  sessions_create-held config req proxy lx ly st (c ∷ id) forced e s n v h =
      let (f, es, some_holder) = holders-some config c id e st h in
      rw (sessions_create, v, s, some_holder) (rw s refl)
