-- ===== src/Service/Routing/Plan.antt =====
-- Which plans `_engine_plan` makes.
use solverr.Base.{
  ℕ, ◌≡◌, refl, sym, ◌≢◌, ◌⊎◌, inl, inr, Bool, true, false, not, Option, none, some, List, [], ◌∷◌,
  keep, if◌then◌else◌, arith, Bool-cases, Option-cases,
}
use solverr.Base.Text.{Text}
use solverr.Service.{
  Engine, chrome, stealth, is_engine, Result, ok, err, ◌>>=◌, Config, State, engine_unavailable,
}
use solverr.Service.Request.{Request, validate_engine}
use solverr.Service.Routing.{
  host_of, recalled_engine, engine_named, is_in, among, available, pool_has, holders, holder,
  default_in, primary, planned, engine_plan,
}

-- The engine that a plan without a forced engine begins with, by who holds the session, what the
-- host's memory names, and the default.
abbrev pub route : Bool → Bool → Option Engine → Engine → Engine
route true false m d = chrome
route false true m d = stealth
route true true none d = chrome
route true true (some e) d = e
route false false none d = d
route false false (some e) d = e

module _ {P X Y : Type 0} (config : Config) (st : State P X Y) where
  -- One engine that is there, or two different ones.
  abbrev pub IsPlan : List Engine → Type 0
  IsPlan [] = ⊥
  IsPlan (e ∷ []) = is_in e (available st) ≡ true
  IsPlan (e ∷ f ∷ []) =
      (e ≢ f)
      × (is_in e (available st) ≡ true)
      × (is_in f (available st) ≡ true)
      × (config.engine_fallback ≡ true)
  IsPlan (e ∷ f ∷ g ∷ es) = ⊥

  chrome-available : is_in chrome (available st) ≡ true
  unfolding available is_in
  chrome-available = ground arith

  among-available :
      (o : Option Engine) (e : Engine)
      → among (available st) o ≡ some e
      → is_in e (available st) ≡ true
  among-available none e h = absurd (ground arith)
  among-available (some x) e h = ground arith

  default-available : is_in (default_in config st) (available st) ≡ true
  unfolding default_in
  default-available =
      elim (Option-cases (among (available st) (engine_named config.default_engine))) [
        | inl e ↦ rw (e, default_in) chrome-available
        | inr (d, e) ↦ rw (e, default_in) (among-available _ d e)
      ]

  has-available : (e : Engine) (id : Text) → pool_has e id st ≡ true → is_in e (available st) ≡ true
  unfolding pool_has available is_in
  has-available chrome id h = ground arith
  has-available stealth id h = ground arith

  pub stealth_absent : (id : Text) → st.stealth_pool ≡ none → pool_has stealth id st ≡ false
  unfolding pool_has
  stealth_absent id e = rw (e, pool_has)

  available_cases :
      ((st.stealth_pool ≡ none) × (available st ≡ chrome ∷ []))
      ⊎ (available st ≡ chrome ∷ stealth ∷ [])
  unfolding available
  available_cases = ground arith

  pub holders_table :
      (c : ℕ) (id : Text)
      → holders (some (c ∷ id)) st ≡ (
          if pool_has chrome (c ∷ id) st
          then (if pool_has stealth (c ∷ id) st then chrome ∷ stealth ∷ [] else chrome ∷ [])
          else (if pool_has stealth (c ∷ id) st then stealth ∷ [] else []))
  unfolding holders
  holders_table c id = elim available_cases [
    | inl (e, a) ↦ rw (holders, a, stealth_absent (c ∷ id) e) (ground arith)
    | inr a ↦ rw (holders, a) (ground arith)
  ]

  holder-available :
      (session host : Option Text) (e : Engine)
      → holder session host st ≡ some e
      → is_in e (available st) ≡ true
  unfolding holder
  holder-available none host e h = absurd (ground arith)
  holder-available (some []) host e h = absurd (ground arith)
  holder-available (some (c ∷ id)) host e h = ground (
    arith,
    holders_table c id,
    chrome-available,
    has-available stealth (c ∷ id),
    has-available chrome (c ∷ id),
  )

  primary-available :
      (session host : Option Text) → is_in (primary config session host st) (available st) ≡ true
  unfolding primary
  primary-available session host = ground (
    arith,
    default-available,
    Option-cases (holder session host st),
    Option-cases (among (available st) (recalled_engine host st.domain_engine)),
    holder-available session host chrome,
    holder-available session host stealth,
    among-available (recalled_engine host st.domain_engine) chrome,
    among-available (recalled_engine host st.domain_engine) stealth,
  )

  chrome_stealth : chrome ≢ stealth
  chrome_stealth p = ground arith

  stealth-available : available st ≡ chrome ∷ stealth ∷ [] → is_in stealth (available st) ≡ true
  unfolding is_in is_engine
  stealth-available l = rw l refl

  abbrev with_fallback : Engine → List Engine
  with_fallback e =
      e ∷ (if config.engine_fallback then keep (λ f. not (is_engine f e)) (available st) else [])

  with_fallback-IsPlan : (e : Engine) → is_in e (available st) ≡ true → IsPlan (with_fallback e)
  unfolding is_in is_engine
  with_fallback-IsPlan e a = go config.engine_fallback refl
    where
      both :
          (e : Engine)
          → is_in e (available st) ≡ true
          → config.engine_fallback ≡ true
          → (((st.stealth_pool ≡ none) × (available st ≡ chrome ∷ []))
              ⊎ (available st ≡ chrome ∷ stealth ∷ []))
          → IsPlan (e ∷ keep (λ f. not (is_engine f e)) (available st))
      both chrome a on (inl (_, l)) = rw l a
      both stealth a on (inl (_, l)) = absurd (ground arith)
      both chrome a on (inr l) = rw l ((λ p. chrome_stealth p), a, stealth-available l, on)
      both stealth a on (inr l) = rw l ((λ p. chrome_stealth (sym p)), a, chrome-available, on)

      go :
          (b : Bool)
          → config.engine_fallback ≡ b
          → IsPlan (e ∷ (if b then keep (λ f. not (is_engine f e)) (available st) else []))
      go false h = a
      go true h = both e a h available_cases

  planned-IsPlan : (req : Request) → IsPlan (planned config req st)
  unfolding planned
  planned-IsPlan req =
      with_fallback-IsPlan (primary config req.session (host_of req.url) st)
        (primary-available req.session (host_of req.url))

  -- A plan names one engine that is there, or, with the fallback on, two different ones.
  pub engine_plan-IsPlan :
      (req : Request) (order : List Engine) → engine_plan config req st ≡ ok order → IsPlan order
  unfolding engine_plan
  engine_plan-IsPlan req order h = go (validate_engine req.engine) h
    where
      named :
          (o : Option Engine)
          → elim o [
            | none ↦ ok (planned config req st)
            | some e ↦ if is_in e (available st) then ok (e ∷ []) else err (engine_unavailable e)
          ]
            ≡ ok order
          → IsPlan order
      named none h = let p : order ≡ planned config req st = cc in rw p (planned-IsPlan req)
      named (some e) h = elim (Bool-cases (is_in e (available st))) [
        | inr off ↦ absurd (ground arith)
        | inl there ↦ let p : order ≡ e ∷ [] = ground arith in rw p there
      ]

      go :
          (r : Result Text)
          → (do
            forced ← r
            elim (engine_named forced) [
              | none ↦ ok (planned config req st)
              | some e ↦ if is_in e (available st) then ok (e ∷ []) else err (engine_unavailable e)
            ])
            ≡ ok order
          → IsPlan order
      go (err x) h = absurd (ground arith)
      go (ok name) h = named (engine_named name) h

  abbrev pub holds : Engine → Option Text → Bool
  holds e none = false
  holds e (some []) = false
  holds e (some (c ∷ id)) = pool_has e (c ∷ id) st

  -- The session's holder comes first; where both pools hold it, or none does, the engine that the
  -- host is remembered with, if it is there; then Chrome, if both hold it, and else the default.
  pub primary-route :
      (session host : Option Text)
      → primary config session host st
        ≡ route
            (holds chrome session)
            (holds stealth session)
            (among (available st) (recalled_engine host st.domain_engine))
            (default_in config st)
  unfolding primary holder
  primary-route none host = ground arith
  primary-route (some []) host = ground arith
  primary-route (some (c ∷ id)) host =
      ground (arith, holders_table c id, chrome-available, has-available stealth (c ∷ id))
