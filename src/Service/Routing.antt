-- ===== src/Service/Routing.antt =====
-- flaresolverr_service.py: which engines a request is tried on.
pub mod Plan
use solverr.Base.{
  ℕ, ◌≡◌, Bool, true, false, not, ◌&&◌, Option, none, some, List, [], ◌∷◌, ◌++◌, if◌then◌else◌,
  keep, length,
}
use solverr.Base.Dict.{remember}
use solverr.Base.Text.{Text, Text-discrete, codes, text_eq}
use solverr.Base.Url.{hostname}
use mathlib.Core.List.{lookup}
use solverr.Sessions.{Store, exists}
use solverr.Service.{
  Engine, chrome, stealth, is_engine, engine_name, Error, engine_unavailable, Result, ok, err,
  ◌>>=◌, Config, State,
}
use solverr.Service.Request.{Request, validate_engine}

abbrev pub max_remembered_hosts : ℕ
max_remembered_hosts = 500

-- `_host_of`
unfoldable pub host_of : Option Text → Option Text
unfolding hostname
host_of none = none
host_of (some url) = hostname url

-- `_remember_engine`; an empty host is none.
unfoldable pub remember_engine : Option Text → Engine → List (Text × Engine) → List (Text × Engine)
unfolding remember
remember_engine none e m = m
remember_engine (some []) e m = m
remember_engine (some (c ∷ host)) e m = remember Text-discrete max_remembered_hosts (c ∷ host) e m

-- `_recalled_engine`
unfoldable pub recalled_engine : Option Text → List (Text × Engine) → Option Engine
recalled_engine none m = none
recalled_engine (some []) m = none
recalled_engine (some (c ∷ host)) m = lookup Text-discrete (c ∷ host) m

-- The engine of a name, if it is one.
unfoldable pub engine_named : Text → Option Engine
engine_named name =
    if text_eq name (engine_name chrome)
    then some chrome
    else (if text_eq name (engine_name stealth) then some stealth else none)

unfoldable pub is_in : Engine → List Engine → Bool
unfolding is_engine
is_in e [] = false
is_in e (x ∷ xs) = if is_engine e x then true else is_in e xs

-- The remembered engine, if it is one of these.
abbrev pub among : List Engine → Option Engine → Option Engine
among es none = none
among es (some e) = if is_in e es then some e else none

abbrev pub first_or : Option Engine → Option Engine → Option Engine
first_or none o = o
first_or (some e) o = some e

module _ {P X Y : Type 0} where
  -- `_available_engines`: Chrome always, the stealth engine if it was loaded.
  unfoldable pub available : State P X Y → List Engine
  available st = elim st.stealth_pool [ none ↦ chrome ∷ [] | some _ ↦ chrome ∷ stealth ∷ [] ]

  -- `_pool_has`
  unfoldable pub pool_has : Engine → Text → State P X Y → Bool
  unfolding exists
  pool_has chrome id st = exists id st.chrome_pool
  pool_has stealth id st = elim st.stealth_pool [ none ↦ false | some pool ↦ exists id pool ]

  -- The engines that hold the request's session; an empty session id is none.
  unfoldable pub holders : Option Text → State P X Y → List Engine
  unfolding available pool_has
  holders none st = []
  holders (some []) st = []
  holders (some (c ∷ id)) st = keep (λ e. pool_has e (c ∷ id) st) (available st)

  -- The engine that holds the session; of several, the one that the host's memory names.
  unfoldable pub holder : Option Text → Option Text → State P X Y → Option Engine
  unfolding holders recalled_engine is_in
  holder session host st = elim (holders session st) [
    | [] ↦ none
    | e ∷ [] ↦ some e
    | e ∷ f ∷ es ↦ first_or (among (e ∷ f ∷ es) (recalled_engine host st.domain_engine)) (some e)
  ]

  -- `default if default in available else 'chrome'`
  unfoldable pub default_in : Config → State P X Y → Engine
  unfolding engine_named available is_in
  default_in config st = elim (among (available st) (engine_named config.default_engine)) [
    | none ↦ chrome
    | some e ↦ e
  ]

  unfoldable pub primary : Config → Option Text → Option Text → State P X Y → Engine
  unfolding holder default_in
  primary config session host st =
      elim (first_or (holder session host st)
        (among (available st) (recalled_engine host st.domain_engine))) [
          | some e ↦ e
          | none ↦ default_in config st
        ]

  -- The plan without a forced engine.
  unfoldable pub planned : Config → Request → State P X Y → List Engine
  unfolding primary host_of
  planned config req st =
      let p = primary config req.session (host_of req.url) st in
      p ∷ (if config.engine_fallback then keep (λ e. not (is_engine e p)) (available st) else [])

  -- `_engine_plan`
  unfoldable pub engine_plan : Config → Request → State P X Y → Result (List Engine)
  unfolding validate_engine planned engine_named
  engine_plan config req st = do
    forced ← validate_engine req.engine
    elim (engine_named forced) [
      | none ↦ ok (planned config req st)
      | some e ↦ if is_in e (available st) then ok (e ∷ []) else err (engine_unavailable e)
    ]
