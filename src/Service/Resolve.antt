-- ===== src/Service/Resolve.antt =====
-- flaresolverr_service.py: `_resolve_challenge`, the loop over the planned engines within one
-- budget. Times are microseconds of the monotonic clock. An engine is given: for a share of the
-- budget and the time it starts at, it takes some time and returns a result or raises.
pub mod Answer
pub mod Budget
use solverr.Base.{
  ℕ, ◌+◌, ◌-◌, ◌*◌, ◌/◌, ◌≡◌, Bool, true, false, not, ◌&&◌, Option, none, some, List, [], ◌∷◌, ◌++◌,
  ltb, if◌then◌else◌, length,
}
use solverr.Base.Text.{Text}
use solverr.Detection.{looks_like_challenge_html}
use solverr.Service.{
  Engine, Error, engine_failed, unsolved_page, all_engines_failed, Result, ok, err, SolveResult,
}
use solverr.Service.Routing.{remember_engine}

-- An engine's answer: a page, or the exception's text.
pub data Outcome : Type 0 where
  page : SolveResult → Outcome
  raised : Text → Outcome

pub record Attempt : Type 0 where
  pub took : ℕ
  pub outcome : Outcome

-- `_MIN_ENGINE_SECONDS`
abbrev pub min_engine_time : ℕ
min_engine_time = 5_000_000

-- `_looks_challenged`
unfoldable pub looks_challenged : SolveResult → Bool
looks_challenged r = looks_like_challenge_html r.response

-- The loop's variables. `tried` lists the engines that were called, with what each did.
pub record Loop : Type 0 where
  pub clock : ℕ
  pub domain_engine : List (Text × Engine)
  pub last_error : Option Error
  pub last_result : Option SolveResult
  pub tried : List (Engine × Outcome)

-- Where an iteration leaves the loop: it goes on, breaks, returns or raises.
pub data Control : Type 0 where
  continues breaks : Loop → Control
  returns : SolveResult → Loop → Control
  raises : Error → Loop → Control

-- What an engine that raised leads to.
unfoldable pub on_error : Bool → Text → Loop → Control
on_error is_last why st =
    let st' : Loop = record st { last_error = some (engine_failed why) } in
    if is_last
    then (elim st.last_result [ some r ↦ breaks st' | none ↦ raises (engine_failed why) st' ])
    else continues st'

-- What an engine that returned a page leads to.
unfoldable pub on_page : Option Text → Bool → Engine → SolveResult → Loop → Control
unfolding looks_challenged remember_engine
on_page host is_last e r st =
    if looks_challenged r
    then (if is_last
        then returns r st
        else continues (record st { last_error = some (unsolved_page e); last_result = some r }))
    else returns r (record st { domain_engine = remember_engine host e st.domain_engine })

unfoldable pub react : Option Text → Bool → Engine → Outcome → Loop → Control
unfolding on_error on_page
react host is_last e (raised why) st = on_error is_last why st
react host is_last e (page r) st = on_page host is_last e r st

abbrev pub is_empty : List Engine → Bool
is_empty [] = true
is_empty (e ∷ es) = false

-- One engine's turn, before the engines `rest`. A deadline that has passed leaves a share of 0, where the source's float is
-- below it; an engine gives itself a second for any share up to a second.
unfoldable pub turn :
    (Engine → ℕ → ℕ → Attempt) → ℕ → Option Text → Engine → List Engine → Loop → Control
unfolding react
turn solve deadline host e rest st =
    let share = (deadline - st.clock) / (length rest + 1) in
    let a = solve e share st.clock in
    react host (is_empty rest) e a.outcome
      (record st { clock = st.clock + a.took; tried = st.tried ++ (e, a.outcome) ∷ [] })

-- What stands behind the loop.
unfoldable pub leave : Loop → Result SolveResult × Loop
leave st = elim st.last_result [
  | some r ↦ (ok r, st)
  | none ↦ elim st.last_error [ some e ↦ (err e, st) | none ↦ (err all_engines_failed, st) ]
]

-- The loop; the flag says that an engine has been tried.
unfoldable pub attempts :
    (Engine → ℕ → ℕ → Attempt)
    → ℕ
    → Option Text
    → Bool
    → List Engine
    → Loop
    → Result SolveResult × Loop
unfolding turn leave
attempts solve deadline host later [] st = leave st
attempts solve deadline host later (e ∷ es) st =
    elim (later && ltb (deadline - st.clock) min_engine_time) [
      | true ↦ leave st
      | false ↦ elim (turn solve deadline host e es st) [
        | continues st' ↦ attempts solve deadline host true es st'
        | breaks st' ↦ leave st'
        | returns r st' ↦ (ok r, st')
        | raises why st' ↦ (err why, st')
      ]
    ]

abbrev pub start_loop : ℕ → List (Text × Engine) → Loop
start_loop now m = record {
  clock = now;
  domain_engine = m;
  last_error = none;
  last_result = none;
  tried = [];
}

-- `_resolve_challenge` for a plan, a budget in milliseconds, and the time of the call.
unfoldable pub resolve_challenge :
    (Engine → ℕ → ℕ → Attempt)
    → Option Text
    → List Engine
    → ℕ
    → ℕ
    → List (Text × Engine)
    → Result SolveResult × Loop
unfolding attempts
resolve_challenge solve host order max_timeout now m =
    attempts solve (now + max_timeout * 1000) host false order (start_loop now m)
