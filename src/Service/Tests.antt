-- ===== src/Service/Tests.antt =====
-- flaresolverr_service.py at concrete requests.
use solverr.Base.{
  ℕ, ◌+◌, ◌-◌, ◌*◌, ◌/◌, ◌≤◌, ◌≡◌, ◌↔◌, refl, ◌⊎◌, ◌||◌, ite, map, true, false, Option, none, some,
  List, [], ◌∷◌, arith, if◌then◌else◌, leb, ℕ_discrete,
}
use solverr.Base.Int.{pos, positive}
use solverr.Base.Text.{
  Text, Text-discrete, codes, starts_with, lower, strip, strip_left, is_blank, lower_code,
}
use solverr.Base.Value.{int, int_of}
use mathlib.Core.List.{lookup}
use solverr.Sessions.{Session, Store, exists}
use solverr.Sessions.Create.{Launch}
use solverr.Service.{
  Engine, chrome, stealth, engine_name, is_engine, ok, err, Config, State, no_such_session,
}
use solverr.Base.{is_some}
use solverr.Base.Value.{null, attr}
use solverr.Service.{SolveResult}
use solverr.Service.Answers.{to_challenge_resolution, has_field, resolution-fields}
use solverr.Service.Commands.{
  already_there, removed, destroy_both, sessions_destroy, sessions_create, sessions_list, has_id,
}
use solverr.Service.Commands.Pools.{destroy_both-pools, sessions_list-pools, sessions_create-held}
use solverr.Service.Request.{
  Request, validate_url, validate_engine, validate_max_timeout, fold_case, clamp, budget_of,
}
use solverr.Service.Request.Checks.{
  IsUnder, validate_url_iff, validate_max_timeout-bounds, validate_engine-names,
}
use solverr.Service.Resolve.{Attempt, raised, resolve_challenge}
use solverr.Service.Resolve.Answer.{answer_from, memory_from, resolve_challenge-answer}
use solverr.Service.Resolve.Budget.{granted, resolve_challenge-clock, fallback_turn}
use solverr.Service.Routing.{
  engine_plan, primary, recalled_engine, available, among, default_in, pool_has, is_in,
  engine_named,
}
use solverr.Service.Routing.Plan.{IsPlan, holds, route, primary-route, engine_plan-IsPlan}

-- Every engine takes a second and fails.
abbrev failing : Engine → ℕ → ℕ → Attempt
failing e share now = record {
  took = if leb 1000000 share then 1000000 else 0;
  outcome = raised (codes "timeout");
}

abbrev both : List Engine
both = chrome ∷ stealth ∷ []

abbrev host : Option Text
host = some (codes "a.org")

resolve_challenge-answer_example :
    ((resolve_challenge failing none both 60000 0 []).0
      ≡ answer_from none none (resolve_challenge failing none both 60000 0 []).1.tried)
    × ((resolve_challenge failing none both 60000 0 []).1.domain_engine
        ≡ memory_from none [] (resolve_challenge failing none both 60000 0 []).1.tried)
resolve_challenge-answer_example = resolve_challenge-answer failing none both 60000 0 []

-- Every engine takes all that it gives itself, and fails.
abbrev patient : Engine → ℕ → ℕ → Attempt
patient e share now = record { took = granted share; outcome = raised (codes "timeout") }

patient_keeps : (e : Engine) (share now : ℕ) → (patient e share now).took ≤ granted share
patient_keeps e share now = omega arith

resolve_challenge-clock_example :
    (resolve_challenge patient none both 60000 0 []).1.clock ≤ 0 + granted (60000 * 1000)
resolve_challenge-clock_example = resolve_challenge-clock patient patient_keeps none both 60000 0 []

fallback_turn_example :
    ((resolve_challenge failing none both 60000 0 []).1.tried
      ≡ (chrome, raised (codes "timeout")) ∷ (stealth, raised (codes "timeout")) ∷ [])
    × (60000 * 1000 / 2 ≤ 60000 * 1000 - 1000000)
fallback_turn_example =
    fallback_turn failing none chrome stealth 60000 0 [] (omega arith) (omega arith) tt

abbrev session_b : Session ℕ ℕ
session_b = record {
  handle = 0;
  session_id = codes "b";
  payload = 8;
  created_at = 60;
  proxy = none;
}

abbrev pool : Store ℕ ℕ
pool = record {
  sessions = (codes "b", session_b) ∷ [];
  next_handle = 1;
  last_used = λ _. 60;
  in_use = λ _. 0;
  closed = [];
}

abbrev state : State ℕ ℕ ℕ
state = record { chrome_pool = pool; stealth_pool = some pool; proxies = []; domain_engine = [] }

abbrev config : Config
config = record {
  default_engine = codes "stealth";
  engine_fallback = true;
  max_timeout_ms = pos 180000;
}

abbrev request : Request
request = record {
  url = some (codes "https://a.org/");
  post_data = none;
  session = some (codes "b");
  session_ttl_minutes = none;
  engine = none;
  tabs_till_verify = none;
  max_timeout = 60000;
}

primary-route_example :
    primary config (some (codes "b")) host state
    ≡ route
        (holds config state chrome (some (codes "b")))
        (holds config state stealth (some (codes "b")))
        (among (available state) (recalled_engine host state.domain_engine))
        (default_in config state)
primary-route_example = primary-route config state (some (codes "b")) host

-- The stealth engine is asked for by name.
abbrev forced : Request
forced = record request { engine = some (codes " Stealth") }

plans : engine_plan config forced state ≡ ok (stealth ∷ [])
unfolding engine_plan validate_engine engine_named is_in available is_engine lower strip strip_left
    is_blank lower_code Text-discrete ℕ_discrete
plans = refl

engine_plan-IsPlan_example : IsPlan config state (stealth ∷ [])
engine_plan-IsPlan_example = engine_plan-IsPlan config state forced (stealth ∷ []) plans

destroy_both-pools_example :
    (pool_has stealth (codes "b") (destroy_both (codes "b") state).0
      ≡ ite (Text-discrete (codes "b") (codes "b")) false (pool_has stealth (codes "b") state))
    × ((sessions_destroy (some (codes "b")) state).1 ≡ (
        if pool_has chrome (codes "b") state || pool_has stealth (codes "b") state
        then ok removed
        else err no_such_session))
destroy_both-pools_example = destroy_both-pools (codes "b") (codes "b") stealth state

sessions_list-pools_case :
    has_id (codes "b") (sessions_list state)
    ≡ (pool_has chrome (codes "b") state || pool_has stealth (codes "b") state)
sessions_list-pools_case = sessions_list-pools (codes "b") state

abbrev launch : Launch ℕ ℕ
launch = record {
  build = λ proxy. some 9;
  uuid = codes "uuid";
  found_at = 70;
  built_at = 71;
  stored_at = 72;
}

no_engine : validate_engine none ≡ ok []
unfolding validate_engine
no_engine = refl

b_is_there : pool_has stealth (codes "b") state ≡ true
unfolding pool_has exists lookup Text-discrete ℕ_discrete
b_is_there = refl

sessions_create-held_case :
    sessions_create config request none launch launch state
    ≡ (state, ok (already_there (codes "b")))
sessions_create-held_case =
    sessions_create-held config request none launch launch state (codes "b") [] stealth refl
      (λ p. ground arith) no_engine b_is_there

validate_url_iff_case : (validate_url (some (codes "HTTP://a")) ≡ ok (codes "HTTP://a")) ↔ (
    (some (codes "HTTP://a") ≡ some (codes "HTTP://a"))
    × ((starts_with (map fold_case (codes "HTTP://a")) (codes "http://") ≡ true)
        ⊎ (starts_with (map fold_case (codes "HTTP://a")) (codes "https://") ≡ true)))
validate_url_iff_case = validate_url_iff (some (codes "HTTP://a")) (codes "HTTP://a")

clamped : validate_max_timeout (pos 180000) (int (pos 999999)) ≡ ok 180000
unfolding validate_max_timeout clamp budget_of int_of
clamped = refl

validate_max_timeout-bounds_example : (1 ≤ 180000) × IsUnder (positive (some (pos 180000))) 180000
validate_max_timeout-bounds_example =
    validate_max_timeout-bounds (pos 180000) (int (pos 999999)) 180000 clamped

auto_named : validate_engine (some (codes " Auto")) ≡ ok (codes "auto")
unfolding validate_engine lower strip strip_left is_blank lower_code Text-discrete ℕ_discrete
auto_named = refl

validate_engine-names_case :
    (codes "auto" ≡ [])
    ⊎ ((codes "auto" ≡ codes "auto")
        ⊎ ((codes "auto" ≡ engine_name chrome) ⊎ (codes "auto" ≡ engine_name stealth)))
validate_engine-names_case = validate_engine-names (some (codes " Auto")) (codes "auto") auto_named

abbrev result : SolveResult
result = record {
  url = codes "https://a.org/";
  status = 200;
  cookies = null;
  user_agent = codes "agent";
  message = codes "solved";
  headers = none;
  response = some (codes "page");
  content_type = none;
  screenshot = none;
  turnstile_token = none;
}

resolution-fields_case :
    (has_field (codes "headers") (to_challenge_resolution result) ≡ is_some result.headers)
    × (has_field (codes "response") (to_challenge_resolution result) ≡ is_some result.response)
    × (has_field (codes "contentType") (to_challenge_resolution result)
        ≡ is_some result.content_type)
    × (has_field (codes "screenshot") (to_challenge_resolution result) ≡ is_some result.screenshot)
    × (attr (codes "status") (to_challenge_resolution result) null ≡ int (pos 200))
resolution-fields_case = resolution-fields result
