-- ===== src/Service.antt =====
-- flaresolverr_service.py: the state of the service, its answers and its errors.
pub mod Answers
pub mod Commands
pub mod Request
pub mod Resolve
pub mod Routing
mod Tests
use solverr.Base.{ℕ, ◌≡◌, Bool, true, false, Option, none, some, List, [], ◌∷◌, if◌then◌else◌}
use solverr.Base.Int.{ℤ}
use solverr.Base.Text.{Text, codes, text_eq}
use solverr.Base.Value.{Value}
use solverr.Dtos.{Kind}
use solverr.Sessions.{Store}
use solverr.Sessions.Proxies.{Proxies}

-- The two engines, by their `name`.
pub data Engine : Type 0 where
  chrome stealth : Engine

pub Engine-discrete : Discrete Engine
Engine-discrete = hlevel

unfoldable pub is_engine : Engine → Engine → Bool
is_engine chrome chrome = true
is_engine stealth stealth = true
is_engine _ _ = false

abbrev pub engine_name : Engine → Text
engine_name chrome = codes "chrome"
engine_name stealth = codes "stealth"

-- The exceptions, one for each message that the service raises. `engine_failed` is an exception of
-- an engine, with its text, and `build_failed` one of a browser's launch.
pub data Error : Type 0 where
  cmd_missing url_missing url_missing_in_get url_not_http ttl_negative timeout_no_number : Error
  bad_type : Text → Kind → Error
  bad_cookies cmd_invalid post_data_on_get post_data_missing engine_invalid : Error
  engine_unavailable unsolved_page : Engine → Error
  all_engines_failed no_such_session build_failed : Error
  engine_failed : Text → Error

pub data Result {ℓ} (V : Type ℓ) : Type ℓ where
  err : Error → Result V
  ok : V → Result V

-- An exception passes over what stands behind it.
infixl 5 ◌>>=◌ ◌>>◌
abbrev pub ◌>>=◌ {ℓ κ} : {V : Type ℓ} {W : Type κ} → Result V → (V → Result W) → Result W
err why >>= next = err why
ok value >>= next = next value

abbrev pub ◌>>◌ {κ} : {W : Type κ} → Result (Unit {0}) → Result W → Result W
check >> next = check >>= λ _. next

abbrev pub raise_if : Bool → Error → Result (Unit {0})
raise_if true e = err e
raise_if false e = ok tt

-- What an engine returns for a solved request: engines/base.py.
pub record SolveResult : Type 0 where
  pub url : Text
  pub status : ℕ
  pub cookies : Value
  pub user_agent : Text
  pub message : Text
  pub headers : Option Value
  pub response : Option Text
  pub content_type : Option Text
  pub screenshot : Option Text
  pub turnstile_token : Option Text

-- The settings that the service reads from the environment.
pub record Config : Type 0 where
  pub default_engine : Text
  pub engine_fallback : Bool
  pub max_timeout_ms : ℤ

-- `P` is what a proxy is; the stealth engine's pool is there if the engine could be loaded.
-- `domain_engine` is `_DOMAIN_ENGINE`.
pub record State (P X Y : Type 0) : Type 0 where
  pub chrome_pool : Store P X
  pub stealth_pool : Option (Store P Y)
  pub proxies : Proxies P
  pub domain_engine : List (Text × Engine)
