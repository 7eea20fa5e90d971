-- ===== src/Config.antt =====
-- config.py: the settings, read from the environment.
pub mod Hosts
pub mod Language
pub mod Outgoing
use solverr.Base.{
  ℕ, ◌≡◌, Bool, true, false, not, ◌&&◌, ◌||◌, Option, none, some, List, [], ◌∷◌, ◌++◌, map,
  if◌then◌else◌, ◌==◌, leb, or_else, length,
}
use solverr.Base.Int.{ℤ, pos, negsuc}
use solverr.Base.Text.{
  Text, codes, text_eq, lower, upper, strip, split, before, lower_code, upper_code,
}
use solverr.Base.Value.{parse_int}
use solverr.Passthrough.{Settings, settings_of}
use solverr.Service.{Config}

-- `os.environ.get`
abbrev pub Env : Type 0
Env = Text → Option Text

abbrev pub env_or : Env → Text → Text → Text
env_or env name default = or_else (env name) default

-- `_bool`
unfoldable pub bool_env : Env → Text → Bool → Bool
unfolding lower strip
bool_env env name default =
    text_eq (lower (strip (env_or env name (if default then codes "True" else codes "False"))))
      (codes "true")

-- `_int_env`; the text of the default reads as the default.
unfoldable pub int_env : Env → Text → ℤ → ℤ
unfolding parse_int
int_env env name default = elim (env name) [
  | none ↦ default
  | some raw ↦ or_else (parse_int raw) default
]

unfoldable pub stealth_enabled : Env → Bool
unfolding bool_env
stealth_enabled env = bool_env env (codes "STEALTH_ENGINE") true

unfoldable pub default_engine : Env → Text
unfolding lower strip
default_engine env = lower (strip (env_or env (codes "DEFAULT_ENGINE") (codes "chrome")))

unfoldable pub stealth_headless : Env → Bool
unfolding bool_env
stealth_headless env = bool_env env (codes "STEALTH_HEADLESS") true

unfoldable pub stealth_max_attempts : Env → ℤ
unfolding int_env
stealth_max_attempts env = int_env env (codes "STEALTH_MAX_ATTEMPTS") (pos 1)

unfoldable pub engine_fallback : Env → Bool
unfolding bool_env
engine_fallback env = bool_env env (codes "ENGINE_FALLBACK") true

unfoldable pub response_headers : Env → Bool
unfolding bool_env
response_headers env = bool_env env (codes "RESPONSE_HEADERS") false

unfoldable pub browser_wait_timeout : Env → ℤ
unfolding int_env
browser_wait_timeout env = int_env env (codes "BROWSER_WAIT_TIMEOUT") (pos 1)

unfoldable pub session_ttl_minutes : Env → ℤ
unfolding int_env
session_ttl_minutes env = int_env env (codes "SESSION_TTL_MINUTES") (pos 30)

unfoldable pub session_max : Env → ℤ
unfolding int_env
session_max env = int_env env (codes "SESSION_MAX") (pos 20)

unfoldable pub reaper_interval_seconds : Env → ℤ
unfolding int_env
reaper_interval_seconds env = int_env env (codes "REAPER_INTERVAL_SECONDS") (pos 60)

unfoldable pub captcha_provider : Env → Text
unfolding lower strip
captcha_provider env = lower (strip (env_or env (codes "CAPTCHA_SOLVER") (codes "none")))

unfoldable pub captcha_api_key : Env → Text
unfolding strip
captcha_api_key env = strip (env_or env (codes "CAPTCHA_API_KEY") [])

unfoldable pub api_solver_enabled : Env → Bool
unfolding captcha_provider captcha_api_key
api_solver_enabled env =
    not (text_eq (captcha_provider env) [] || text_eq (captcha_provider env) (codes "none"))
    && not (text_eq (captcha_api_key env) [])

unfoldable pub captcha_api_server : Env → Text
unfolding captcha_provider strip
captcha_api_server env =
    let server = strip (env_or env (codes "CAPTCHA_API_URL") []) in
    if text_eq server []
    then (if text_eq (captcha_provider env) (codes "capsolver")
        then codes "api.capsolver.com"
        else codes "2captcha.com")
    else server

unfoldable pub captcha_api_max_attempts : Env → ℤ
unfolding int_env
captcha_api_max_attempts env = int_env env (codes "CAPTCHA_API_MAX_ATTEMPTS") (pos 3)

unfoldable pub max_timeout_ms : Env → ℤ
unfolding int_env
max_timeout_ms env = int_env env (codes "MAX_TIMEOUT_MS") (pos 180000)

unfoldable pub passthrough_enabled : Env → Bool
unfolding bool_env
passthrough_enabled env = bool_env env (codes "PASSTHROUGH_ENABLED") false

unfoldable pub passthrough_port : Env → ℤ
unfolding int_env
passthrough_port env = int_env env (codes "PASSTHROUGH_PORT") (pos 8888)

-- The hosts of a comma-separated list.
unfoldable pub tidy_hosts : List Text → List Text
unfolding lower strip
tidy_hosts [] = []
tidy_hosts (h ∷ hs) =
    let rest = tidy_hosts hs in if text_eq (strip h) [] then rest else lower (strip h) ∷ rest

unfoldable pub passthrough_allowed_hosts : Env → List Text
unfolding tidy_hosts split
passthrough_allowed_hosts env =
    tidy_hosts (split b',' (env_or env (codes "PASSTHROUGH_ALLOWED_HOSTS") []))

unfoldable pub passthrough_cache_ttl : Env → ℤ
unfolding int_env
passthrough_cache_ttl env = int_env env (codes "PASSTHROUGH_CACHE_TTL") (pos 3600)

unfoldable pub passthrough_cache_requires : Env → Text
unfolding strip
passthrough_cache_requires env = strip (env_or env (codes "PASSTHROUGH_CACHE_REQUIRES") [])

unfoldable pub passthrough_cache_max_bytes : Env → ℤ
unfolding int_env
passthrough_cache_max_bytes env = int_env env (codes "PASSTHROUGH_CACHE_MAX_BYTES") (pos 268435456)

unfoldable pub passthrough_timeout_ms : Env → ℤ
unfolding int_env
passthrough_timeout_ms env = int_env env (codes "PASSTHROUGH_TIMEOUT_MS") (pos 90000)

-- What the service reads.
unfoldable pub service_config : Env → Config
unfolding default_engine engine_fallback max_timeout_ms
service_config env = record {
  default_engine = default_engine env;
  engine_fallback = engine_fallback env;
  max_timeout_ms = max_timeout_ms env;
}

-- What `passthrough.start` reads; `none` if the proxy is not enabled.
unfoldable pub passthrough_settings : Env → Option Settings
unfolding passthrough_enabled passthrough_allowed_hosts passthrough_cache_ttl
    passthrough_cache_max_bytes passthrough_cache_requires passthrough_timeout_ms settings_of
passthrough_settings env =
    if passthrough_enabled env
    then some (
        settings_of (passthrough_allowed_hosts env) (passthrough_cache_ttl env)
          (passthrough_cache_max_bytes env) (passthrough_cache_requires env)
          (passthrough_timeout_ms env))
    else none
