-- ===== src/Config/Outgoing.antt =====
-- config.py: the proxy that requests go out through.
use solverr.Base.{Option, none, some, [], ◌∷◌}
use solverr.Base.Text.{Text, codes}
use solverr.Config.{Env}

-- The dictionary that `env_proxy` returns: the URL, and a user name and a password if one of them is
-- set.
pub record EnvProxy : Type 0 where
  pub url : Text
  pub credentials : Option (Option Text × Option Text)

abbrev pub credentials_of : Option Text → Option Text → Option (Option Text × Option Text)
credentials_of none none = none
credentials_of user password = some (user, password)

unfoldable pub env_proxy : Env → Option EnvProxy
env_proxy env = elim (env (codes "PROXY_URL")) [
  | none ↦ none
  | some [] ↦ none
  | some (c ∷ url) ↦ some (record {
    url = c ∷ url;
    credentials = credentials_of (env (codes "PROXY_USERNAME")) (env (codes "PROXY_PASSWORD"));
  })
]
