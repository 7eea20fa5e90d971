-- ===== src/Sessions/Proxies.antt =====
-- sessions.py: the proxy that each session id was created with, shared by both engines' stores.
use solverr.Base.{ℕ, ◌≡◌, Option, none, some, List, arith}
use solverr.Base.Text.{Text, Text-discrete}
use solverr.Base.Dict.{remove, remember, lookup-remember, move_to_end}
use mathlib.Core.List.{lookup}

-- The value `none` is a session that was created without a proxy. A key that is missing is
-- `_UNKNOWN_SESSION`.
abbrev pub Proxies : Type 0 → Type 0
Proxies P = List (Text × Option P)

abbrev pub proxy_memory : ℕ
proxy_memory = 1024

module _ {P : Type 0} where
  unfoldable pub remember_proxy : Text → Option P → Proxies P → Proxies P
  unfolding remember
  remember_proxy id proxy m = remember Text-discrete proxy_memory id proxy m

  -- Reading counts as use.
  unfoldable pub recall_proxy : Text → Proxies P → Proxies P × Option (Option P)
  unfolding move_to_end
  recall_proxy id m = elim (lookup Text-discrete id m) [
    | none ↦ (m, none)
    | some proxy ↦ (move_to_end Text-discrete id m, some proxy)
  ]

  unfoldable pub forget_proxy : Text → Proxies P → Proxies P
  unfolding remove
  forget_proxy id m = remove Text-discrete id m

  pub lookup-remember_proxy :
      (id : Text) (proxy : Option P) (m : Proxies P)
      → lookup Text-discrete id (remember_proxy id proxy m) ≡ some proxy
  unfolding remember_proxy
  lookup-remember_proxy id proxy m =
      lookup-remember Text-discrete proxy_memory id proxy m (omega arith)
