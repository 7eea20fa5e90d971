-- ===== src/Config/Hosts.antt =====
-- config.py: the hosts that the passthrough may fetch, as they are written and as they are read.
use solverr.Base.{◌≡◌, ◌≢◌, refl, false, some, List, [], ◌∷◌, All, arith, Bool-cases, inl, inr}
use solverr.Base.Text.{Text, codes, lower, strip, split, text_eq, lower_idem}
use solverr.Passthrough.{Settings, settings_of}
use solverr.Config.{
  Env, env_or, tidy_hosts, passthrough_allowed_hosts, passthrough_settings, passthrough_enabled,
}

abbrev pub IsTidy : Text → Type 0
IsTidy h = (h ≢ []) × (lower h ≡ h)

lower-empty : (s : Text) → lower s ≡ [] → s ≡ []
unfolding lower
lower-empty [] h = refl
lower-empty (c ∷ s) h = absurd (ground arith)

tidy_hosts-IsTidy : (hs : List Text) → All IsTidy (tidy_hosts hs)
unfolding tidy_hosts
tidy_hosts-IsTidy [] = tt
tidy_hosts-IsTidy (h ∷ hs) = elim (Bool-cases (text_eq (strip h) [])) [
  | inl e ↦ rw (tidy_hosts, e) (tidy_hosts-IsTidy hs)
  | inr e ↦
      rw (tidy_hosts, e)
        (
          ((λ p. not_empty (strip h) (lower-empty (strip h) p) e), lower_idem (strip h)),
          tidy_hosts-IsTidy hs,
        )
]
  where
    not_empty : (s : Text) → s ≡ [] → text_eq s [] ≡ false → ⊥
    not_empty s p q = ground arith

-- Each host that the passthrough is allowed to fetch is not empty and has no capital letters, as the
-- host of a request has none: a stray comma or a blank entry allows nothing.
pub passthrough_settings-IsTidy :
    (env : Env) (s : Settings) → passthrough_settings env ≡ some s → All IsTidy s.allowed_hosts
unfolding passthrough_settings passthrough_allowed_hosts settings_of
passthrough_settings-IsTidy env s h = elim (Bool-cases (passthrough_enabled env)) [
  | inr e ↦ absurd (ground arith)
  | inl e ↦
      let hosts = split b',' (env_or env (codes "PASSTHROUGH_ALLOWED_HOSTS") []) in
      let q : s.allowed_hosts ≡ tidy_hosts hosts = ground arith in rw q (tidy_hosts-IsTidy hosts)
]
