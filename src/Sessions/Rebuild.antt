-- ===== src/Sessions/Rebuild.antt =====
-- Which proxy a session that `get` builds goes out through.
use solverr.Base.{
  ℕ, ◌≡◌, sym, ◌∙◌, Bool, true, false, Option, none, some, ◌∷◌, arith, Option-cases, inl, inr,
}
use solverr.Base.Text.{Text, Text-discrete}
use solverr.Sessions.{Session, Store, find, is_expired}
use solverr.Sessions.Create.{Shared, Launch, create, get, proxy_for}
use solverr.Sessions.Proxies.{Proxies, lookup-remember_proxy, recall_proxy}
use mathlib.Core.List.{lookup}
use solverr.Sessions.Get.{create_raised, create-built, renew_cases, recalled, own_proxy, get_cases}

recall_own :
    {P : Type 0} (id : Text) (own : Option P) (m : Proxies P)
    → lookup Text-discrete id m ≡ some own
    → (recall_proxy id m).1 ≡ some own
unfolding recall_proxy
recall_own id own m e = ground arith

module _ {P X : Type 0} (c : ℕ) (cs : Text) where
  is_expired_fresh :
      (ttl : Option ℕ) (s : Session P X) (now : ℕ) (st : Store P X)
      → is_expired ttl true s now st ≡ false
  unfolding is_expired
  is_expired_fresh ttl s now st = ground arith

  -- What `create` builds has the proxy that it was called with, and that is what is remembered.
  create-proxy :
      (proxy : Option P) (l : Launch P X) (w w' : Shared P X) (s : Session P X) (f : Bool)
      → find (c ∷ cs) w.store ≡ none
      → create (some (c ∷ cs)) proxy true l w ≡ (w', some (s, f))
      → (f ≡ true) × (s.proxy ≡ proxy) × (lookup Text-discrete (c ∷ cs) w'.proxies ≡ some proxy)
  create-proxy proxy l w w' s f miss h = elim (Option-cases (l.build proxy)) [
    | inl raised ↦ absurd (ground (arith, create_raised c cs proxy l w miss raised))
    | inr (x, built) ↦ ground (
      arith,
      create-built c cs proxy l w x miss built,
      lookup-remember_proxy (c ∷ cs) proxy w.proxies,
    )
  ]

  -- A session that `get` rebuilds, after it was reaped, capped or discarded, has the proxy that its
  -- id is remembered with, whatever the request carries, and the id stays remembered with it.
  pub get-rebuild_proxy :
      (ttl : Option ℕ) (own asked : Option P) (first second : Launch P X) (now : ℕ)
      (w w' : Shared P X) (s : Session P X) (fresh : Bool)
      → lookup Text-discrete (c ∷ cs) w.proxies ≡ some own
      → find (c ∷ cs) w.store ≡ none
      → get (c ∷ cs) ttl asked first now second w ≡ (w', some (s, fresh))
      → (fresh ≡ true) × (s.proxy ≡ own) × (lookup Text-discrete (c ∷ cs) w'.proxies ≡ some own)
  unfolding proxy_for
  get-rebuild_proxy ttl own asked first second now w w' s fresh known gone h =
      let (w₁, how) = get_cases c cs ttl now asked first second w in
      elim how [
        | inl (_, g) ↦ absurd (ground arith)
        | inr (t, f, built, g) ↦
            let (new, goes, kept) =
              create-proxy (own_proxy c cs ttl now asked w) first (recalled c cs ttl now w) w₁ t f
                gone built in
            ground (
              arith,
              sym g ∙ h,
              renew_cases c cs ttl now second w₁ t f,
              is_expired_fresh ttl t now w₁.store,
              recall_own (c ∷ cs) own w.proxies known,
            )
      ]
