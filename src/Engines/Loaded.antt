-- ===== src/Engines/Loaded.antt =====
-- What a load of the Chrome engine that ended well did, and what a verdict of it rests on.
use solverr.Base.{◌≡◌, refl, ap, ◌∙◌, ◌⊎◌, inl, inr, false, Option, or_else, [], arith, Bool-cases}
use solverr.Base.Text.{Text, codes, starts_with}
use solverr.Engines.{Call, returned, timed_out, raised}
use solverr.Engines.Evil.{
  Wanted, Driver, next, checked, unless_failed, error_page, located, raise_on_error_page, load,
  judge, navigation_failed, error_code,
}
use solverr.Pipeline.{Found, approach, settled_verdict}
use solverr.Pipeline

next-returned :
    {S A B : Type 0} (x : S × Call A) (k : S → A → S × Call B) (u : S) (b : B)
    → next x k ≡ (u, returned b)
    → (t : S) × (a : A) × (x ≡ (t, returned a)) × (k t a ≡ (u, returned b))
unfolding next
next-returned (s, returned a) k u b h = (s, a, refl, h)
next-returned (s, timed_out) k u b h = absurd (ground (arith, h))
next-returned (s, raised e) k u b h = absurd (ground (arith, h))

module _ {C S : Type 0} (d : Driver C S) where
  -- The page is none of Chrome's own for errors, as far as its address can be read.
  abbrev pub IsPage : S → S → Type 0
  IsPage s opened =
      ((address : Option Text) × (d.location s ≡ (opened, returned address))
        × (starts_with (or_else address []) (codes "chrome-error://") ≡ false))
      ⊎ ((e : Text) × (d.location s ≡ (opened, raised e)))

  -- The generator that goes to the page was driven to its end with the caller's cookies, on a browser that
  -- blocks media as the request or the setting says, none of its calls raised, and a page is there.
  abbrev pub IsOpened : Wanted C → S → S → Type 0
  IsOpened r start opened =
      (s : S) × (Pipeline.run d.handlers (approach r.cookies)
          (d.block (or_else r.disable_media d.media_is_disabled) start)
        ≡ (s, tt))
      × (d.failure s ≡ returned tt)
      × IsPage s opened

  -- The verdict was found on this page, no call of its generator raised, and the document is there.
  abbrev pub IsJudged : S → S → Found → Type 0
  IsJudged page behind found =
      (s : S) × (Pipeline.run d.handlers (settled_verdict false) page ≡ (s, found))
      × (d.failure s ≡ returned tt)
      × (d.find_html s ≡ (behind, returned tt))

  checked-returned :
      {A : Type 0} (x : S × A) (t : S) (a : A)
      → checked d x ≡ (t, returned a)
      → (x ≡ (t, a)) × (d.failure t ≡ returned tt)
  unfolding checked
  checked-returned {A} (s, b) t a h = go (d.failure s) refl h
    where
      go :
          (c : Call (Unit {0}))
          → d.failure s ≡ c
          → unless_failed d c (s, b) ≡ (t, returned a)
          → (◌≡◌ {A = S × A} (s, b) (t, a)) × (d.failure t ≡ returned tt)
      go (returned u) e h = ground (arith, e, h)
      go timed_out e h = absurd (ground (arith, h))
      go (raised x) e h = absurd (ground (arith, h))

  error_page-returned :
      (address : Text) (s t : S)
      → error_page d address s ≡ (t, returned tt)
      → (s ≡ t) × (starts_with address (codes "chrome-error://") ≡ false)
  unfolding error_page
  error_page-returned address s t h =
      elim (Bool-cases (starts_with address (codes "chrome-error://"))) [
        | inl e ↦
            let fails : next (d.source s)
                  (λ t text. (t, raised (navigation_failed (error_code text))))
                ≡ (t, returned tt) =
              ground (arith, e, h) in
            let (u, text, p, q) = next-returned (d.source s) _ t tt fails in
            absurd (ground (arith, q))
        | inr e ↦ ground (arith, e, h)
      ]

  raise_on_error_page-IsPage :
      (s opened : S) → raise_on_error_page d s ≡ (opened, returned tt) → IsPage s opened
  unfolding raise_on_error_page
  raise_on_error_page-IsPage s opened h = go (d.location s) refl h
    where
      go :
          (x : S × Call (Option Text))
          → d.location s ≡ x
          → located d x ≡ (opened, returned tt)
          → IsPage s opened
      go (t, returned address) e h =
          let (p, q) = error_page-returned (or_else address []) t opened h in
          inl (address, e ∙ ap (λ u. (u, returned address)) p, q)
      go (t, timed_out) e h = absurd (ground (arith, h))
      go (t, raised x) e h =
          let p : t ≡ opened = ground (arith, h) in inr (x, e ∙ ap (λ u. (u, raised x)) p)

  pub load-IsOpened :
      (r : Wanted C) (start opened : S)
      → load d r start ≡ (opened, returned tt)
      → IsOpened r start opened
  unfolding load
  load-IsOpened r start opened h =
      let run =
        Pipeline.run d.handlers (approach r.cookies)
          (d.block (or_else r.disable_media d.media_is_disabled) start) in
      let (s, u, p, q) = next-returned (checked d run) _ opened tt h in
      let (e, f) = checked-returned run s u p in (s, e, f, raise_on_error_page-IsPage s opened q)

  pub judge-IsJudged :
      (page behind : S) (found : Found)
      → judge d page ≡ (behind, returned found)
      → IsJudged page behind found
  unfolding judge
  judge-IsJudged page behind found h =
      let run = Pipeline.run d.handlers (settled_verdict false) page in
      let (s, v, p, q) = next-returned (checked d run) _ behind found h in
      let (t, u, g, k) = next-returned (d.find_html s) _ behind found q in
      let (e, f) = checked-returned run s v p in
      let same : v ≡ found = ground (arith, k) in
      let there : t ≡ behind = ground (arith, k) in
      (s, e ∙ ap (λ w. (s, w)) same, f, g ∙ ap (λ w. (w, returned tt)) there)
