-- ===== src/Browser/Measure.antt =====
-- What a launch comes to under any count of its events, from what its parts come to.
use solverr.Base.{◌≡◌, Bool, Option, is_some, List, ◌++◌, ◌⊎◌, inl, inr, refl}
use solverr.Base.Text.{Text}
use solverr.Base.Value.{Value}
use solverr.Geo.Egress.{Proxy}
use solverr.Browser.Extension.{Machine}
use solverr.Browser.Launch.{
  Route, route, display, known_driver, start_chrome, start, await_if, launch, cleanup, save_driver,
  get_webdriver, checked, base_arguments, extension_arguments,
}
use solverr.Browser.Run.{
  Event, return, read, then_run, finally, fold_events, Leads, then_run-Leads, finally-Leads,
}

pub read-Leads {ℓ} :
    {S : Type ℓ} {A : Type 0} (step : S → Event → S) (s : S) (r : Text ⊎ A)
    → Leads step s s (λ _. s) (read r)
unfolding Leads fold_events
read-Leads step s (inl e) = refl
read-Leads step s (inr a) = refl

pub return-Leads {ℓ} :
    {S : Type ℓ} {A : Type 0} (step : S → Event → S) (s bad : S) (a : A)
    → Leads step s bad (λ _. s) (return a)
unfolding Leads fold_events
return-Leads step s bad a = refl

module _ {ℓ} {S : Type ℓ} (step : S → Event → S) (m : Machine) where
  start-Leads :
      (s t : S) (args : List Text)
      → Leads step s s (λ _. s) (display m)
      → Leads step s s (λ _. t) (start_chrome m args)
      → Leads step s s (λ _. t) (start m args)
  unfolding start
  start-Leads s t args d c =
      then_run-Leads step s s (λ _. s) (λ _. t) (display m)
        (λ _. then_run (read (known_driver m)) (λ known.
          then_run (read m.chrome_path)
            (λ path. then_run (start_chrome m args) (λ _. return (is_some known)))))
        d
        (λ _.
          then_run-Leads step s s (λ _. s) (λ _. t) (read (known_driver m))
            (λ known.
              then_run (read m.chrome_path)
                (λ path. then_run (start_chrome m args) (λ _. return (is_some known))))
            (read-Leads step s (known_driver m))
            (λ known.
              then_run-Leads step s s (λ _. s) (λ _. t) (read m.chrome_path)
                (λ path. then_run (start_chrome m args) (λ _. return (is_some known)))
                (read-Leads step s m.chrome_path)
                (λ path.
                  then_run-Leads step s s (λ _. t) (λ _. t) (start_chrome m args)
                    (λ _. return (is_some known)) c (λ _. return-Leads step t s (is_some known)))))

  pub launch-Leads :
      (s t : S) (args : List Text) (dir : Option Text)
      → Leads step s s (λ _. s) (display m)
      → Leads step s s (λ _. t) (start_chrome m (args ++ extension_arguments dir))
      → Leads step t s (λ _. t) (await_if m dir)
      → Leads step s s (λ _. t) (launch m args dir)
  unfolding launch
  launch-Leads s t args dir d c a =
      then_run-Leads step s s (λ _. t) (λ _. t) (start m (args ++ extension_arguments dir))
        (λ known. then_run (await_if m dir) (λ _. return known))
        (start-Leads s t (args ++ extension_arguments dir) d c)
        (λ known.
          then_run-Leads step t s (λ _. t) (λ _. t) (await_if m dir) (λ _. return known) a
            (λ _. return-Leads step t s known))

  pub get_webdriver-Leads :
      (s t : S) (before after : Route → S) (language : Option Proxy → Text) (proxy : Value)
      → Leads step s s before (route m proxy)
      → ((r : Route) (args : List Text)
          → Leads step (before r) (before r) (λ _. after r) (launch m args r.dir))
      → ((r : Route) → fold_events step (before r) (cleanup m r.dir) ≡ s)
      → ((r : Route) → fold_events step (after r) (cleanup m r.dir) ≡ t)
      → ((known : Bool) → Leads step t s (λ _. t) (save_driver m known))
      → Leads step s s (λ _. t) (get_webdriver m language proxy)
  unfolding get_webdriver
  get_webdriver-Leads s t before after language proxy r l b a k =
      then_run-Leads step s s (λ _. s) (λ _. t) (read (checked proxy))
        (λ config. then_run (route m proxy) (λ r.
          then_run
            (finally (launch m (base_arguments m (language config) ++ r.argument) r.dir)
              (cleanup m r.dir))
            (save_driver m)))
        (read-Leads step s (checked proxy))
        (λ config.
          then_run-Leads step s s before (λ _. t) (route m proxy)
            (λ r.
              then_run
                (finally (launch m (base_arguments m (language config) ++ r.argument) r.dir)
                  (cleanup m r.dir))
                (save_driver m))
            r
            (λ q.
              then_run-Leads step (before q) s (λ _. t) (λ _. t)
                (finally (launch m (base_arguments m (language config) ++ q.argument) q.dir)
                  (cleanup m q.dir))
                (save_driver m)
                (finally-Leads step (before q) (before q) s (λ _. after q) (λ _. t)
                  (launch m (base_arguments m (language config) ++ q.argument) q.dir)
                  (cleanup m q.dir) (l q (base_arguments m (language config) ++ q.argument)) (b q)
                  (λ _. a q))
                k))
