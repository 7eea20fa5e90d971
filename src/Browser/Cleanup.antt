-- ===== src/Browser/Cleanup.antt =====
-- What a launch leaves on disk.
use solverr.Base.{
  ℕ, zero, suc, ◌≡◌, refl, ◌⊎◌, inl, inr, Bool, true, false, Option, none, some, List, [], ◌∷◌,
  ◌++◌, not, ◌&&◌, Bool-cases,
}
use solverr.Base.Text.{Text}
use solverr.Base.Value.{Value}
use solverr.Geo.Egress.{Proxy}
use solverr.Browser.Extension.{
  Machine, Target, Start, started, refused, left_behind, poll, poll_once, give_up,
  await_proxy_extension, any_worker, load_polls,
}
use solverr.Browser.Launch.{
  display, start_chrome, await_if, cleanup, save_driver, get_webdriver, extension_arguments,
}
use solverr.Browser.Measure.{launch-Leads, get_webdriver-Leads}
use solverr.Browser.Run.{
  Run, Event, started_display, start_failed, orphaned, copied, launched, call, fold_events, Leads,
}
use solverr.Browser.Directories.{on_disk, dir_of, removal-gone, route_dirs, route-Leads}

no_dir_event :
    (e : Event) (o : Option Text) (dirs : List Text)
    → on_disk dirs e ≡ dirs
    → Leads on_disk dirs dirs (λ _. dirs) (call e o)
unfolding Leads fold_events
no_dir_event e none dirs h = h
no_dir_event e (some x) dirs h = h

display-Leads : (m : Machine) (dirs : List Text) → Leads on_disk dirs dirs (λ _. dirs) (display m)
unfolding display on_disk Leads fold_events
display-Leads m dirs = elim (Bool-cases (m.headless && not m.is_nt && not m.has_display)) [
  | inl e ↦ rw (e, display) (no_dir_event started_display m.start_display dirs refl)
  | inr e ↦ rw (e, display) refl
]

start_chrome-Leads :
    (m : Machine) (args dirs : List Text)
    → Leads on_disk dirs dirs (λ _. dirs) (start_chrome m args)
unfolding start_chrome on_disk Leads fold_events
start_chrome-Leads m args dirs = go (m.start args)
  where
    go :
        (o : Start)
        → Leads on_disk dirs dirs
            (λ _. dirs)
            (elim o [
              | started ↦ (launched m.response_headers args ∷ [], inr tt)
              | refused e ↦ (start_failed args ∷ [], inl e)
              | left_behind e ↦ (orphaned args ∷ [], inl e)
            ])
    go started = refl
    go (refused e) = refl
    go (left_behind e) = refl

poll_once-Leads :
    (t : Text ⊎ List Target) (r : Run Unit) (dirs : List Text)
    → Leads on_disk dirs dirs (λ _. dirs) r
    → Leads on_disk dirs dirs (λ _. dirs) (poll_once t r)
unfolding on_disk Leads fold_events
poll_once-Leads (inl e) r dirs h = refl
poll_once-Leads (inr ts) (es, inl e) dirs h = elim (Bool-cases (any_worker ts)) [
  | inl b ↦ rw b refl
  | inr b ↦ rw b h
]
poll_once-Leads (inr ts) (es, inr a) dirs h = elim (Bool-cases (any_worker ts)) [
  | inl b ↦ rw b refl
  | inr b ↦ rw b h
]

give_up-Leads :
    (o : Option Text) (dirs : List Text) → Leads on_disk dirs dirs (λ _. dirs) (give_up o)
unfolding on_disk Leads fold_events
give_up-Leads none dirs = refl
give_up-Leads (some e) dirs = refl

poll-Leads :
    (m : Machine) (n k : ℕ) (dirs : List Text) → Leads on_disk dirs dirs (λ _. dirs) (poll m n k)
unfolding poll
poll-Leads m zero k dirs = give_up-Leads m.quit_raises dirs
poll-Leads m (suc n) k dirs =
    poll_once-Leads (m.targets k) (poll m n (suc k)) dirs (poll-Leads m n (suc k) dirs)

await-Leads :
    (m : Machine) (dir : Option Text) (dirs : List Text)
    → Leads on_disk dirs dirs (λ _. dirs) (await_if m dir)
unfolding await_if await_proxy_extension Leads fold_events
await-Leads m none dirs = refl
await-Leads m (some d) dirs = poll-Leads m load_polls 0 dirs

cleanup-Leads :
    (m : Machine) (dir : Option Text)
    → m.removes ≡ true
    → fold_events on_disk (dir_of dir) (cleanup m dir) ≡ []
unfolding fold_events cleanup
cleanup-Leads m none h = refl
cleanup-Leads m (some d) h = removal-gone m d h

save_driver-Leads : (m : Machine) (b : Bool) → Leads on_disk [] [] (λ _. []) (save_driver m b)
unfolding save_driver Leads fold_events on_disk
save_driver-Leads m true = refl
save_driver-Leads m false = elim (Bool-cases m.copies_itself) [
  | inl e ↦ rw (e, save_driver) refl
  | inr e ↦ rw (e, save_driver) (no_dir_event copied m.copy [] refl)
]

-- Where `rmtree` takes a directory away, a launch leaves none on disk however it ends and wherever
-- else it raises: the one that holds the proxy's password in plain text is gone.
pub get_webdriver-on_disk :
    (m : Machine) (language : Option Proxy → Text) (proxy : Value)
    → m.removes ≡ true
    → fold_events on_disk [] (get_webdriver m language proxy).0 ≡ []
unfolding Leads
get_webdriver-on_disk m language proxy gone = go (get_webdriver m language proxy) (
    get_webdriver-Leads on_disk m [] [] route_dirs route_dirs language proxy
      (route-Leads m gone proxy)
      (λ r args.
        launch-Leads on_disk m (route_dirs r) (route_dirs r) args r.dir
          (display-Leads m (route_dirs r))
          (start_chrome-Leads m (args ++ extension_arguments r.dir) (route_dirs r))
          (await-Leads m r.dir (route_dirs r)))
      (λ r. cleanup-Leads m r.dir gone) (λ r. cleanup-Leads m r.dir gone) (save_driver-Leads m))
  where
    go : (r : Run Unit) → Leads on_disk [] [] (λ _. []) r → fold_events on_disk [] r.0 ≡ []
    go (es, inl e) h = h
    go (es, inr a) h = h
