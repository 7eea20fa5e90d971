-- ===== src/Browser/Handle.antt =====
-- The browsers that a launch leaves running.
use solverr.Base.{
  ℕ, zero, suc, ◌-◌, ◌≡◌, refl, ◌⊎◌, inl, inr, Bool, true, false, not, ◌&&◌, Option, none, some,
  List, [], ◌∷◌, ◌++◌, Bool-cases, arith,
}
use solverr.Base.Text.{Text, codes}
use solverr.Base.Value.{Value, obj, null, attr, truth, int, decimal, str, arr}
use solverr.Geo.Egress.{Proxy}
use solverr.Browser.Extension.{
  Machine, Target, Start, started, refused, left_behind, removal, write_files, make_dir,
  proxy_parts, create_proxy_extension, background_js, poll, poll_once, give_up,
  await_proxy_extension, any_worker, load_polls,
}
use solverr.Browser.Launch.{
  route, extension_route, plain_route, is_authenticated, parsed_server, server_argument, display,
  start_chrome, await_if, cleanup, save_driver, get_webdriver, text_of, extension_arguments,
}
use solverr.Browser.Measure.{read-Leads, launch-Leads, get_webdriver-Leads, return-Leads}
use solverr.Browser.Run.{
  Run, Event, made_dir, wrote, orphaned, started_display, start_failed, launched, quit, return,
  fail, call, read, then_run, on_error, fold_events, Leads, then_run-Leads,
}

-- How many browsers run.
unfoldable pub running : ℕ → Event → ℕ
running n (launched log arguments) = suc n
running n (orphaned arguments) = suc n
running n quit = n - 1
running n e = n

-- The constructor leaves no browser behind where it raises.
abbrev pub leaves_none : Start → Bool
leaves_none started = true
leaves_none (refused e) = true
leaves_none (left_behind e) = false

removal-running : (m : Machine) (n : ℕ) (d : Text) → running n (removal m d) ≡ n
unfolding running removal
removal-running m n d = ground arith

write_files-Leads :
    (m : Machine) (js dir : Text) → Leads running 0 0 (λ _. 0) (write_files m js dir)
unfolding write_files Leads then_run on_error fold_events running
write_files-Leads m js dir = go m.write_manifest m.write_background
  where
    go :
        (a b : Option Text)
        → Leads running 0 0
            (λ (_ : Text). 0)
            (on_error
              (then_run
                (call (wrote dir (codes "manifest.json") m.manifest_json) a)
                (λ _. then_run (call (wrote dir (codes "background.js") js) b) (λ _. return dir)))
              (removal m dir ∷ []))
    go none none = refl
    go none (some e) = removal-running m 0 dir
    go (some e) b = removal-running m 0 dir

make_dir-Leads : (m : Machine) → Leads running 0 0 (λ _. 0) (make_dir m)
unfolding make_dir Leads fold_events running
make_dir-Leads m = go m.make_dir
  where
    go :
        (r : Text ⊎ Text)
        → Leads running 0 0
            (λ (_ : Text). 0)
            (elim r [ inl e ↦ fail e | inr dir ↦ (made_dir dir ∷ [], inr dir) ])
    go (inl e) = refl
    go (inr d) = refl

create_proxy_extension-Leads :
    (m : Machine) (url : Text) (username password : Value)
    → Leads running 0 0 (λ _. 0) (create_proxy_extension m url username password)
unfolding create_proxy_extension
create_proxy_extension-Leads m url username password =
    then_run-Leads running 0 0 (λ _. 0) (λ _. 0) (read (proxy_parts m url))
      (λ (p, number).
        then_run (make_dir m) (write_files m (background_js m p number username password)))
      (read-Leads running 0 (proxy_parts m url))
      (λ (p, number).
        then_run-Leads running 0 0 (λ _. 0) (λ _. 0) (make_dir m)
          (write_files m (background_js m p number username password)) (make_dir-Leads m)
          (write_files-Leads m (background_js m p number username password)))

extension_route-Leads :
    (m : Machine) (url : Text) (username password : Value)
    → Leads running 0 0 (λ _. 0) (extension_route m url username password)
unfolding extension_route
extension_route-Leads m url username password =
    then_run-Leads running 0 0 (λ _. 0) (λ _. 0) (create_proxy_extension m url username password)
      (λ dir.
        then_run (read (parsed_server m url))
          (λ server. return record { argument = server_argument server ∷ []; dir = some dir }))
      (create_proxy_extension-Leads m url username password)
      (λ dir.
        then_run-Leads running 0 0 (λ _. 0) (λ _. 0) (read (parsed_server m url))
          (λ server. return record { argument = server_argument server ∷ []; dir = some dir })
          (read-Leads running 0 (parsed_server m url))
          (λ server.
            return-Leads running 0 0
              record { argument = server_argument server ∷ []; dir = some dir }))

route-Leads : (m : Machine) (v : Value) → Leads running 0 0 (λ _. 0) (route m v)
unfolding route Leads fold_events plain_route
route-Leads m (obj fs) = elim (Bool-cases (is_authenticated fs)) [
  | inl e ↦
      rw (e, route)
        (extension_route-Leads m (text_of (attr (codes "url") fs null))
          (attr (codes "username") fs null) (attr (codes "password") fs null))
  | inr e ↦ rw (e, route) refl
]
route-Leads m null = refl
route-Leads m (truth b) = refl
route-Leads m (int n) = refl
route-Leads m (decimal n k) = refl
route-Leads m (str s) = refl
route-Leads m (arr vs) = refl

display-Leads : (m : Machine) → Leads running 0 0 (λ _. 0) (display m)
unfolding display running Leads fold_events
display-Leads m = elim (Bool-cases (m.headless && not m.is_nt && not m.has_display)) [
  | inl e ↦ rw (e, display) (go m.start_display)
  | inr e ↦ rw (e, display) refl
]
  where
    go : (o : Option Text) → Leads running 0 0 (λ _. 0) (call started_display o)
    go none = refl
    go (some x) = refl

start_chrome-Leads :
    (m : Machine) (args : List Text)
    → leaves_none (m.start args) ≡ true
    → Leads running 0 0 (λ _. 1) (start_chrome m args)
unfolding start_chrome running Leads fold_events
start_chrome-Leads m args k = go (m.start args) k
  where
    go :
        (o : Start)
        → leaves_none o ≡ true
        → Leads running 0 0
            (λ (_ : Unit). 1)
            (elim o [
              | started ↦ (launched m.response_headers args ∷ [], inr tt)
              | refused e ↦ (start_failed args ∷ [], inl e)
              | left_behind e ↦ (orphaned args ∷ [], inl e)
            ])
    go started k = refl
    go (refused e) k = refl
    go (left_behind e) k = absurd (ground arith)

-- The browser answers every poll.
abbrev pub Answers : Machine → Type 0
Answers m = (k : ℕ) → (ts : List Target) × (m.targets k ≡ inr ts)

poll_once-Leads :
    (ts : List Target) (r : Run Unit)
    → Leads running 1 0 (λ _. 1) r
    → Leads running 1 0 (λ _. 1) (poll_once (inr ts) r)
unfolding running Leads fold_events
poll_once-Leads ts (es, inl e) h = elim (Bool-cases (any_worker ts)) [
  | inl b ↦ rw b refl
  | inr b ↦ rw b h
]
poll_once-Leads ts (es, inr a) h = elim (Bool-cases (any_worker ts)) [
  | inl b ↦ rw b refl
  | inr b ↦ rw b h
]

give_up-Leads : (o : Option Text) → o ≡ none → Leads running 1 0 (λ _. 1) (give_up o)
unfolding running Leads fold_events
give_up-Leads none h = refl
give_up-Leads (some e) h = absurd (ground arith)

poll-Leads :
    (m : Machine)
    → Answers m
    → m.quit_raises ≡ none
    → (n k : ℕ) → Leads running 1 0 (λ _. 1) (poll m n k)
unfolding poll
poll-Leads m a q zero k = give_up-Leads m.quit_raises q
poll-Leads m a q (suc n) k =
    let (ts, e) = a k in
    rw (poll, e) (poll_once-Leads ts (poll m n (suc k)) (poll-Leads m a q n (suc k)))

await-Leads :
    (m : Machine)
    → Answers m
    → m.quit_raises ≡ none
    → (dir : Option Text) → Leads running 1 0 (λ _. 1) (await_if m dir)
unfolding await_if await_proxy_extension
await-Leads m a q none = return-Leads running 1 0 tt
await-Leads m a q (some d) = poll-Leads m a q load_polls 0

cleanup-running :
    (m : Machine) (n : ℕ) (dir : Option Text) → fold_events running n (cleanup m dir) ≡ n
unfolding fold_events cleanup
cleanup-running m n none = refl
cleanup-running m n (some d) = removal-running m n d

save_driver-Leads :
    (m : Machine) (known : Bool) → m.copy ≡ none → Leads running 1 0 (λ _. 1) (save_driver m known)
unfolding save_driver Leads fold_events running
save_driver-Leads m true c = refl
save_driver-Leads m false c = elim (Bool-cases m.copies_itself) [
  | inl e ↦ rw (e, save_driver) refl
  | inr e ↦ rw (e, save_driver) (rw c refl)
]

-- If the constructor of the driver raises nothing once its browser runs, the browser answers every
-- poll for the extension, `quit` closes it and its driver can be copied, a launch that hands a driver
-- back leaves one browser running, and one that raises leaves none.
pub get_webdriver-running :
    (m : Machine) (language : Option Proxy → Text) (proxy : Value)
    → ((args : List Text) → leaves_none (m.start args) ≡ true)
    → Answers m
    → m.quit_raises ≡ none
    → m.copy ≡ none
    → Leads running 0 0 (λ _. 1) (get_webdriver m language proxy)
get_webdriver-running m language proxy k a q c =
    get_webdriver-Leads running m 0 1 (λ _. 0) (λ _. 1) language proxy (route-Leads m proxy)
      (λ r args.
        launch-Leads running m 0 1 args r.dir (display-Leads m)
          (start_chrome-Leads m (args ++ extension_arguments r.dir)
            (k (args ++ extension_arguments r.dir)))
          (await-Leads m a q r.dir))
      (λ r. cleanup-running m 0 r.dir) (λ r. cleanup-running m 1 r.dir)
      (λ known. save_driver-Leads m known c)
