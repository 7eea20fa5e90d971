-- ===== src/Browser/Directories.antt =====
-- The directories that the extension of a launch's proxy makes and takes away.
use solverr.Base.{
  ℕ, ◌≡◌, refl, ap, ◌⊎◌, inl, inr, Option, none, some, List, [], ◌∷◌, keep, not, arith, Bool-cases,
  true,
}
use solverr.Base.Text.{Text, Text-discrete, text_eq, codes}
use solverr.Base.Value.{Value, obj, null, attr, truth, int, decimal, str, arr}
use solverr.Base.Split.{Parts}
use solverr.Browser.Extension.{
  Machine, removal, write_files, make_dir, proxy_parts, create_proxy_extension, background_js,
}
use solverr.Browser.Launch.{
  Route, route, extension_route, plain_route, is_authenticated, parsed_server, server_argument,
  bare_server, text_of,
}
use solverr.Browser.Measure.{read-Leads}
use solverr.Browser.Run.{
  Event, made_dir, wrote, removed_dir, return, fail, call, read, then_run, on_error, fold_events,
  Leads, then_run-Leads,
}

-- The directories that are there.
unfoldable pub on_disk : List Text → Event → List Text
unfolding Text-discrete
on_disk dirs (made_dir d) = d ∷ dirs
on_disk dirs (removed_dir d) = keep (λ e. not (text_eq e d)) dirs
on_disk dirs e = dirs

abbrev pub dir_of : Option Text → List Text
dir_of none = []
dir_of (some d) = d ∷ []

pub removal-gone : (m : Machine) (d : Text) → m.removes ≡ true → on_disk (d ∷ []) (removal m d) ≡ []
unfolding on_disk removal
removal-gone m d h = ground arith

write_files-Leads :
    (m : Machine) (js dir : Text)
    → m.removes ≡ true
    → Leads on_disk (dir ∷ []) [] (λ d. d ∷ []) (write_files m js dir)
unfolding write_files Leads then_run on_error fold_events on_disk
write_files-Leads m js dir h = go m.write_manifest m.write_background
  where
    go :
        (a b : Option Text)
        → Leads on_disk
            (dir ∷ [])
            []
            (λ d. d ∷ [])
            (on_error
              (then_run
                (call (wrote dir (codes "manifest.json") m.manifest_json) a)
                (λ _. then_run (call (wrote dir (codes "background.js") js) b) (λ _. return dir)))
              (removal m dir ∷ []))
    go none none = refl
    go none (some e) = removal-gone m dir h
    go (some e) b = removal-gone m dir h

make_dir-Leads : (m : Machine) → Leads on_disk [] [] (λ d. d ∷ []) (make_dir m)
unfolding make_dir Leads fold_events on_disk
make_dir-Leads m = go m.make_dir
  where
    go :
        (r : Text ⊎ Text)
        → Leads on_disk [] []
            (λ d. d ∷ [])
            (elim r [ inl e ↦ fail e | inr dir ↦ (made_dir dir ∷ [], inr dir) ])
    go (inl e) = refl
    go (inr d) = refl

create_proxy_extension-Leads :
    (m : Machine) (url : Text) (username password : Value)
    → m.removes ≡ true
    → Leads on_disk [] [] (λ d. d ∷ []) (create_proxy_extension m url username password)
unfolding create_proxy_extension
create_proxy_extension-Leads m url username password h =
    then_run-Leads on_disk [] [] (λ _. []) (λ d. d ∷ []) (read (proxy_parts m url))
      (λ (p, number).
        then_run (make_dir m) (write_files m (background_js m p number username password)))
      (read-Leads on_disk [] (proxy_parts m url))
      (λ (p, number).
        then_run-Leads on_disk [] [] (λ d. d ∷ []) (λ d. d ∷ []) (make_dir m)
          (write_files m (background_js m p number username password)) (make_dir-Leads m)
          (λ d. write_files-Leads m (background_js m p number username password) d h))

-- A URL that gives the extension its parts has a server.
parsed_server-proxy_parts :
    (m : Machine) (url : Text) (q : Parts × Option ℕ)
    → proxy_parts m url ≡ inr q
    → parsed_server m url ≡ inr (bare_server q.0)
unfolding proxy_parts parsed_server
parsed_server-proxy_parts m url q h = ground (arith, h)

abbrev pub route_dirs : Route → List Text
route_dirs r = dir_of r.dir

return_route-Leads :
    (m : Machine) (url dir server : Text)
    → parsed_server m url ≡ inr server
    → Leads on_disk (dir ∷ []) [] route_dirs (
        then_run
          (read (parsed_server m url))
          (λ s. return record { argument = server_argument s ∷ []; dir = some dir }))
unfolding Leads then_run fold_events
return_route-Leads m url dir server h = rw h refl

create_proxy_extension-refused :
    (m : Machine) (url : Text) (username password : Value) (e : Text)
    → proxy_parts m url ≡ inl e
    → create_proxy_extension m url username password ≡ fail e
unfolding create_proxy_extension then_run
create_proxy_extension-refused m url username password e h = rw h refl

extension_route-refused :
    (m : Machine) (url : Text) (username password : Value) (e : Text)
    → proxy_parts m url ≡ inl e
    → extension_route m url username password ≡ fail e
unfolding extension_route then_run
extension_route-refused m url username password e h =
    ap
      (λ r. then_run r (λ dir.
        then_run (read (parsed_server m url))
          (λ server. return record { argument = server_argument server ∷ []; dir = some dir })))
      (create_proxy_extension-refused m url username password e h)

extension_route-Leads :
    (m : Machine) (url : Text) (username password : Value)
    → m.removes ≡ true
    → Leads on_disk [] [] route_dirs (extension_route m url username password)
unfolding extension_route then_run Leads fold_events
extension_route-Leads m url username password gone = go (proxy_parts m url) refl
  where
    go :
        (q : Text ⊎ Parts × Option ℕ)
        → proxy_parts m url ≡ q
        → Leads on_disk [] [] route_dirs (extension_route m url username password)
    go (inl e) h = rw (extension_route-refused m url username password e h) refl
    go (inr q) h =
        then_run-Leads on_disk [] [] (λ d. d ∷ []) route_dirs
          (create_proxy_extension m url username password)
          (λ dir.
            then_run (read (parsed_server m url))
              (λ server. return record { argument = server_argument server ∷ []; dir = some dir }))
          (create_proxy_extension-Leads m url username password gone)
          (λ dir.
            return_route-Leads m url dir (bare_server q.0) (parsed_server-proxy_parts m url q h))

pub route-Leads :
    (m : Machine) → m.removes ≡ true → (v : Value) → Leads on_disk [] [] route_dirs (route m v)
unfolding route Leads fold_events plain_route
route-Leads m h (obj fs) = elim (Bool-cases (is_authenticated fs)) [
  | inl e ↦
      rw (e, route)
        (extension_route-Leads m (text_of (attr (codes "url") fs null))
          (attr (codes "username") fs null) (attr (codes "password") fs null) h)
  | inr e ↦ rw (e, route) refl
]
route-Leads m h null = refl
route-Leads m h (truth b) = refl
route-Leads m h (int n) = refl
route-Leads m h (decimal n k) = refl
route-Leads m h (str s) = refl
route-Leads m h (arr vs) = refl
