-- ===== src/Browser/Extension.antt =====
-- utils.py: `create_proxy_extension` and `_await_proxy_extension`.
use solverr.Base.{
  ℕ, zero, suc, ◌⊎◌, inl, inr, Bool, false, ◌&&◌, ◌||◌, Option, none, some, List, [], ◌∷◌, ◌++◌,
  if◌then◌else◌,
}
use solverr.Base.Text.{Text, Text-discrete, codes, text_eq, starts_with}
use solverr.Base.Value.{Value, null, str, int}
use solverr.Base.Int.{pos}
use solverr.Base.Split.{Parts, urlsplit, port}
use solverr.Base.Url.{host_of_netloc}
use solverr.Browser.Json.{dumps_text}
use solverr.Browser.Run.{
  Run, Event, made_dir, wrote, removed_dir, remove_failed, quit_failed, asked_targets, quit, return,
  fail, call, read, then_run, on_error,
}

-- One entry of `Target.getTargets`.
pub record Target : Type 0 where
  pub kind : Text
  pub url : Text

-- How `uc.Chrome` ends: it returns the driver, raises before its `Popen` of the browser, or raises
-- behind it, where nothing takes the browser down again.
pub data Start : Type 0 where
  started : Start
  refused : Text → Start
  left_behind : Text → Start

-- What the launch's surroundings answer; a call that hands back nothing is given by the text that it
-- raises, if it does. The texts that are the same at every launch are fields.
pub record Machine : Type 0 where
  -- The part of `urlsplit` that Base.Split leaves open.
  pub refuses : Text → Bool
  -- `json.dumps` of a value that is neither a text nor null.
  pub dumps : Value → Text
  pub make_dir : Text ⊎ Text
  -- `shutil.rmtree` of the extension's directory takes it away.
  pub removes : Bool
  pub write_manifest : Option Text
  pub write_background : Option Text
  pub manifest_json : Text
  -- `background_js` around its five values.
  pub before_scheme : Text
  pub before_host : Text
  pub before_port : Text
  pub before_username : Text
  pub before_password : Text
  pub behind_password : Text
  pub is_arm : Bool
  pub response_headers : Bool
  pub user_agent : Option Text
  pub headless : Bool
  pub is_nt : Bool
  -- The display runs from an earlier launch.
  pub has_display : Bool
  pub start_display : Option Text
  -- `/app/chromedriver` is there.
  pub in_docker : Bool
  pub patched_driver : Option Text
  pub major_version : Text ⊎ Text
  pub chrome_path : Text ⊎ Text
  -- `uc.Chrome`
  pub start : List Text → Start
  -- `execute_cdp_cmd("Target.getTargets", {})` at each poll.
  pub targets : ℕ → Text ⊎ List Target
  -- `driver.quit`
  pub quit_raises : Option Text
  -- The patched driver stands at the path that is saved.
  pub copies_itself : Bool
  pub copy : Option Text

-- `json.dumps`
unfoldable pub dumps : Machine → Value → Text
unfolding dumps_text
dumps m null = codes "null"
dumps m (str s) = dumps_text s
dumps m v = m.dumps v

abbrev pub text_or_null : Option Text → Value
text_or_null none = null
text_or_null (some s) = str s

abbrev pub number_or_null : Option ℕ → Value
number_or_null none = null
number_or_null (some n) = int (pos n)

-- `background_js`
unfoldable pub background_js : Machine → Parts → Option ℕ → Value → Value → Text
unfolding dumps host_of_netloc
background_js m p number username password =
    m.before_scheme
    ++ (dumps m (str p.scheme)
        ++ (m.before_host
            ++ (dumps m (text_or_null (host_of_netloc p.netloc))
                ++ (m.before_port
                    ++ (dumps m (number_or_null number)
                        ++ (m.before_username
                            ++ (dumps m username
                                ++ (m.before_password
                                    ++ (dumps m password ++ m.behind_password)))))))))

-- `shutil.rmtree`, whose error is ignored or logged.
unfoldable pub removal : Machine → Text → Event
removal m dir = if m.removes then removed_dir dir else remove_failed dir

-- The two files of a directory that has been made.
unfoldable pub write_files : Machine → Text → Text → Run Text
unfolding then_run on_error removal
write_files m js dir =
    on_error
      (then_run (call (wrote dir (codes "manifest.json") m.manifest_json) m.write_manifest) (λ _.
        then_run (call (wrote dir (codes "background.js") js) m.write_background)
          (λ _. return dir)))
      (removal m dir ∷ [])

-- `tempfile.mkdtemp`
unfoldable pub make_dir : Machine → Run Text
make_dir m = elim m.make_dir [ inl e ↦ fail e | inr dir ↦ (made_dir dir ∷ [], inr dir) ]

-- The parts of a proxy's URL, and its port. The message of a `ValueError` is not modelled.
unfoldable pub proxy_parts : Machine → Text → Text ⊎ Parts × Option ℕ
unfolding urlsplit port
proxy_parts m url = elim (urlsplit m.refuses url) [
  | none ↦ inl (codes "ValueError")
  | some p ↦ elim (port p.netloc) [
    | none ↦ inl (codes "ValueError")
    | some number ↦ inr (p, number)
  ]
]

-- `create_proxy_extension`
unfoldable pub create_proxy_extension : Machine → Text → Value → Value → Run Text
unfolding proxy_parts then_run make_dir write_files background_js
create_proxy_extension m url username password = then_run (read (proxy_parts m url)) (λ (p, number).
    then_run (make_dir m) (write_files m (background_js m p number username password)))

abbrev pub load_polls : ℕ
load_polls = 100

unfoldable pub is_worker : Target → Bool
unfolding Text-discrete
is_worker t =
    text_eq t.kind (codes "service_worker") && starts_with t.url (codes "chrome-extension://")

abbrev pub any_worker : List Target → Bool
any_worker [] = false
any_worker (t ∷ ts) = is_worker t || any_worker ts

abbrev pub not_loaded : Text
not_loaded = codes "Chrome did not load the proxy extension, so the proxy cannot authenticate"

-- One poll, for what it answers and the run of the later ones.
abbrev pub poll_once : Text ⊎ List Target → Run Unit → Run Unit
poll_once (inl e) later = (asked_targets ∷ [], inl e)
poll_once (inr ts) (es, r) =
    if any_worker ts then (asked_targets ∷ [], inr tt) else (asked_targets ∷ es, r)

-- The browser is closed where no poll saw the worker; what `quit` raises takes the error's place.
abbrev pub give_up : Option Text → Run Unit
give_up none = (quit ∷ [], inl not_loaded)
give_up (some e) = (quit_failed ∷ [], inl e)

-- The polls that are left, from one on.
unfoldable pub poll : Machine → ℕ → ℕ → Run Unit
unfolding is_worker
poll m zero k = give_up m.quit_raises
poll m (suc n) k = poll_once (m.targets k) (poll m n (suc k))

-- `_await_proxy_extension`
unfoldable pub await_proxy_extension : Machine → Run Unit
unfolding poll
await_proxy_extension m = poll m load_polls 0
