-- ===== src/Browser/Tests.antt =====
-- The launch of Chrome at concrete inputs.
use solverr.Base.{
  Bool, ℕ, zero, suc, ◌≡◌, refl, inr, true, false, Option, none, List, [], ◌∷◌, ℕ_discrete,
}
use solverr.Base.Text.{Text, Text-discrete, codes, lower, lower_code}
use solverr.Base.Value.{attr, str, obj, Fields, field, end}
use solverr.Browser.Agent.{Asked, get_user_agent, without_headless, get_user_agent-running}
use solverr.Browser.Cleanup.{get_webdriver-on_disk}
use solverr.Browser.Directories.{on_disk}
use solverr.Browser.Extension.{Machine, Target, started, create_proxy_extension}
use solverr.Browser.Handle.{running, Answers, get_webdriver-running}
use solverr.Browser.Launch.{get_webdriver, route, has}
use solverr.Browser.Worker.{Holds, create_proxy_extension-Holds}
use solverr.Browser.Run.{Run, launched, fold_events, Leads}
use solverr.Browser.Server.{HidesUser, route-HidesUser}
use solverr.Geo.Egress.{Proxy}

-- The worker runs from the third poll on.
abbrev workers : ℕ → List Target
workers zero = []
workers (suc zero) = []
workers (suc (suc n)) =
    record { kind = codes "service_worker"; url = codes "chrome-extension://a/background.js" } ∷ []

abbrev accepts_all : Text → Bool
accepts_all n = false

-- The extension's worker is seen at the third poll, and the driver is copied.
abbrev machine : Machine
machine = record {
  refuses = accepts_all;
  dumps = λ v. [];
  make_dir = inr (codes "/tmp/x");
  removes = true;
  write_manifest = none;
  write_background = none;
  manifest_json = codes "{}";
  before_scheme = [];
  before_host = [];
  before_port = [];
  before_username = [];
  before_password = [];
  behind_password = [];
  is_arm = false;
  response_headers = false;
  user_agent = none;
  headless = true;
  is_nt = false;
  has_display = false;
  start_display = none;
  in_docker = false;
  patched_driver = none;
  major_version = inr (codes "140");
  chrome_path = inr (codes "/usr/bin/chrome");
  start = λ args. started;
  targets = λ k. inr (workers k);
  quit_raises = none;
  copies_itself = false;
  copy = none;
}

abbrev signed_proxy : Fields
signed_proxy = field (codes "url") (str (codes "http://u:p@proxy.org:8080")) (
    field (codes "username") (str (codes "u"))
      (field (codes "password") (str (codes "secret")) end))

abbrev english : Option Proxy → Text
english p = codes "en-US"

get_webdriver-on_disk_example :
    fold_events on_disk [] (get_webdriver machine english (obj signed_proxy)).0 ≡ []
get_webdriver-on_disk_example = get_webdriver-on_disk machine english (obj signed_proxy) refl

answers : Answers machine
answers k = (workers k, refl)

get_webdriver-running_example :
    Leads running 0 0 (λ _. 1) (get_webdriver machine english (obj signed_proxy))
get_webdriver-running_example =
    get_webdriver-running machine english (obj signed_proxy) (λ args. refl) answers refl refl

route-HidesUser_example :
    HidesUser accepts_all (codes "http://u:p@proxy.org:8080") (route machine (obj signed_proxy)).1
unfolding has Text-discrete ℕ_discrete attr
route-HidesUser_example = route-HidesUser machine signed_proxy refl

abbrev quoted : Text
quoted = b'"' ∷ b'\\' ∷ 10 ∷ 8364 ∷ 128512 ∷ codes ");alert(1)"

create_proxy_extension-Holds_example :
    Holds machine (codes "http://proxy.org:8080") quoted (codes "\\\"") (
      create_proxy_extension machine
        (codes "http://proxy.org:8080")
        (str quoted)
        (str (codes "\\\"")))
create_proxy_extension-Holds_example =
    create_proxy_extension-Holds machine (codes "http://proxy.org:8080") quoted (codes "\\\"")

-- The launch that the read of the agent makes for itself.
abbrev own_launch : Run Unit
own_launch = (launched false [] ∷ [], inr tt)

abbrev asked : Asked
asked = record {
  agent = inr (codes "HeadlessChrome/1");
  is_nt = true;
  close = none;
  quit_raises = none;
}

get_user_agent-running_case :
    Leads running 1 1 (λ _. 1) (get_user_agent none false own_launch asked)
unfolding Leads fold_events running
get_user_agent-running_case = get_user_agent-running none false own_launch asked refl refl

without_headless-agent : without_headless 0 (codes "HeadlessChrome/1") ≡ codes "Chrome/1"
unfolding without_headless lower lower_code
without_headless-agent = refl
