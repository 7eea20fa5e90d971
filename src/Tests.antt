-- ===== src/Tests.antt =====
-- The smaller modules at concrete inputs.
use solverr.Base.{
  ℕ, ◌+◌, ◌≤◌, ◌≡◌, refl, true, false, Option, none, some, List, [], ◌∷◌, map, arith, All, In,
  length, if◌then◌else◌, ℕ_discrete,
}
use solverr.Base.Text.{Text, Text-discrete, text_eq, codes, cut, split}
use solverr.Base.Value.{null, int, str, obj, arr, Items, nil, cons, Fields, end, field, attr}
use solverr.Base.Int.{pos}
use solverr.Assembly.{Options, View, noting, order, run-order}
use solverr.Assembly
use solverr.Budget.{solve_deadline, remaining_share, one_second, solve_margin, solve_deadline-share}
use solverr.Config.{Env, passthrough_settings}
use solverr.Config.Hosts.{IsTidy, passthrough_settings-IsTidy}
use solverr.Dtos.{
  whole, annotations, get_attr, fine, wrong_type, validate_request_types, check_types,
  check_cookies, are_objects, has_kind,
}
use solverr.Dtos.Check.{Fits, AreObjects, validate_request_types-fine, validate_request_types-wrong}
use solverr.Base.{◌⊎◌}
use solverr.Geo.{
  Exit, Fallback, live, store_exit, max_cached_exits, store_exit-length, store_exit-keeps,
}
use mathlib.Core.List.{lookup}
use solverr.Metrics.{label_all, max_domain_labels, IsLabel, label_all-bounds}
use solverr.Passthrough.{Settings, settings_of}
use solverr.Pipeline.{run, verdict, settled_verdict, approach, clean, denied, challenge, settle}
use solverr.Pipeline.Verdicts.{
  Page, Browser, engine, judge, on_browser, run-verdict, run-settled_verdict, run-approach,
}
use solverr.Redact.{form, masked, form-masked}

-- A page that sets the cookies while it is waited for.
abbrev view : View ℕ
view = record {
  url_of = λ s. codes "https://a.org/";
  user_agent_of = λ s. codes "agent";
  token_of = λ s. none;
  waited = λ s. s + 1;
  headers_of = λ s. null;
  body_of = λ s. (codes "page", none);
  screenshot_of = λ s. [];
  cookies_of = λ s. int (pos s);
}

abbrev options : Options
options = record { only_cookies = false; waits = true; wants_screenshot = true }

run-order_example : Assembly.run (λ s. s) options (codes "solved") (noting view) (3, []) ≡ (
  (4, order options),
  record {
    url = codes "https://a.org/";
    status = 200;
    cookies = int (pos 4);
    user_agent = codes "agent";
    message = codes "solved";
    headers = some null;
    response = some (codes "page");
    content_type = none;
    screenshot = some [];
    turnstile_token = none;
  },
)
run-order_example = run-order (λ s. s) options (codes "solved") view 3

abbrev stop : ℕ
stop = solve_deadline 9_000_000 (remaining_share 1_000_000 30_000_000 9_000_000)

solve_deadline-share_case :
    (9_000_000 + one_second ≤ stop)
    × (stop ≤ 1_000_000 + 30_000_000)
    × ((stop + solve_margin ≡ 1_000_000 + 30_000_000) ⊎ (stop ≡ 9_000_000 + one_second))
solve_deadline-share_case =
    solve_deadline-share 1_000_000 30_000_000 9_000_000 (omega arith) (omega arith)

abbrev exit : Exit
exit = record {
  expires = 50;
  zone = codes "Europe/Rome";
  language = codes "it-IT";
  complete = true;
}

abbrev exits : List (Text × Exit)
exits = (codes "k", exit) ∷ []

abbrev fallback : Fallback
fallback = record {
  container_zone = codes "UTC";
  default_language = codes "en-US";
  cache_seconds = 3600;
  failure_seconds = 60;
}

exit_is_live : live (codes "k") 20 exits ≡ some exit
unfolding live lookup Text-discrete ℕ_discrete
exit_is_live = refl

store_exit-length_case :
    length (store_exit fallback 20 (codes "k") none none exits).0 ≤ max_cached_exits
store_exit-length_case = store_exit-length fallback 20 (codes "k") none none exits (omega arith)

store_exit-keeps_case :
    store_exit fallback 20 (codes "k") none none exits ≡ (exits, codes "Europe/Rome", codes "it-IT")
store_exit-keeps_case =
    store_exit-keeps fallback 20 (codes "k") none none exits exit exit_is_live refl refl

abbrev fields : Fields
fields =
    field (codes "cmd") (str (codes "request.get"))
      (field (codes "cookies") (arr (cons (obj end) nil)) end)

fields_pass : validate_request_types fields ≡ fine
unfolding validate_request_types check_types check_cookies are_objects has_kind attr annotations
    Text-discrete ℕ_discrete
fields_pass = refl

validate_request_types-fine_example :
    All (λ a. Fits a.1 (get_attr fields a.0)) annotations
    × ((xs : Items) → get_attr fields (codes "cookies") ≡ arr xs → AreObjects xs)
validate_request_types-fine_example = validate_request_types-fine fields fields_pass

abbrev bad_fields : Fields
bad_fields = field (codes "tabs_till_verify") (str (codes "2")) end

fields_fail : validate_request_types bad_fields ≡ wrong_type (codes "tabs_till_verify") whole
unfolding validate_request_types check_types check_cookies are_objects has_kind attr annotations
    Text-discrete ℕ_discrete
fields_fail = refl

validate_request_types-wrong_case :
    In (codes "tabs_till_verify", whole) annotations
    × ¬ Fits whole (get_attr bad_fields (codes "tabs_till_verify"))
validate_request_types-wrong_case =
    validate_request_types-wrong bad_fields (codes "tabs_till_verify") whole fields_fail

abbrev urls : List (Option Text)
urls = some (codes "https://a.org/x") ∷ none ∷ []

label_all-bounds_case :
    (length (label_all urls []).1 ≤ max_domain_labels)
    × All (IsLabel (label_all urls []).1) (label_all urls []).0
label_all-bounds_case = label_all-bounds urls [] (omega arith)

abbrev first_page : Page
first_page = record { title = codes "Site"; shows = λ s. false }

abbrev later_page : Page
later_page = record { title = codes "Just a moment..."; shows = λ s. false }

abbrev browser : Browser ℕ
browser = record { now = first_page; later = later_page; jar = none; sent = []; settled = 0 }

run-verdict_example : run engine (verdict true) browser ≡ (browser, judge true first_page)
run-verdict_example = run-verdict true browser

run-settled_verdict_example :
    run engine (settled_verdict true) browser ≡ elim (judge true first_page).verdict_of [
      | clean ↦ (on_browser settle browser, judge true later_page)
      | denied ↦ (browser, judge true first_page)
      | challenge ↦ (browser, judge true first_page)
    ]
run-settled_verdict_example = run-settled_verdict true browser

run-approach_case : (run engine (approach (some 3)) browser).0.sent ≡ some 3 ∷ none ∷ []
run-approach_case = run-approach (some 3) browser

form-masked_case :
    map (cut b'=') (split b'&' (form (codes "user=me&pass=secret")))
    ≡ map (λ p. masked (cut b'=' p)) (split b'&' (codes "user=me&pass=secret"))
form-masked_case = form-masked (codes "user=me&pass=secret")

abbrev env : Env
env name =
    if text_eq name (codes "PASSTHROUGH_ENABLED")
    then some (codes "true")
    else (if text_eq name (codes "PASSTHROUGH_ALLOWED_HOSTS")
        then some (codes "A.org, ,b.org")
        else none)

abbrev settings : Settings
settings =
    settings_of (codes "a.org" ∷ codes "b.org" ∷ []) (pos 3600) (pos 268435456) [] (pos 90000)

enabled : passthrough_settings env ≡ some settings
unfolding passthrough_settings settings_of Text-discrete ℕ_discrete
enabled = refl

passthrough_settings-IsTidy_case : All IsTidy settings.allowed_hosts
passthrough_settings-IsTidy_case = passthrough_settings-IsTidy env settings enabled
