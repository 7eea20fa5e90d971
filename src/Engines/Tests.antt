-- ===== src/Engines/Tests.antt =====
-- src/engines at concrete inputs.
use mathlib.Core.List.{lookup}
use solverr.Base.{
  ℕ, ◌+◌, ◌*◌, ◌-◌, ◌/◌, suc, ◌≡◌, refl, true, false, none, some, List, [], ◌∷◌, arith, inl, ltb,
  leb, is_some, ◌&&◌, if◌then◌else◌, ℕ_discrete,
}
use solverr.Base.Text.{Text-discrete, codes}
use solverr.Budget.{one_second}
use solverr.Engines.Chrome
use solverr.Engines.Hold.{
  capped, uncapped, nothing, replay, discards_in, owned, shut, marked, locked, released, end_use,
  discarded,
}
use solverr.Engines.Cookies.{Cookie, to_playwright_cookies}
use solverr.Engines.Navigate
use solverr.Engines.Navigate.{no_marks}
use solverr.Engines.Solved.{Explains, navigate_and_solve-explained}
use solverr.Base.Value.{int, str, truth}
use solverr.Base.Int.{pos}
use solverr.Engines.Polling.{Pass, challenged, clear, poll_time, wait_until_cleared}
use solverr.Engines.Pressing
use solverr.Engines.Pressing.{
  get_turnstile_token, settle, quiet, moving, late, await_turnstile_token,
}
use solverr.Engines.Release.{leaves_browser, stealth_release, chrome_release, IsNamed, was_stopped}
use solverr.Engines.Stealth
use solverr.Engines.Turnstile
use solverr.Engines.Waiting.{Ends, wait_until_cleared-Ends}
use solverr.Engines.{returned, timed_out}

-- A launch that runs into its limit: the browser is closed.
abbrev slow_launch : Stealth.Request ℕ
slow_launch = record {
  session = none;
  started = 0;
  timeout = 60 * one_second;
  shown_timeout = codes "60";
  start_timeout = 30 * one_second;
  get = λ s. returned tt;
  now_at_lock = 0;
  acquire = λ t. true;
  make = returned tt;
  now_at_start = 1;
  start = λ t. timed_out;
  now_at_solve = 0;
  do_solve = λ left hard. returned 7;
  close = returned tt;
}

stealth_release_example :
    (replay (Stealth.solve slow_launch).1 nothing
      ≡ some (record nothing { browser = leaves_browser slow_launch }))
    × IsNamed (Stealth.solve slow_launch).0
stealth_release_example = stealth_release slow_launch

slow_launch-closed : (Stealth.solve slow_launch).1 ≡ capped ∷ owned ∷ uncapped ∷ shut ∷ []
unfolding Stealth.solve
slow_launch-closed = refl

-- A solve in a session that is stopped by the time limit.
abbrev stopped : Chrome.Request ℕ
stopped = record {
  session = some (codes "s");
  started = 0;
  timeout = 60 * one_second;
  shown_timeout = codes "60";
  get = none;
  now_at_lock = 1;
  acquire = λ t. true;
  launch = none;
  now_launched = 2;
  apply_timezone = none;
  now_in_zone = 3;
  evil_logic = λ left. timed_out;
  response_headers = true;
  is_nt = false;
  close = none;
  quit = none;
}

chrome_release_example :
    (replay (Chrome.solve stopped).1 nothing ≡ some nothing)
    × (discards_in (Chrome.solve stopped).1
        ≡ (if is_some stopped.session && was_stopped (Chrome.attempt stopped).result then 1 else 0))
chrome_release_example = chrome_release stopped (inl refl)

stopped-discarded : (Chrome.solve stopped).1 ≡ marked ∷ locked ∷ discarded ∷ released ∷ end_use ∷ []
unfolding Chrome.solve
stopped-discarded = refl

-- A challenge with a widget, pressed until it is gone at the fourth pass.
abbrev clears : ℕ → Pass
clears i = record {
  detected = returned (if ltb i 3 then (challenged, true) else (clear, false));
  has_token = false;
  is_interstitial = returned true;
  now_before = 10_000_000 + i * 2_000_000;
  click = returned true;
  now_clicked = 10_500_000 + i * 2_000_000;
  detected_again = returned (clear, false);
  now = 11_000_000 + i * 2_000_000;
}

clears-presses :
    wait_until_cleared 9 30_000_000 0 0 clears
    ≡ (some (returned true), (10_000_000, 10_500_000) ∷ [])
unfolding wait_until_cleared
clears-presses = refl

wait_until_cleared-Ends_example : Ends 30_000_000 0 clears (
    wait_until_cleared
      (suc (suc ((30_000_000 - (clears 0).now) / poll_time)))
      30_000_000
      0
      0
      clears)
wait_until_cleared-Ends_example = wait_until_cleared-Ends 30_000_000 clears (λ j. omega arith)

-- The second press gives a token.
abbrev pressed : ℕ → Pressing.Pass
pressed i = record {
  now = i * 9_000_000;
  started = i * 9_000_000;
  click_verify = returned tt;
  token = returned (if ltb i 1 then none else some (codes "t"));
  reset_focus = returned tt;
  ended = i * 9_000_000 + 8_900_000;
}

pressed-token :
    get_turnstile_token 5 none 30_000_000 0 0 pressed ≡ some (returned (some (codes "t")))
unfolding get_turnstile_token
pressed-token = refl

-- A cookie without a place, and one with an expiry and a key that Playwright does not know.
abbrev cookies : List Cookie
cookies =
    ((codes "name", str (codes "a")) ∷ (codes "value", str (codes "1")) ∷ [])
    ∷ ((codes "name", str (codes "b"))
        ∷ (codes "path", str (codes "/x"))
        ∷ (codes "expiry", int (pos 9))
        ∷ (codes "hostOnly", truth true)
        ∷ [])
    ∷ []

abbrev translated : List Cookie
translated =
    ((codes "name", str (codes "a"))
      ∷ (codes "value", str (codes "1"))
      ∷ (codes "domain", str (codes "h"))
      ∷ (codes "path", str (codes "/"))
      ∷ [])
    ∷ ((codes "name", str (codes "b"))
        ∷ (codes "path", str (codes "/x"))
        ∷ (codes "expires", int (pos 9))
        ∷ (codes "domain", str (codes "h"))
        ∷ [])
    ∷ []

cookies-translated : to_playwright_cookies (λ v. some v) (codes "h") cookies ≡ some translated
unfolding to_playwright_cookies Text-discrete ℕ_discrete lookup
cookies-translated = refl

-- A challenge that the wait does not clear and the paid solve does.
abbrev paid : Navigate.Request ℕ
paid = record {
  media_disabled = false;
  disable_media = some true;
  started = 0;
  timeout = 90 * one_second;
  add_route = returned tt;
  approach = returned tt;
  detected = returned (challenged, true);
  api_enabled = true;
  now_room = 2 * one_second;
  wait = λ deadline. returned (leb 60_000_000 deadline);
  new_page = returned tt;
  enter_solver = returned tt;
  add_click_route = returned tt;
  click_navigate = returned tt;
  api_solve = returned tt;
  detected_again = returned (clear, false);
  assemble = λ message. returned 7;
  remove_listener = returned tt;
  unroutes = true;
  leaves_solver = true;
  closes_page = true;
}

navigate_and_solve-explained_example :
    ((Navigate.navigate_and_solve paid).1 ≡ no_marks)
    × Explains paid (Navigate.navigate_and_solve paid).0
navigate_and_solve-explained_example = navigate_and_solve-explained paid (refl, refl, refl, refl)

paid-deadline : Navigate.wait_deadline paid ≡ 57_000_000
unfolding Navigate.wait_deadline
paid-deadline = refl

paid-answer : Navigate.navigate_and_solve paid ≡ (returned 7, no_marks)
unfolding Navigate.navigate_and_solve
paid-answer = refl
