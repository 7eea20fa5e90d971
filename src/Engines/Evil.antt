-- ===== src/Engines/Evil.antt =====
-- src/engines/chrome_engine.py: `_evil_logic`. A driver's calls are functions on a state `S` that is the
-- browser with the clock; what its handlers raise inside a generator is kept in that state, where they
-- then do nothing more.
use solverr.Base.{
  ℕ, zero, suc, Bool, false, ◌&&◌, ◌||◌, Option, none, some, or_else, List, [], ◌∷◌, ◌++◌, map,
  if◌then◌else◌, leb, ◌==◌,
}
use solverr.Base.Text.{Text, codes, starts_with}
use solverr.Assembly.{Options, Reads}
use solverr.Assembly
use solverr.Detection.{challenge_titles, challenge_selectors}
use solverr.Engines.{Call, returned, timed_out, raised}
use solverr.Engines.Polling.{blocked_message}
use solverr.Pipeline.{Handlers, Found, Verdict, denied, challenge, clean, approach, settled_verdict}
use solverr.Pipeline
use solverr.Service.{SolveResult}

-- What the challenge is waited for with.
pub data Wait : Type 0 where
  title_goes selector_goes : Text → Wait

-- How such a wait ends: the thing is gone, or still there when the wait times out, or the time limit or
-- another exception stops it.
pub data Waited : Type 0 where
  gone there stopped : Waited
  failed : Text → Waited

-- The parts of the request that `_evil_logic` reads; `C` is the type of the caller's cookies.
pub record Wanted (C : Type 0) : Type 0 where
  pub is_post : Bool
  pub disable_media : Option Bool
  pub cookies : Option C
  pub tabs : Option ℕ
  pub options : Options

pub record Driver (C S : Type 0) : Type 0 where
  -- DISABLE_MEDIA
  pub media_is_disabled : Bool
  -- `Network.enable` and `Network.setBlockedURLs`, whose exceptions are dropped; whether media is blocked.
  pub block : Bool → S → S
  pub handlers : Handlers C S
  -- What the handlers raised.
  pub failure : S → Call (Unit {0})
  -- `location.href`, and the page's source.
  pub location : S → S × Call (Option Text)
  pub source : S → S × Call Text
  -- `_resolve_turnstile_captcha`, `_await_turnstile_token`
  pub resolve_token : ℕ → S → S × Call (Option Text)
  pub await_token : S → S × Call (Option Text)
  -- `find_element(By.TAG_NAME, "html")`
  pub find_html : S → S × Call (Unit {0})
  pub wait_gone : Wait → S → S × Waited
  pub click_verify : S → S × Call (Unit {0})
  -- The wait for the redirect.
  pub wait_stale : S → S × Call (Unit {0})
  -- The reads of the answer, but for its token.
  pub reads : Reads S
  pub encode : List ℕ → Text

module _ {S A B : Type 0} where
  -- The next call, unless this one ends the solve.
  unfoldable pub next : S × Call A → (S → A → S × Call B) → S × Call B
  next (s, returned a) k = k s a
  next (s, timed_out) k = (s, timed_out)
  next (s, raised e) k = (s, raised e)

abbrev pub is_code_letter : ℕ → Bool
is_code_letter c = (leb b'A' c && leb c b'Z') || c == b'_'

unfoldable pub code_letters : Text → Text
code_letters [] = []
code_letters (c ∷ s) = let rest = code_letters s in if is_code_letter c then c ∷ rest else []

-- `ERR_[A-Z_]+` at the start of a text that `ERR_` has been taken from, behind some letters.
abbrev pub code_behind : Text → Text → Option Text
code_behind start s = elim (code_letters s) [ [] ↦ none | c ∷ r ↦ some (start ++ (c ∷ r)) ]

unfoldable pub drop_letters : ℕ → Text → Text
drop_letters zero s = s
drop_letters (suc n) [] = []
drop_letters (suc n) (c ∷ s) = drop_letters n s

-- Either form of the code at the start of a text.
unfoldable pub code_here : Text → Option Text
unfolding code_letters drop_letters
code_here s =
    if starts_with s (codes "net::ERR_")
    then code_behind (codes "net::ERR_") (drop_letters 9 s)
    else if starts_with s (codes "ERR_")
    then code_behind (codes "ERR_") (drop_letters 4 s)
    else none

-- `re.search(r"net::ERR_[A-Z_]+|ERR_[A-Z_]+", source)`
unfoldable pub error_code : Text → Option Text
unfolding code_here
error_code [] = none
error_code (c ∷ s) =
    let later = error_code s in elim (code_here (c ∷ s)) [ some code ↦ some code | none ↦ later ]

abbrev pub navigation_failed : Option Text → Text
navigation_failed code = codes "Navigation failed: " ++ or_else code (codes "Chrome error page")

abbrev pub solved_message : Text
solved_message = codes "Challenge solved!"

abbrev pub clean_message : Text
clean_message = codes "Challenge not detected!"

-- The waits of one attempt.
abbrev pub waits : List Wait
waits = map title_goes challenge_titles ++ map selector_goes challenge_selectors

module _ {C S : Type 0} (d : Driver C S) where
  abbrev pub unless_failed : {A : Type 0} → Call (Unit {0}) → S × A → S × Call A
  unless_failed (returned _) (s, a) = (s, returned a)
  unless_failed timed_out (s, a) = (s, timed_out)
  unless_failed (raised e) (s, a) = (s, raised e)

  -- An exception that a handler raised ends the solve.
  unfoldable pub checked : {A : Type 0} → S × A → S × Call A
  checked (s, a) = unless_failed (d.failure s) (s, a)

  -- The page of an address that is Chrome's own page for errors.
  unfoldable pub error_page : Text → S → S × Call (Unit {0})
  unfolding next error_code
  error_page address s =
      if starts_with address (codes "chrome-error://")
      then next (d.source s) (λ t text. (t, raised (navigation_failed (error_code text))))
      else (s, returned tt)

  abbrev pub located : S × Call (Option Text) → S × Call (Unit {0})
  located (t, returned address) = error_page (or_else address []) t
  located (t, timed_out) = (t, timed_out)
  located (t, raised e) = (t, returned tt)

  -- `_raise_on_error_page`
  unfoldable pub raise_on_error_page : S → S × Call (Unit {0})
  unfolding error_page
  raise_on_error_page s = located (d.location s)

  abbrev pub after_wait : S × Waited → (S → S × Waited) → S × Waited
  after_wait (t, gone) more = more t
  after_wait (t, there) more = (t, there)
  after_wait (t, stopped) more = (t, stopped)
  after_wait (t, failed e) more = (t, failed e)

  -- The waits of an attempt, up to the first that does not end well.
  unfoldable pub wait_all : List Wait → S → S × Waited
  wait_all [] s = (s, gone)
  wait_all (w ∷ ws) s = after_wait (d.wait_gone w s) (λ t. wait_all ws t)

  -- Behind a wait that timed out: the click, and the new document.
  unfoldable pub click_again : S → S × Call (Unit {0})
  unfolding next
  click_again s = next (d.click_verify s) (λ t _. d.find_html t)

  abbrev pub Cleared : Type 0
  Cleared = S × Option (Call (Unit {0}))

  abbrev pub after_click : S × Call (Unit {0}) → (S → Cleared) → Cleared
  after_click (u, returned _) more = more u
  after_click (u, timed_out) more = (u, some timed_out)
  after_click (u, raised e) more = (u, some (raised e))

  abbrev pub after_attempt : S × Waited → (S → Cleared) → Cleared
  after_attempt (t, gone) more = (t, some (returned tt))
  after_attempt (t, stopped) more = (t, some timed_out)
  after_attempt (t, failed e) more = (t, some (raised e))
  after_attempt (t, there) more = after_click (click_again t) more

  -- The `while True` loop on a challenge; `none` when the fuel is out.
  unfoldable pub clear_challenge : ℕ → S → Cleared
  unfolding wait_all click_again
  clear_challenge zero s = (s, none)
  clear_challenge (suc n) s = after_attempt (wait_all waits s) (λ t. clear_challenge n t)

  -- The redirect behind the challenge; what the wait for it raises is dropped.
  abbrev pub after_redirect : S × Call (Unit {0}) → S × Call Text
  after_redirect (t, returned _) = (t, returned solved_message)
  after_redirect (t, raised e) = (t, returned solved_message)
  after_redirect (t, timed_out) = (t, timed_out)

  abbrev pub after_clear : Cleared → S × Option (Call Text)
  after_clear (t, none) = (t, none)
  after_clear (t, some (returned _)) = let (u, c) = after_redirect (d.wait_stale t) in (u, some c)
  after_clear (t, some timed_out) = (t, some timed_out)
  after_clear (t, some (raised e)) = (t, some (raised e))

  -- The message of the answer, from the verdict on.
  unfoldable pub message_for : ℕ → Verdict → S → S × Option (Call Text)
  unfolding clear_challenge
  message_for n denied s = (s, some (raised blocked_message))
  message_for n clean s = (s, some (returned clean_message))
  message_for n challenge s = after_clear (clear_challenge n s)

  abbrev pub presses : Wanted C → Option ℕ
  presses r = if r.is_post then none else r.tabs

  -- The token that is read behind the cookie reload, if the checkbox is to be pressed.
  abbrev pub token_pressed : Option ℕ → S → S × Call (Option Text)
  token_pressed none s = (s, returned none)
  token_pressed (some tabs) s = d.resolve_token tabs s

  unfoldable pub pressed_token : Wanted C → S → S × Call (Option Text)
  pressed_token r s = token_pressed (presses r) s

  -- The token of the answer.
  abbrev pub token_awaited : Option ℕ → Option Text → S → S × Call (Option Text)
  token_awaited none pressed s = d.await_token s
  token_awaited (some tabs) pressed s = (s, returned pressed)

  unfoldable pub final_token : Wanted C → Option Text → S → S × Call (Option Text)
  final_token r pressed s = token_awaited (presses r) pressed s

  -- The page is loaded, with the caller's cookies.
  unfoldable pub load : Wanted C → S → S × Call (Unit {0})
  unfolding checked next raise_on_error_page approach Pipeline.run
  load r s =
      let blocked = d.block (or_else r.disable_media d.media_is_disabled) s in
      next (checked (Pipeline.run d.handlers (approach r.cookies) blocked))
        (λ t _. raise_on_error_page t)

  -- The verdict on it, and the document that the redirect is waited for on.
  unfoldable pub judge : S → S × Call Found
  unfolding checked next settled_verdict Pipeline.run
  judge s =
      next (checked (Pipeline.run d.handlers (settled_verdict false) s))
        (λ t found. next (d.find_html t) (λ u _. (u, returned found)))

  -- The answer, for its message and its token.
  unfoldable pub assemble : Wanted C → Text → Option Text → S → S × Call SolveResult
  unfolding checked Assembly.run
  assemble r message token s =
      checked
        (Assembly.run d.encode r.options message (record d.reads { token = λ t. (t, token) }) s)

  abbrev pub with_message :
      S × Option (Call Text) → (S → Text → S × Call SolveResult) → S × Option (Call SolveResult)
  with_message (t, none) k = (t, none)
  with_message (t, some c) k = let (u, a) = next (t, c) k in (u, some a)

  -- From the verdict on.
  unfoldable pub answer :
      ℕ → Wanted C → Option Text → S × Call Found → S × Option (Call SolveResult)
  unfolding message_for final_token next assemble
  answer n r token (s, returned found) =
      with_message (message_for n found.verdict_of s)
        (λ t message. next (final_token r token t) (λ u last. assemble r message last u))
  answer n r token (s, timed_out) = (s, some timed_out)
  answer n r token (s, raised e) = (s, some (raised e))

  abbrev pub judged : ℕ → Wanted C → S × Call (Option Text) → S × Option (Call SolveResult)
  judged n r (s, returned token) = answer n r token (judge s)
  judged n r (s, timed_out) = (s, some timed_out)
  judged n r (s, raised e) = (s, some (raised e))

  -- `_evil_logic`; `none` when the fuel of the loop on a challenge is out.
  unfoldable pub evil_logic : ℕ → Wanted C → S → S × Option (Call SolveResult)
  unfolding load pressed_token next judge answer
  evil_logic n r s = judged n r (next (load r s) (λ t _. pressed_token r t))
