-- ===== src/Engines/Release.antt =====
-- Whatever happens to a request in an engine's `solve`, nothing that it held stays held.
use solverr.Base.{
  ◌≡◌, refl, Bool, true, false, none, some, ◌++◌, ◌⊎◌, arith, if◌then◌else◌, is_some, ◌&&◌,
}
use solverr.Base.Text.{Text, codes}
use solverr.Engines.Hold.{nothing, allow, replay, discards_in}
use solverr.Engines.{Call, returned, timed_out, raised, one_line, error_start, rewrite_error}
use solverr.Engines.Chrome
use solverr.Engines.Stealth

-- An exception of an engine names the challenge first.
abbrev pub IsNamed : {A : Type 0} → Call A → Type 0
IsNamed (returned a) = Unit
IsNamed timed_out = ⊥
IsNamed (raised e) = (t : Text) × (e ≡ error_start ++ t)

rewrite_error-IsNamed : {A : Type 0} (shown : Text) (c : Call A) → IsNamed (rewrite_error shown c)
unfolding rewrite_error
rewrite_error-IsNamed shown (returned a) = tt
rewrite_error-IsNamed shown timed_out =
    (codes "Timeout after " ++ (shown ++ codes " seconds."), refl)
rewrite_error-IsNamed shown (raised e) = (one_line e, refl)

-- The request makes a browser of its own, and its teardown fails.
abbrev pub leaves_browser : {A : Type 0} → Stealth.Request A → Bool
leaves_browser r = elim r.session [
  | some id ↦ false
  | none ↦ elim r.make [
    | returned _ ↦ elim r.close [ returned _ ↦ false | timed_out ↦ true | raised e ↦ true ]
    | timed_out ↦ false
    | raised e ↦ false
  ]
]

-- Whatever the libraries answer, and wherever the stealth engine's `solve` is left, its calls keep their
-- order and leave nothing held but one thing: the thread's launch budget is taken away, the lock is
-- released if it was taken, the mark of the session goes after it, and a browser of the request's own is
-- closed, but where its teardown raises or runs over its time, behind which it may still run. An
-- exception of `solve` begins with the engine's own words.
pub stealth_release :
    {A : Type 0} (r : Stealth.Request A)
    → (replay (Stealth.solve r).1 nothing ≡ some (record nothing { browser = leaves_browser r }))
      × IsNamed (Stealth.solve r).0
unfolding Stealth.solve replay allow Stealth.gives_back Stealth.close_bounded Stealth.attempt
    Stealth.with_session Stealth.with_own
stealth_release r = (ground arith, rewrite_error-IsNamed r.shown_timeout (Stealth.attempt r).result)

-- The time limit ended it.
abbrev pub was_stopped : {A : Type 0} → Call A → Bool
was_stopped timed_out = true
was_stopped _ = false

-- Whatever the libraries answer, the Chrome engine's `solve` leaves nothing held, as long as the window
-- closes first on Windows: the lock is released if it was taken, the mark of the session goes after it,
-- and a browser of the request's own is told to quit. A session is discarded under its lock, once if
-- the time limit stopped its solve, and not otherwise.
pub chrome_release :
    {A : Type 0} (r : Chrome.Request A)
    → (r.is_nt ≡ false) ⊎ (r.close ≡ none)
    → (replay (Chrome.solve r).1 nothing ≡ some nothing)
      × (discards_in (Chrome.solve r).1
          ≡ (if is_some r.session && was_stopped (Chrome.attempt r).result then 1 else 0))
unfolding Chrome.solve replay allow Chrome.gives_back Chrome.attempt Chrome.with_session
    Chrome.with_own Chrome.discards Chrome.quit_own
chrome_release r h = ground (arith, h)
