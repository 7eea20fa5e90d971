-- ===== src/Engines.antt =====
-- src/engines: what the two engines share. The browser, its driver and the libraries are outside: a
-- call of one is known by what comes back from it.
mod Chrome
mod Cookies
mod Evil
mod Cleared
mod Answered
mod EvilTests
mod Headers
mod Hold
mod Loaded
mod Stealth
mod Navigate
mod Outcome
mod Solved
mod PageTests
mod Polling
mod Pressing
mod Release
mod Tests
mod Turning
mod Turnstile
mod Waiting
use solverr.Base.{
  ℕ, Bool, true, false, Option, none, some, List, [], ◌∷◌, ◌++◌, ◌==◌, if◌then◌else◌,
}
use solverr.Base.Text.{Text, codes}

-- What comes back from a call: a value, the time limit's own exception (`FunctionTimedOut` of
-- func_timeout, `TimeoutError` of concurrent.futures), or any other exception with its text.
pub data Call (A : Type 0) : Type 0 where
  returned : A → Call A
  timed_out : Call A
  raised : Text → Call A

-- What follows a call that only an exception other than the time limit's can end, which is given by
-- its text if there is one.
unfoldable pub unless : {A : Type 0} → Option Text → Call A → Call A
unless none next = next
unless (some e) next = raised e

-- The next call, unless an exception ends the block.
unfoldable pub and_then : {A B : Type 0} → Call A → (A → Call B) → Call B
and_then (returned a) f = f a
and_then timed_out f = timed_out
and_then (raised e) f = raised e

-- `s.replace('\n', '\\n')`
unfoldable pub one_line : Text → Text
one_line [] = []
one_line (c ∷ s) = let rest = one_line s in if c == 10 then b'\\' ∷ b'n' ∷ rest else c ∷ rest

abbrev pub error_start : Text
error_start = codes "Error solving the challenge. "

-- The two `except` clauses of `solve`; `shown` is the timeout as it is printed.
unfoldable pub rewrite_error : {A : Type 0} → Text → Call A → Call A
unfolding one_line
rewrite_error shown (returned a) = returned a
rewrite_error shown timed_out =
    raised (error_start ++ codes "Timeout after " ++ shown ++ codes " seconds.")
rewrite_error shown (raised e) = raised (error_start ++ one_line e)

-- The text of the exception when a session's lock is not free in time.
abbrev pub not_free : Text → Text
not_free id = codes "Timed out waiting for session '" ++ id ++ codes "' to be free."
