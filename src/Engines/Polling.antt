-- ===== src/Engines/Polling.antt =====
-- src/engines: the loops that look at a page again and again. What the looks answer is given pass by
-- pass; times are readings of the clock in microseconds.
use solverr.Base.{
  ℕ, zero, suc, ◌-◌, Bool, true, false, Option, none, some, List, [], ◌∷◌, ◌++◌, leb, if◌then◌else◌,
}
use solverr.Base.Text.{Text, codes}
use solverr.Engines.{Call, returned, timed_out, raised}

-- `_detect`: what the page is.
pub data Kind : Type 0 where
  blocked challenged clear : Kind

-- `_past_navigation`: a read that fails is done once more. The calls are the two attempts; the time limit
-- is no exception that is caught.
unfoldable pub past_navigation : {A : Type 0} → Call A → Call A → Call A
past_navigation (returned a) again = returned a
past_navigation timed_out again = timed_out
past_navigation (raised e) again = again

-- One pass of `_wait_until_cleared`.
pub record Pass : Type 0 where
  -- `_detect_settled`: the kind, and whether there is a widget
  pub detected : Call (Kind × Bool)
  -- `_turnstile_token`
  pub has_token : Bool
  -- `_is_interstitial`
  pub is_interstitial : Call Bool
  -- the clock before a press, `_click_turnstile`, and the clock behind it
  pub now_before : ℕ
  pub click : Call Bool
  pub now_clicked : ℕ
  -- the second look of `_challenge_stays_gone`
  pub detected_again : Call (Kind × Bool)
  -- the clock at the end of the pass
  pub now : ℕ

-- `_CLICK_COOLDOWN_SECONDS`
abbrev pub click_cooldown : ℕ
click_cooldown = 4_000_000

-- `_POLL_SECONDS`
abbrev pub poll_time : ℕ
poll_time = 1_500_000

-- `BLOCKED_MESSAGE` of pipeline.py
abbrev pub blocked_message : Text
blocked_message =
    codes
      "Cloudflare has blocked this request. Probably your IP is banned for this site, check in your web browser."

abbrev pub is_challenged : Kind → Bool
is_challenged challenged = true
is_challenged _ = false

-- What a pass leads to: the end of the loop, or the next pass, with the time of the last press that
-- landed, and the press of this pass if there was one: when it began and when it was over.
pub data Turn : Type 0 where
  stop : Call Bool → Turn
  look_on : ℕ → List (ℕ × ℕ) → Turn

-- A call within a pass: an exception leaves the loop.
unfoldable pub on_answer : {A : Type 0} → Call A → (A → Turn) → Turn
on_answer (returned a) f = f a
on_answer timed_out f = stop timed_out
on_answer (raised e) f = stop (raised e)

-- `_challenge_stays_gone`: any second reading but a challenge ends the wait.
unfoldable pub confirm : ℕ → Pass → Turn
unfolding on_answer
confirm last_click p =
    on_answer p.detected_again
      (λ d. if is_challenged d.0 then look_on last_click [] else stop (returned true))

-- A widget with a token is solved unless it is an interstitial's; one without is pressed, once the last
-- press has cooled down.
unfoldable pub press : ℕ → Pass → Turn
unfolding on_answer
press last_click p =
    if p.has_token
    then on_answer p.is_interstitial
        (λ b. if b then look_on last_click [] else stop (returned true))
    else if leb click_cooldown (p.now_before - last_click)
    then on_answer p.click (λ landed.
      if landed
      then look_on p.now_clicked ((p.now_before, p.now_clicked) ∷ [])
      else look_on last_click [])
    else look_on last_click []

unfoldable pub turn : ℕ → Pass → Turn
unfolding confirm press on_answer
turn last_click p = on_answer p.detected (λ d. elim d.0 [
  | blocked ↦ stop (raised blocked_message)
  | clear ↦ confirm last_click p
  | challenged ↦ if d.1 then press last_click p else look_on last_click []
])

-- `_wait_until_cleared` from a pass on: its answer, `none` when the fuel is out, and the presses that
-- landed.
unfoldable pub wait_until_cleared : ℕ → ℕ → ℕ → ℕ → (ℕ → Pass) → Option (Call Bool) × List (ℕ × ℕ)
unfolding turn
wait_until_cleared zero deadline last_click i p = (none, [])
wait_until_cleared (suc n) deadline last_click i p = elim (turn last_click (p i)) [
  | stop answer ↦ (some answer, [])
  | look_on last_click' presses ↦
      if leb deadline (p i).now
      then (some (returned false), presses)
      else let (answer, more) = wait_until_cleared n deadline last_click' (suc i) p in
        (answer, presses ++ more)
]
