-- ===== src/Engines/Pressing.antt =====
-- src/engines/chrome_engine.py: the loops of the Chrome engine over a page. What the page answers is
-- given pass by pass; times are readings of the clock in microseconds.
use solverr.Base.{
  ℕ, zero, suc, ◌+◌, ◌-◌, Bool, true, false, not, ◌&&◌, Option, none, some, ltb, leb, ◌==◌,
  if◌then◌else◌, ℕ_discrete,
}
use solverr.Base.Text.{Text, Text-discrete, text_eq, codes}
use solverr.Engines.{Call, returned, timed_out, raised}

-- What `_PAGE_STATE_SCRIPT` reads.
pub record PageState : Type 0 where
  pub href : Text
  pub ready_state : Text
  pub time_origin : ℕ
  pub resources : ℕ

abbrev pub same_state : PageState → PageState → Bool
same_state a b =
    text_eq a.href b.href
    && (text_eq a.ready_state b.ready_state
        && (a.time_origin == b.time_origin && a.resources == b.resources))

-- `_SETTLE_QUIET_POLLS`, `_SETTLE_MAX_POLLS`, `_WIDGET_RENDER_SECONDS / _SETTLE_POLL_SECONDS`
abbrev pub quiet_polls : ℕ
quiet_polls = 5

abbrev pub max_polls : ℕ
max_polls = 50

abbrev pub token_polls : ℕ
token_polls = 50

-- `state is not None and state == last and state[1] == "complete"`
unfoldable pub is_quiet : Option PageState → Option PageState → Bool
unfolding Text-discrete ℕ_discrete
is_quiet none last = false
is_quiet (some s) none = false
is_quiet (some s) (some l) = same_state s l && text_eq s.ready_state (codes "complete")

-- How `_settle` ends.
pub data Settled : Type 0 where
  quiet late moving : Settled

-- `_settle` with so many polls left; a poll is the clock and the state, `none` if the read fails.
unfoldable pub settle : ℕ → ℕ → Option PageState → ℕ → ℕ → (ℕ → ℕ × Option PageState) → Settled
unfolding is_quiet
settle zero deadline last n i poll = moving
settle (suc left) deadline last n i poll =
    let on_same = settle left deadline (poll i).1 (suc n) (suc i) poll in
    let on_change = settle left deadline (poll i).1 0 (suc i) poll in
    if leb deadline (poll i).0
    then late
    else if is_quiet (poll i).1 last
    then (if leb quiet_polls (suc n) then quiet else on_same)
    else on_change

-- The loop of `_await_turnstile_token`; a poll is the token and the clock behind it.
unfoldable pub await_token : ℕ → ℕ → ℕ → (ℕ → Option Text × ℕ) → Option Text
await_token zero deadline i poll = (poll i).0
await_token (suc left) deadline i poll =
    let rest = await_token left deadline (suc i) poll in
    elim (poll i).0 [
      | some token ↦ some token
      | none ↦ if leb deadline (poll i).1 then none else rest
    ]

-- `_await_turnstile_token`
unfoldable pub await_turnstile_token : Bool → ℕ → (ℕ → Option Text × ℕ) → Option Text
unfolding await_token
await_turnstile_token has_widget deadline poll =
    if has_widget then await_token token_polls deadline 0 poll else none

-- One pass of `_get_turnstile_token`: the clock at the loop's test and at the pass's start, what
-- `click_verify` and the script that resets the focus come to, the token, and the clock at its end.
pub record Pass : Type 0 where
  pub now : ℕ
  pub started : ℕ
  pub click_verify : Call Unit
  pub token : Call (Option Text)
  pub reset_focus : Call Unit
  pub ended : ℕ

-- A token that the widget did not have before.
unfoldable pub is_new : Option Text → Option Text → Bool
unfolding Text-discrete ℕ_discrete
is_new current none = false
is_new none (some t) = true
is_new (some c) (some t) = not (text_eq t c)

-- What a pass comes to: a token, an exception, or nothing.
unfoldable pub pass_answer : Option Text → Pass → Option (Call (Option Text))
unfolding is_new
pass_answer current p = elim p.click_verify [
  | timed_out ↦ some timed_out
  | raised e ↦ some (raised e)
  | returned _ ↦ elim p.token [
    | timed_out ↦ some timed_out
    | raised e ↦ some (raised e)
    | returned token ↦ if is_new current token then some (returned token) else (elim p.reset_focus [
      | timed_out ↦ some timed_out
      | raised e ↦ some (raised e)
      | returned _ ↦ none
    ])
  ]
]

-- The loop of `_get_turnstile_token` from a pass on, with the time that the last pass took; `none` when
-- the fuel is out.
unfoldable pub get_turnstile_token :
    ℕ → Option Text → ℕ → ℕ → ℕ → (ℕ → Pass) → Option (Call (Option Text))
unfolding pass_answer
get_turnstile_token zero current deadline pass_time i p = none
get_turnstile_token (suc n) current deadline pass_time i p =
    if ltb ((p i).now + pass_time) deadline
    then (elim (pass_answer current (p i)) [
      | some answer ↦ some answer
      | none ↦ get_turnstile_token n current deadline ((p i).ended - (p i).started) (suc i) p
    ])
    else some (returned none)
