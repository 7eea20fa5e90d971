-- ===== src/Engines/Navigate.antt =====
-- src/engines/stealth_engine.py: `_navigate_and_solve`. Times are readings of the event loop's clock in
-- microseconds; what the page and the libraries answer is given by calls.
use solverr.Base.{
  ℕ, suc, ◌-◌, ◌*◌, ◌/◌, Bool, true, false, ◌&&◌, Option, none, some, ltb, min, if◌then◌else◌,
  or_else,
}
use solverr.Base.Text.{Text, codes}
use solverr.Budget.{solve_deadline, one_second}
use solverr.Engines.Polling.{Kind, blocked, challenged, clear, is_challenged, blocked_message}
use solverr.Engines.{Call, returned, timed_out, raised}

-- `_API_SOLVE_SECONDS`, and `_NETWORKIDLE_MS` in milliseconds
abbrev pub api_solve_time : ℕ
api_solve_time = 30 * one_second

abbrev pub settle_cap : ℕ
settle_cap = 5000

-- One request on a context's page.
pub record Request (A : Type 0) : Type 0 where
  -- `get_config_disable_media()` and the request's own option
  pub media_disabled : Bool
  pub disable_media : Option Bool
  pub started : ℕ
  pub timeout : ℕ
  -- `target.route` on the context's page, and the shared approach to the page (pipeline.py)
  pub add_route : Call Unit
  pub approach : Call Unit
  -- `_detect_settled` by the settled verdict
  pub detected : Call (Kind × Bool)
  pub api_enabled : Bool
  pub now_room : ℕ
  -- `_wait_until_cleared` up to a deadline
  pub wait : ℕ → Call Bool
  -- the steps of `open_click_page`
  pub new_page : Call Unit
  pub enter_solver : Call Unit
  pub add_click_route : Call Unit
  pub click_navigate : Call Unit
  pub api_solve : Call Unit
  pub detected_again : Call (Kind × Bool)
  -- `assembly.run_async` with its message
  pub assemble : Text → Call A
  -- The calls of the `finally` block: `remove_listener`, and whether `unroute`, the solver's `__aexit__`
  -- and the page's `close` take off what they are for. An exception of these three is logged.
  pub remove_listener : Call Unit
  pub unroutes : Bool
  pub leaves_solver : Bool
  pub closes_page : Bool

-- What the request has put on the context, to be taken off again: response handlers, routes, click
-- pages and solvers entered.
pub record Marks : Type 0 where
  pub handlers : ℕ
  pub routes : ℕ
  pub pages : ℕ
  pub solvers : ℕ

abbrev pub no_marks : Marks
no_marks = record { handlers = 0; routes = 0; pages = 0; solvers = 0 }

-- The lists `instrumented` and `click`, as the `finally` block reads them: how many targets have a
-- handler, how many of these a route, whether there is a click page, and whether its solver is entered.
pub record Registered : Type 0 where
  pub targets : ℕ
  pub routed : ℕ
  pub has_page : Bool
  pub has_solver : Bool

abbrev pub none_registered : Registered
none_registered = record { targets = 0; routed = 0; has_page = false; has_solver = false }

-- The state of a request while it runs.
pub record State : Type 0 where
  pub marks : Marks
  pub registered : Registered

-- A step of the block: what it comes to, and the state behind it.
abbrev pub Block : Type 0 → Type 0
Block A = State → Call A × State

unfoldable pub go_on : {A B : Type 0} → Call A × State → (A → Block B) → Call B × State
go_on (returned a, s) f = f a s
go_on (timed_out, s) f = (timed_out, s)
go_on (raised e, s) f = (raised e, s)

unfoldable pub then_block : {A B : Type 0} → Block A → (A → Block B) → Block B
unfolding go_on
then_block m f s = go_on (m s) f

-- A call that leaves the state alone.
abbrev pub call : {A : Type 0} → Call A → Block A
call c s = (c, s)

abbrev pub solved_text : Text
solved_text = codes "Challenge solved!"

abbrev pub clear_text : Text
clear_text = codes "Challenge not detected!"

-- The message of a page whose challenge was worked on.
abbrev pub solved_message : Bool → Call Text
solved_message true = returned solved_text
solved_message false = raised (codes "Challenge still present after solving attempts")

module _ {A : Type 0} where
  abbrev pub media_off : Request A → Bool
  media_off r = or_else r.disable_media r.media_disabled

  -- `instrument`: a route that is not added leaves nothing behind.
  unfoldable pub instrument : Request A → Call Unit → Block Unit
  instrument r add_route s =
      let g = s.registered in
      let m = s.marks in
      if media_off r
      then (elim add_route [
        | returned _ ↦ (
          returned tt,
          record {
            marks = record m { handlers = suc m.handlers; routes = suc m.routes };
            registered = record g { targets = suc g.targets; routed = suc g.routed };
          },
        )
        | timed_out ↦ (timed_out, s)
        | raised e ↦ (raised e, s)
      ])
      else (
        returned tt,
        record {
          marks = record m { handlers = suc m.handlers };
          registered = record g { targets = suc g.targets };
        },
      )

  -- The click page is registered before its solver is prepared.
  unfoldable pub open_page : Request A → Block Unit
  open_page r s = elim r.new_page [
    | returned _ ↦ (
      returned tt,
      record {
        marks = record s.marks { pages = suc s.marks.pages };
        registered = record s.registered { has_page = true };
      },
    )
    | timed_out ↦ (timed_out, s)
    | raised e ↦ (raised e, s)
  ]

  unfoldable pub enter_solver : Request A → Block Unit
  enter_solver r s = elim r.enter_solver [
    | returned _ ↦ (
      returned tt,
      record {
        marks = record s.marks { solvers = suc s.marks.solvers };
        registered = record s.registered { has_solver = true };
      },
    )
    | timed_out ↦ (timed_out, s)
    | raised e ↦ (raised e, s)
  ]

  -- `open_click_page`, which is called once.
  unfoldable pub open_click_page : Request A → Block Unit
  unfolding then_block open_page enter_solver instrument
  open_click_page r = then_block (open_page r) (λ _.
      then_block (enter_solver r)
        (λ _. then_block (instrument r r.add_click_route) (λ _. call r.click_navigate)))

  -- The deadline of the free solve: the paid one's time is kept back if there is room for both.
  unfoldable pub wait_deadline : Request A → ℕ
  unfolding solve_deadline
  wait_deadline r =
      let deadline = solve_deadline r.started r.timeout in
      if r.api_enabled && ltb (2 * api_solve_time) (deadline - r.now_room)
      then deadline - api_solve_time
      else deadline

  -- The paid solve, and whether it cleared the page.
  unfoldable pub paid_solve : Request A → Block Bool
  unfolding then_block open_click_page
  paid_solve r = then_block (open_click_page r) (λ _. then_block (call r.api_solve) (λ _.
      then_block (call r.detected_again)
        (λ d. call (returned (if is_challenged d.0 then false else true)))))

  -- The paid solve is done where it is configured and the free one failed.
  unfoldable pub escalate : Request A → Bool → Block Bool
  unfolding paid_solve
  escalate r true = call (returned true)
  escalate r false = if r.api_enabled then paid_solve r else call (returned false)

  -- The answer to a page of a kind: the message of the response. The waits for the load states behind a
  -- solved challenge change nothing here, since an exception of theirs is logged.
  unfoldable pub solve_kind : Request A → Kind → Block Text
  unfolding then_block escalate wait_deadline
  solve_kind r blocked = call (raised blocked_message)
  solve_kind r clear = call (returned clear_text)
  solve_kind r challenged =
      then_block (call (r.wait (wait_deadline r)))
        (λ cleared. then_block (escalate r cleared) (λ solved. call (solved_message solved)))

  -- The `try` block.
  unfoldable pub attempt : Request A → Block A
  unfolding then_block instrument solve_kind
  attempt r = then_block (instrument r r.add_route) (λ _. then_block (call r.approach) (λ _.
      then_block (call r.detected)
        (λ d. then_block (solve_kind r d.0) (λ message. call (r.assemble message)))))

  -- What is left on the context where no exception leaves the `finally` block.
  unfoldable pub take_off : Request A → State → Marks
  take_off r s =
      let m = s.marks in
      let g = s.registered in
      record {
        handlers = m.handlers - g.targets;
        routes = if r.unroutes then m.routes - g.routed else m.routes;
        pages = if g.has_page && r.closes_page then m.pages - 1 else m.pages;
        solvers = if g.has_solver && r.leaves_solver then m.solvers - 1 else m.solvers;
      }

  -- The `finally` block behind a result. `remove_listener` comes first and stands in no `try`: an exception
  -- of it replaces the result and leaves all that is on the context where it is.
  unfoldable pub clean_up : Request A → Call A → State → Call A × Marks
  unfolding take_off
  clean_up r result s =
      if ltb 0 s.registered.targets
      then (elim r.remove_listener [
        | returned _ ↦ (result, take_off r s)
        | timed_out ↦ (timed_out, s.marks)
        | raised e ↦ (raised e, s.marks)
      ])
      else (result, take_off r s)

  unfoldable pub navigate_and_solve : Request A → Call A × Marks
  unfolding attempt clean_up
  navigate_and_solve r =
      let (result, s) = attempt r (record { marks = no_marks; registered = none_registered }) in
      clean_up r result s

-- The time that a load state may take to settle behind a solved challenge, in milliseconds; none when
-- the deadline is over, and then the later states are not waited for.
unfoldable pub settle_time : ℕ → ℕ → Option ℕ
settle_time deadline now =
    if ltb (deadline - now) 1000 then none else some (min settle_cap ((deadline - now) / 1000))
