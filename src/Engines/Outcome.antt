-- ===== src/Engines/Outcome.antt =====
-- The stealth engine's work on a page takes off the context what it put there.
use solverr.Base.{
  ℕ, ◌≤◌, ◌≡◌, Bool, true, false, arith, if◌then◌else◌, refl, inl, inr, Bool-cases, ltb,
}
use solverr.Engines.Navigate.{
  Request, no_marks, none_registered, State, Block, go_on, then_block, call, instrument, open_page,
  enter_solver, open_click_page, wait_deadline, paid_solve, escalate, solve_kind, solved_message,
  attempt, take_off, clean_up, navigate_and_solve,
}
use solverr.Engines.Polling.{Kind, blocked, challenged, clear, is_challenged}
use solverr.Engines.{Call, returned, timed_out, raised}

abbrev at_most : Bool → ℕ
at_most b = if b then 1 else 0

-- All that is on the context is registered; before the click page is opened, and before its solver is
-- entered, neither is.
abbrev Even : State → Type 0
Even s =
    (s.marks.handlers ≤ s.registered.targets)
    × (s.marks.routes ≤ s.registered.routed)
    × (s.marks.pages ≤ at_most s.registered.has_page)
    × (s.marks.solvers ≤ at_most s.registered.has_solver)

abbrev Opened : State → Type 0
Opened s = Even s × (s.registered.has_solver ≡ false)

abbrev Start : State → Type 0
Start s = Opened s × (s.registered.has_page ≡ false)

-- A block goes from states with `P` to states with `Q`, whatever it comes to.
record Takes {A : Type 0} (P Q : State → Type 0) (m : Block A) : Type 0 where
  leads : (s : State) → P s → Q (m s).1

go_on-leads :
    {A B : Type 0} (R : State → Type 0) (f : A → Block B) (r : Call A × State)
    → ((a : A) → R (f a r.1).1)
    → R r.1
    → R (go_on r f).1
unfolding go_on
go_on-leads R f (returned a, t) k q = k a
go_on-leads R f (timed_out, t) k q = q
go_on-leads R f (raised e, t) k q = q

then_block-Takes :
    {A B : Type 0} {P Q R : State → Type 0} {m : Block A} {f : A → Block B}
    → Takes P Q m
    → ((a : A) → Takes Q R (f a))
    → ((s : State) → Q s → R s)
    → Takes P R (then_block m f)
unfolding then_block
then_block-Takes {R = R} {m = m} {f = f} h k w = record {
  leads = λ s p.
      go_on-leads R f (m s) (λ a. (k a).leads (m s).1 (h.leads s p)) (w (m s).1 (h.leads s p));
}

-- A block that leaves the state alone.
still :
    {A : Type 0} {P Q : State → Type 0} (c : Call A)
    → ((s : State) → P s → Q s)
    → Takes P Q (call c)
still c w = record { leads = w }

if-Takes :
    {A : Type 0} {P Q : State → Type 0} {m n : Block A} (b : Bool)
    → Takes P Q m
    → Takes P Q n
    → Takes P Q (if b then m else n)
if-Takes true h k = h
if-Takes false h k = k

module _ {A : Type 0} (r : Request A) where
  instrument-Start : (c : Call Unit) → Takes Start Start (instrument r c)
  unfolding instrument
  instrument-Start c = record { leads = λ s p. ground (arith, p) }

  instrument-Even : (c : Call Unit) → Takes Even Even (instrument r c)
  unfolding instrument
  instrument-Even c = record { leads = λ s p. ground (arith, p) }

  open_page-Opened : Takes Start Opened (open_page r)
  unfolding open_page
  open_page-Opened = record { leads = λ s p. ground (arith, p) }

  enter_solver-Even : Takes Opened Even (enter_solver r)
  unfolding enter_solver
  enter_solver-Even = record { leads = λ s p. ground (arith, p) }

  open_click_page-Even : Takes Start Even (open_click_page r)
  unfolding open_click_page
  open_click_page-Even =
      then_block-Takes open_page-Opened
        (λ _.
          then_block-Takes enter_solver-Even
            (λ _.
              then_block-Takes (instrument-Even r.add_click_route) (λ _. still _ (λ s p. p))
                (λ s p. p))
            (λ s p. p))
        (λ s p. p.0)

  paid_solve-Even : Takes Start Even (paid_solve r)
  unfolding paid_solve
  paid_solve-Even =
      then_block-Takes open_click_page-Even
        (λ _.
          then_block-Takes (still r.api_solve (λ s p. p))
            (λ _.
              then_block-Takes (still r.detected_again (λ s p. p))
                (λ d. still (returned (if is_challenged d.0 then false else true)) (λ s p. p))
                (λ s p. p))
            (λ s p. p))
        (λ s p. p)

  escalate-Even : (b : Bool) → Takes Start Even (escalate r b)
  unfolding escalate
  escalate-Even true = still _ (λ s p. p.0.0)
  escalate-Even false =
      if-Takes r.api_enabled paid_solve-Even (still (returned false) (λ s p. p.0.0))

  solve_kind-Even : (k : Kind) → Takes Start Even (solve_kind r k)
  unfolding solve_kind
  solve_kind-Even blocked = still _ (λ s p. p.0.0)
  solve_kind-Even clear = still _ (λ s p. p.0.0)
  solve_kind-Even challenged =
      then_block-Takes (still (r.wait (wait_deadline r)) (λ s p. p))
        (λ cleared.
          then_block-Takes (escalate-Even cleared)
            (λ solved. still (solved_message solved) (λ s p. p)) (λ s p. p))
        (λ s p. p.0.0)

  attempt-Even : Takes Start Even (attempt r)
  unfolding attempt
  attempt-Even =
      then_block-Takes (instrument-Start r.add_route)
        (λ _.
          then_block-Takes (still r.approach (λ s p. p))
            (λ _.
              then_block-Takes (still r.detected (λ s p. p))
                (λ d.
                  then_block-Takes (solve_kind-Even d.0)
                    (λ message. still (r.assemble message) (λ s p. p)) (λ s p. p))
                (λ s p. p.0.0))
            (λ s p. p.0.0))
        (λ s p. p.0.0)

-- The calls of the `finally` block do what they are for.
abbrev pub IsRemovable : {A : Type 0} → Request A → Type 0
IsRemovable r =
    (r.remove_listener ≡ returned tt)
    × (r.unroutes ≡ true)
    × (r.leaves_solver ≡ true)
    × (r.closes_page ≡ true)

take_off-Even :
    {A : Type 0} (r : Request A) (s : State) → IsRemovable r → Even s → take_off r s ≡ no_marks
unfolding take_off
take_off-Even r s (l, u, v, c) p = ground (arith, l, u, v, c, p)

clean_up-Even :
    {A : Type 0} (r : Request A) (result : Call A) (s : State)
    → IsRemovable r
    → Even s
    → clean_up r result s ≡ (result, no_marks)
unfolding clean_up
clean_up-Even r result s h p =
    let e = take_off-Even r s h p in
    elim (Bool-cases (ltb 0 s.registered.targets)) [
      | inl t ↦ rw (clean_up, t, h.0, e) refl
      | inr t ↦ rw (clean_up, t, e) refl
    ]

-- The result of the work on the page is the `try` block's, and nothing is left on the context.
pub navigate-no_marks :
    {A : Type 0} (r : Request A)
    → IsRemovable r
    → navigate_and_solve r
      ≡ ((attempt r (record { marks = no_marks; registered = none_registered })).0, no_marks)
unfolding navigate_and_solve
navigate-no_marks r h =
    let s : State = record { marks = no_marks; registered = none_registered } in
    clean_up-Even r (attempt r s).0 (attempt r s).1 h ((attempt-Even r).leads s (ground arith))
