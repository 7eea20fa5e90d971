-- ===== src/Engines/Solved.antt =====
-- What the stealth engine's work on a page comes to.
use solverr.Base.{
  ◌≡◌, ◌≢◌, refl, sym, ap, ◌∙◌, Bool, true, false, ◌⊎◌, inl, inr, arith, if◌then◌else◌,
}
use solverr.Base.Text.{Text}
use solverr.Engines.Navigate.{
  Request, no_marks, none_registered, State, Block, go_on, then_block, call, instrument,
  open_click_page, wait_deadline, paid_solve, escalate, solve_kind, solved_message, solved_text,
  clear_text, attempt, navigate_and_solve,
}
use solverr.Engines.Outcome.{IsRemovable, navigate-no_marks}
use solverr.Engines.Polling.{Kind, blocked, challenged, clear, is_challenged}
use solverr.Engines.{Call, returned, timed_out, raised}

-- What holds of a value, if there is one.
abbrev OnReturn : {A : Type 0} → (A → Type 0) → Call A → Type 0
OnReturn Q (returned a) = Q a
OnReturn Q timed_out = Unit
OnReturn Q (raised e) = Unit

record Shows {A : Type 0} (Q : A → Type 0) (m : Block A) : Type 0 where
  shows : (s : State) → OnReturn Q (m s).0

go_on-shows :
    {A B : Type 0} (Q : A → Type 0) (R : B → Type 0) (f : A → Block B) (r : Call A × State)
    → OnReturn Q r.0
    → ((a : A) → Q a → Shows R (f a))
    → OnReturn R (go_on r f).0
unfolding go_on
go_on-shows Q R f (returned a, t) q k = (k a q).shows t
go_on-shows Q R f (timed_out, t) q k = tt
go_on-shows Q R f (raised e, t) q k = tt

then_block-Shows :
    {A B : Type 0} {Q : A → Type 0} {R : B → Type 0} {m : Block A} {f : A → Block B}
    → Shows Q m
    → ((a : A) → Q a → Shows R (f a))
    → Shows R (then_block m f)
unfolding then_block
then_block-Shows {Q = Q} {R = R} {m = m} {f = f} h k = record {
  shows = λ s. go_on-shows Q R f (m s) (h.shows s) k;
}

OnReturn-self : {A : Type 0} (c : Call A) → OnReturn (λ a. c ≡ returned a) c
OnReturn-self (returned a) = refl
OnReturn-self timed_out = tt
OnReturn-self (raised e) = tt

called : {A : Type 0} (c : Call A) → Shows (λ a. c ≡ returned a) (call c)
called c = record { shows = λ s. OnReturn-self c }

OnReturn-any : {A : Type 0} (c : Call A) → OnReturn (λ a. Unit) c
OnReturn-any (returned a) = tt
OnReturn-any timed_out = tt
OnReturn-any (raised e) = tt

any : {A : Type 0} (m : Block A) → Shows (λ a. Unit) m
any m = record { shows = λ s. OnReturn-any (m s).0 }

module _ {A : Type 0} (r : Request A) where
  -- The paid solve is configured, and the page is no challenge behind it.
  abbrev pub IsPaid : Type 0
  IsPaid =
      (r.api_enabled ≡ true)
      × (k : Kind) × (w : Bool) × (r.detected_again ≡ returned (k, w))
      × (k ≢ challenged)

  -- A challenge is solved by the wait, or paid for.
  abbrev pub IsSolved : Type 0
  IsSolved =
      (w : Bool) × (r.detected ≡ returned (challenged, w))
      × ((r.wait (wait_deadline r) ≡ returned true) ⊎ IsPaid)

  abbrev pub IsClear : Type 0
  IsClear = (w : Bool) × (r.detected ≡ returned (clear, w))

  -- The response's message and what it rests on.
  abbrev Message : Text → Type 0
  Message m = ((m ≡ solved_text) × IsSolved) ⊎ ((m ≡ clear_text) × IsClear)

  -- A response is put together with the message that is true of the page.
  abbrev pub Explains : Call A → Type 0
  Explains (returned a) =
      ((r.assemble solved_text ≡ returned a) × IsSolved)
      ⊎ ((r.assemble clear_text ≡ returned a) × IsClear)
  Explains timed_out = Unit
  Explains (raised e) = Unit

  paid_answer :
      (k : Kind) (w : Bool)
      → r.api_enabled ≡ true
      → r.detected_again ≡ returned (k, w)
      → ((if is_challenged k then false else true) ≡ false) ⊎ IsPaid
  paid_answer challenged w e q = inl refl
  paid_answer clear w e q = inr (e, clear, w, q, ground arith)
  paid_answer blocked w e q = inr (e, blocked, w, q, ground arith)

  paid :
      (c : Call Bool)
      → OnReturn (λ b. (b ≡ false) ⊎ IsPaid) c
      → OnReturn (λ b. (b ≡ false) ⊎ ((false ≡ true) ⊎ IsPaid)) c
  paid (returned b) (inl e) = inl e
  paid (returned b) (inr p) = inr (inr p)
  paid timed_out q = tt
  paid (raised e) q = tt

  paid_solve-Shows : r.api_enabled ≡ true → Shows (λ b. (b ≡ false) ⊎ IsPaid) (paid_solve r)
  unfolding paid_solve
  paid_solve-Shows e = then_block-Shows (any (open_click_page r)) (λ _ _.
      then_block-Shows (called r.api_solve) (λ _ _.
        then_block-Shows (called r.detected_again)
          (λ d q. record { shows = λ s. paid_answer d.0 d.1 e q })))

  escalate-Shows : (b : Bool) → Shows (λ c. (c ≡ false) ⊎ ((b ≡ true) ⊎ IsPaid)) (escalate r b)
  unfolding escalate
  escalate-Shows true = record { shows = λ s. inr (inl refl) }
  escalate-Shows false = go r.api_enabled refl
    where
      go :
          (e : Bool)
          → r.api_enabled ≡ e
          → Shows
              (λ c. (c ≡ false) ⊎ ((false ≡ true) ⊎ IsPaid))
              (if e then paid_solve r else call (returned false))
      go true h = record { shows = λ s. paid ((paid_solve r s).0) ((paid_solve-Shows h).shows s) }
      go false h = record { shows = λ s. inl refl }

  solved_message-Message :
      (b w : Bool)
      → r.detected ≡ returned (challenged, w)
      → (b ≡ false) ⊎ ((r.wait (wait_deadline r) ≡ returned true) ⊎ IsPaid)
      → OnReturn Message (solved_message b)
  solved_message-Message true w d (inl e) = absurd (ground (arith, e))
  solved_message-Message true w d (inr k) = inl (refl, (w, d, k))
  solved_message-Message false w d k = tt

  by_wait :
      (b c : Bool)
      → r.wait (wait_deadline r) ≡ returned b
      → (c ≡ false) ⊎ ((b ≡ true) ⊎ IsPaid)
      → (c ≡ false) ⊎ ((r.wait (wait_deadline r) ≡ returned true) ⊎ IsPaid)
  by_wait b c h (inl e) = inl e
  by_wait b c h (inr (inl e)) = inr (inl (h ∙ ap returned e))
  by_wait b c h (inr (inr p)) = inr (inr p)

  solve_kind-Shows :
      (k : Kind) (w : Bool) → r.detected ≡ returned (k, w) → Shows Message (solve_kind r k)
  unfolding solve_kind
  solve_kind-Shows blocked w d = record { shows = λ s. tt }
  solve_kind-Shows clear w d = record { shows = λ s. inr (refl, (w, d)) }
  solve_kind-Shows challenged w d = then_block-Shows (called (r.wait (wait_deadline r))) (λ b h.
      then_block-Shows (escalate-Shows b)
        (λ c k. record { shows = λ s. solved_message-Message c w d (by_wait b c h k) }))

  Explains-Message :
      (m : Text) (c : Call A)
      → r.assemble m ≡ c
      → Message m
      → OnReturn (λ a. Explains (returned a)) c
  Explains-Message m (returned a) h (inl (e, k)) = inl (ap r.assemble (sym e) ∙ h, k)
  Explains-Message m (returned a) h (inr (e, k)) = inr (ap r.assemble (sym e) ∙ h, k)
  Explains-Message m timed_out h k = tt
  Explains-Message m (raised e) h k = tt

  attempt-Shows : Shows (λ a. Explains (returned a)) (attempt r)
  unfolding attempt
  attempt-Shows = then_block-Shows (any (instrument r r.add_route)) (λ _ _.
      then_block-Shows (called r.approach) (λ _ _. then_block-Shows (called r.detected) (λ d h.
        then_block-Shows (solve_kind-Shows d.0 d.1 h)
          (λ m k. record { shows = λ s. Explains-Message m (r.assemble m) refl k }))))

  explained : (c : Call A) → OnReturn (λ a. Explains (returned a)) c → Explains c
  explained (returned a) h = h
  explained timed_out h = tt
  explained (raised e) h = tt

-- Where the calls of its `finally` block do what they are for, the stealth engine's work on a page takes
-- off the context every response handler, route, click page and entered solver that it put there,
-- whatever the page and the libraries answer before that. A response says that a challenge was solved
-- only where one was found and either the wait saw it clear, or the paid solve is configured and the
-- page was no challenge behind it; it says that there was none only where none was found.
pub navigate_and_solve-explained :
    {A : Type 0} (r : Request A)
    → IsRemovable r
    → ((navigate_and_solve r).1 ≡ no_marks) × Explains r (navigate_and_solve r).0
navigate_and_solve-explained r h =
    let s : State = record { marks = no_marks; registered = none_registered } in
    rw (navigate-no_marks r h) (refl, explained r (attempt r s).0 ((attempt-Shows r).shows s))
