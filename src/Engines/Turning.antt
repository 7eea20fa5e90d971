-- ===== src/Engines/Turning.antt =====
-- What a pass of the stealth engine's wait for a challenge saw, and what it leads to.
use solverr.Base.{
  ℕ, ◌+◌, ◌-◌, ◌≤◌, ◌≡◌, ◌≢◌, refl, Bool, true, false, [], ◌∷◌, ◌⊎◌, inl, inr, arith, leb,
  if◌then◌else◌,
}
use solverr.Engines.Polling.{
  Kind, blocked, challenged, clear, Pass, click_cooldown, Turn, stop, look_on, on_answer, confirm,
  press, turn, is_challenged, blocked_message,
}
use solverr.Base.Text.{Text}
use solverr.Engines.{Call, returned, timed_out, raised}

-- The second reading is no challenge either, or the widget has a token and is no interstitial's.
abbrev pub IsCleared : Pass → Type 0
IsCleared p =
    ((w v : Bool) × (k : Kind) × (p.detected ≡ returned (clear, w))
      × (p.detected_again ≡ returned (k, v))
      × (k ≢ challenged))
    ⊎ ((p.detected ≡ returned (challenged, true))
        × (p.has_token ≡ true)
        × (p.is_interstitial ≡ returned false))

-- The challenge is still there: it came back at the second reading, its widget has no token yet, there is
-- no widget, or the token is an interstitial's, which loads the next page by itself.
abbrev pub IsOpen : Pass → Type 0
IsOpen p =
    ((w v : Bool) × (p.detected ≡ returned (clear, w))
      × (p.detected_again ≡ returned (challenged, v)))
    ⊎ ((p.detected ≡ returned (challenged, false))
        ⊎ ((p.detected ≡ returned (challenged, true))
            × ((p.has_token ≡ false)
                ⊎ ((p.has_token ≡ true) × (p.is_interstitial ≡ returned true)))))

-- A call of the pass has run into the time limit.
abbrev pub TimesOut : Pass → Type 0
TimesOut p =
    (p.detected ≡ timed_out)
    ⊎ ((p.detected_again ≡ timed_out) ⊎ ((p.is_interstitial ≡ timed_out) ⊎ (p.click ≡ timed_out)))

-- A call of the pass has raised this, or the page says that the caller is blocked.
abbrev pub Raises : Text → Pass → Type 0
Raises e p =
    ((w : Bool) × (p.detected ≡ returned (blocked, w)) × (e ≡ blocked_message))
    ⊎ ((p.detected ≡ raised e)
        ⊎ ((p.detected_again ≡ raised e) ⊎ ((p.is_interstitial ≡ raised e) ⊎ (p.click ≡ raised e))))

-- A turn that ends the loop never does so with `false`.
abbrev pub TurnMeans : Pass → ℕ → Turn → Type 0
TurnMeans p last (stop (returned true)) = IsCleared p
TurnMeans p last (stop (returned false)) = ⊥
TurnMeans p last (stop timed_out) = TimesOut p
TurnMeans p last (stop (raised e)) = Raises e p
TurnMeans p last (look_on next presses) =
    IsOpen p
    × (((next ≡ last) × (presses ≡ []))
        ⊎ ((b : ℕ) × (presses ≡ (b, next) ∷ []) × (last + click_cooldown ≤ b)))

confirm-TurnMeans :
    (last : ℕ) (p : Pass) (w : Bool)
    → p.detected ≡ returned (clear, w)
    → TurnMeans p last (confirm last p)
unfolding confirm on_answer
confirm-TurnMeans last p w h = go p.detected_again refl
  where
    go :
        (c : Call (Kind × Bool))
        → p.detected_again ≡ c
        → TurnMeans p last
            (on_answer c (λ d. if is_challenged d.0 then look_on last [] else stop (returned true)))
    go timed_out e = inr (inl e)
    go (raised t) e = inr (inr (inl e))
    go (returned (challenged, v)) e = (inl (w, v, h, e), inl (refl, refl))
    go (returned (clear, v)) e = inl (w, v, clear, h, e, ground arith)
    go (returned (blocked, v)) e = inl (w, v, blocked, h, e, ground arith)

press-TurnMeans :
    (last : ℕ) (p : Pass)
    → p.detected ≡ returned (challenged, true)
    → TurnMeans p last (press last p)
unfolding press on_answer
press-TurnMeans last p h = go p.has_token refl
  where
    token :
        (c : Call Bool)
        → p.is_interstitial ≡ c
        → p.has_token ≡ true
        → TurnMeans p last (on_answer c (λ b. if b then look_on last [] else stop (returned true)))
    token timed_out e t = inr (inr (inl e))
    token (raised x) e t = inr (inr (inr (inl e)))
    token (returned true) e t = (inr (inr (h, inr (t, e))), inl (refl, refl))
    token (returned false) e t = inr (h, t, e)

    landed :
        (c : Call Bool)
        → p.click ≡ c
        → p.has_token ≡ false
        → last + click_cooldown ≤ p.now_before
        → TurnMeans p last (
            on_answer c (λ b.
              if b
              then look_on p.now_clicked ((p.now_before, p.now_clicked) ∷ [])
              else look_on last []))
    landed timed_out e t l = inr (inr (inr e))
    landed (raised x) e t l = inr (inr (inr (inr e)))
    landed (returned true) e t l = (inr (inr (h, inl t)), inr (p.now_before, refl, l))
    landed (returned false) e t l = (inr (inr (h, inl t)), inl (refl, refl))

    cool :
        (b : Bool)
        → leb click_cooldown (p.now_before - last) ≡ b
        → p.has_token ≡ false
        → TurnMeans p last (
            if b
            then on_answer p.click (λ c.
              if c
              then look_on p.now_clicked ((p.now_before, p.now_clicked) ∷ [])
              else look_on last [])
            else look_on last [])
    cool true e t = landed p.click refl t (ground (arith, e))
    cool false e t = (inr (inr (h, inl t)), inl (refl, refl))

    go :
        (b : Bool)
        → p.has_token ≡ b
        → TurnMeans p last (
            if b
            then on_answer p.is_interstitial
                (λ c. if c then look_on last [] else stop (returned true))
            else if leb click_cooldown (p.now_before - last)
            then on_answer p.click (λ c.
              if c
              then look_on p.now_clicked ((p.now_before, p.now_clicked) ∷ [])
              else look_on last [])
            else look_on last [])
    go true e = token p.is_interstitial refl e
    go false e = cool (leb click_cooldown (p.now_before - last)) refl e

pub turn-TurnMeans : (last : ℕ) (p : Pass) → TurnMeans p last (turn last p)
unfolding turn on_answer
turn-TurnMeans last p = go p.detected refl
  where
    go :
        (c : Call (Kind × Bool))
        → p.detected ≡ c
        → TurnMeans p last (
            on_answer c (λ d. elim d.0 [
              | blocked ↦ stop (raised blocked_message)
              | clear ↦ confirm last p
              | challenged ↦ if d.1 then press last p else look_on last []
            ]))
    go timed_out e = inl e
    go (raised x) e = inr (inl e)
    go (returned (blocked, w)) e = inl (w, e, refl)
    go (returned (clear, w)) e = confirm-TurnMeans last p w e
    go (returned (challenged, true)) e = press-TurnMeans last p e
    go (returned (challenged, false)) e = (inr (inl e), inl (refl, refl))
