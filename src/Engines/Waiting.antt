-- ===== src/Engines/Waiting.antt =====
-- The stealth engine's wait for a challenge to clear comes to an end, and what its answer rests on.
use solverr.Base.{
  ℕ, zero, suc, ◌+◌, ◌-◌, ◌*◌, ◌/◌, ◌≤◌, ◌<◌, append-nil, ◌≡◌, refl, subst, sym, ℕ_discrete, Bool,
  true, false, Option, some, List, [], ◌∷◌, ◌++◌, ◌⊎◌, inl, inr, arith, leb, if◌then◌else◌,
  Bool-cases,
}
use solverr.Engines.Polling.{
  Pass, click_cooldown, poll_time, Turn, stop, look_on, turn, wait_until_cleared,
}
use solverr.Engines.{Call, returned, timed_out, raised}
use solverr.Engines.Turning.{IsCleared, IsOpen, TimesOut, Raises, TurnMeans, turn-TurnMeans}

-- What an answer means of the pass that it comes from.
abbrev pub Means : ℕ → Pass → Call Bool → Type 0
Means deadline p (returned true) = IsCleared p
Means deadline p (returned false) = IsOpen p × (deadline ≤ p.now)
Means deadline p timed_out = TimesOut p
Means deadline p (raised e) = Raises e p

-- Every pass before this one saw the challenge, and ended before the deadline.
abbrev pub OpenBefore : ℕ → (ℕ → Pass) → ℕ → Type 0
OpenBefore deadline p j = (k : ℕ) → k < j → IsOpen (p k) × ((p k).now < deadline)

OpenBefore-suc :
    (deadline : ℕ) (p : ℕ → Pass) (i : ℕ)
    → OpenBefore deadline p i
    → IsOpen (p i) × ((p i).now < deadline)
    → OpenBefore deadline p (suc i)
OpenBefore-suc deadline p i b h k l = elim (ℕ_discrete k i) [
  | yes e ↦ subst (λ n. IsOpen (p n) × ((p n).now < deadline)) (sym e) h
  | no n ↦ b k (omega (arith, l, n))
]

-- Presses that landed, each begun a cooldown after the last one was over at the earliest.
abbrev pub Spaced : ℕ → List (ℕ × ℕ) → Type 0
Spaced last [] = Unit
Spaced last ((begun, over) ∷ presses) = (last + click_cooldown ≤ begun) × Spaced over presses

Spaced-append :
    (last next : ℕ) (presses more : List (ℕ × ℕ))
    → ((next ≡ last) × (presses ≡ []))
      ⊎ ((b : ℕ) × (presses ≡ (b, next) ∷ []) × (last + click_cooldown ≤ b))
    → Spaced next more
    → Spaced last (presses ++ more)
Spaced-append last next presses more (inl (e, k)) h = rw (k) (subst (λ n. Spaced n more) e h)
Spaced-append last next presses more (inr (b, k, l)) h = rw (k) (l, h)

-- What a run of the loop comes to.
abbrev pub Ends : ℕ → ℕ → (ℕ → Pass) → Option (Call Bool) × List (ℕ × ℕ) → Type 0
Ends deadline last p r =
    (answer : Call Bool) × (j : ℕ) × (r.0 ≡ some answer)
    × Means deadline (p j) answer
    × OpenBefore deadline p j
    × Spaced last r.1

wait_step :
    (n deadline last i : ℕ) (p : ℕ → Pass) (t : Turn)
    → OpenBefore deadline p i
    → TurnMeans (p i) last t
    → ((next : ℕ)
        → IsOpen (p i) × ((p i).now < deadline)
        → Ends deadline next p (wait_until_cleared n deadline next (suc i) p))
    → Ends deadline last p (elim t [
      | stop answer ↦ (some answer, [])
      | look_on last_click' presses ↦
          if leb deadline (p i).now
          then (some (returned false), presses)
          else let (answer, more) = wait_until_cleared n deadline last_click' (suc i) p in
            (answer, presses ++ more)
    ])
wait_step n deadline last i p (stop (returned true)) b h later = (returned true, i, refl, h, b, tt)
wait_step n deadline last i p (stop (returned false)) b h later = absurd h
wait_step n deadline last i p (stop timed_out) b h later = (timed_out, i, refl, h, b, tt)
wait_step n deadline last i p (stop (raised e)) b h later = (raised e, i, refl, h, b, tt)
wait_step n deadline last i p (look_on next presses) b h later =
    elim (Bool-cases (leb deadline (p i).now)) [
      | inl e ↦ rw e (
        returned false,
        i,
        refl,
        (h.0, ground (arith, e)),
        b,
        subst (Spaced last) (append-nil presses) (Spaced-append last next presses [] h.1 tt),
      )
      | inr e ↦
          let (answer, j, found, meant, earlier, spaced) = later next (h.0, ground (arith, e)) in
          rw e (answer, j, found, meant, earlier, Spaced-append last next presses _ h.1 spaced)
    ]

-- With passes a poll apart, `n` more polls than the first pass reach the deadline.
wait-Ends :
    (n deadline last i : ℕ) (p : ℕ → Pass)
    → ((j : ℕ) → (p j).now + poll_time ≤ (p (suc j)).now)
    → deadline ≤ (p i).now + n * poll_time
    → OpenBefore deadline p i
    → Ends deadline last p (wait_until_cleared (suc n) deadline last i p)
unfolding wait_until_cleared
wait-Ends zero deadline last i p tick fuel b =
    wait_step zero deadline last i p (turn last (p i)) b (turn-TurnMeans last (p i))
      (λ next h. let l = h.1 in absurd (omega (arith, l, fuel)))
wait-Ends (suc n) deadline last i p tick fuel b =
    wait_step (suc n) deadline last i p (turn last (p i)) b (turn-TurnMeans last (p i)) (λ next h.
      wait-Ends n deadline next (suc i) p tick (omega (arith, tick i, fuel))
        (OpenBefore-suc deadline p i b h))

-- The stealth engine's wait for a challenge ends after at most two passes more than there are polls
-- from the first pass to its deadline, if each pass ends a poll after the one before, as the sleep
-- between them makes it. Its answer is that of one pass, before which every pass saw the challenge
-- still there and ended before the deadline. It is true where that pass saw the challenge gone
-- twice, or a widget of its own with a token; false where the pass still saw the challenge and ended
-- at the deadline or behind it; and an exception only where a call of the pass raised it or the page
-- said that the caller is blocked. The presses that landed are a cooldown apart.
pub wait_until_cleared-Ends :
    (deadline : ℕ) (p : ℕ → Pass)
    → ((j : ℕ) → (p j).now + poll_time ≤ (p (suc j)).now)
    → Ends deadline 0 p
        (wait_until_cleared (suc (suc ((deadline - (p 0).now) / poll_time))) deadline 0 0 p)
wait_until_cleared-Ends deadline p tick =
    wait-Ends (suc ((deadline - (p 0).now) / poll_time)) deadline 0 0 p tick (omega arith)
      (λ k l. absurd (omega (arith, l)))
