-- ===== src/Engines/Turnstile.antt =====
-- The Chrome engine's presses of a checkbox come to an end, and what their answer rests on.
use solverr.Base.{ℕ, zero, suc, ◌+◌, ◌-◌, ◌≤◌, ◌<◌, ◌≡◌, ◌⊎◌, Option, none, some, ◌≢◌}
use solverr.Base.Text.{Text}
use solverr.Engines.Pressing.{Pass}
use solverr.Engines.{Call, returned, timed_out, raised}

-- How long the pass before this one took, from the reading at its start; there is none before the first.
abbrev pub length_before : (ℕ → Pass) → ℕ → ℕ
length_before p zero = 0
length_before p (suc i) = (p i).ended - (p i).started

-- There is time for this pass, if it takes as long as the one before.
abbrev pub HasTime : ℕ → (ℕ → Pass) → ℕ → Type 0
HasTime deadline p i = (p i).now + length_before p i < deadline

-- There is no token, or the one that the widget had at the start.
abbrev pub IsOld : Option Text → Option Text → Type 0
IsOld current t = (t ≡ none) ⊎ (t ≡ current)

-- The pass was made to its end, and read no new token.
abbrev pub IsFruitless : Option Text → Pass → Type 0
IsFruitless current p =
    (p.click_verify ≡ returned tt)
    × ((t : Option Text) × (p.token ≡ returned t) × IsOld current t)
    × (p.reset_focus ≡ returned tt)

-- A call of the pass came to this exception.
abbrev pub TimesOut : Pass → Type 0
TimesOut p = (p.click_verify ≡ timed_out) ⊎ ((p.token ≡ timed_out) ⊎ (p.reset_focus ≡ timed_out))

abbrev pub Raises : Text → Pass → Type 0
Raises e p = (p.click_verify ≡ raised e) ⊎ ((p.token ≡ raised e) ⊎ (p.reset_focus ≡ raised e))

-- What an answer means of the pass that it comes from, or that was not begun.
abbrev pub Means : Option Text → ℕ → (ℕ → Pass) → ℕ → Call (Option Text) → Type 0
Means current deadline p j (returned (some t)) =
    HasTime deadline p j × ((p j).token ≡ returned (some t)) × (some t ≢ current)
Means current deadline p j (returned none) = deadline ≤ (p j).now + length_before p j
Means current deadline p j timed_out = HasTime deadline p j × TimesOut (p j)
Means current deadline p j (raised e) = HasTime deadline p j × Raises e (p j)

-- Every pass before this one had its time, and read no new token.
abbrev pub FruitlessBefore : Option Text → ℕ → (ℕ → Pass) → ℕ → Type 0
FruitlessBefore current deadline p j =
    (k : ℕ) → k < j → HasTime deadline p k × IsFruitless current (p k)

abbrev pub Ends : Option Text → ℕ → (ℕ → Pass) → Option (Call (Option Text)) → Type 0
Ends current deadline p r =
    (answer : Call (Option Text)) × (j : ℕ) × (r ≡ some answer)
    × Means current deadline p j answer
    × FruitlessBefore current deadline p j

-- A pass ends the loop with a new token, or with an exception.
abbrev AnswerMeans : Option Text → Pass → Option (Call (Option Text)) → Type 0
AnswerMeans current p none = IsFruitless current p
AnswerMeans current p (some (returned none)) = ⊥
AnswerMeans current p (some (returned (some t))) =
    (p.token ≡ returned (some t)) × (some t ≢ current)
AnswerMeans current p (some timed_out) = TimesOut p
AnswerMeans current p (some (raised e)) = Raises e p
