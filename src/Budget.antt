-- ===== src/Budget.antt =====
-- budget.py: how an engine's share of the time is divided. Times are microseconds.
use solverr.Base.{ℕ, ◌+◌, ◌-◌, ◌≤◌, ◌≡◌, ◌⊎◌, max, arith}

-- `SOLVE_MARGIN_SECONDS`
abbrev pub solve_margin : ℕ
solve_margin = 3_000_000

abbrev pub one_second : ℕ
one_second = 1_000_000

unfoldable pub solve_deadline : ℕ → ℕ → ℕ
solve_deadline started timeout = started + max one_second (timeout - solve_margin)

-- `now` is the reading of the clock.
unfoldable pub remaining_share : ℕ → ℕ → ℕ → ℕ
remaining_share started timeout now = max one_second (timeout - (now - started))

-- An engine that was handed a share at `started` and is done launching at `now`, with a second of the
-- share left at least, solves for a second or longer and stops within the share; it stops exactly the
-- margin before the share is over, unless that would leave it less than a second to solve.
pub solve_deadline-share :
    (started timeout now : ℕ)
    → started ≤ now
    → now + one_second ≤ started + timeout
    → (let stop = solve_deadline now (remaining_share started timeout now) in
        (now + one_second ≤ stop)
        × (stop ≤ started + timeout)
        × ((stop + solve_margin ≡ started + timeout) ⊎ (stop ≡ now + one_second)))
unfolding solve_deadline remaining_share
solve_deadline-share started timeout now h p = ground (arith, h, p)
