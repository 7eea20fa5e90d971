-- ===== src/Reaper.antt =====
-- session_reaper.py: the thread that closes sessions.
use solverr.Base.{ℕ, Bool, true, false, Option, none, some, List}
use solverr.Base.Int.{ℤ, positive}
use solverr.Base.Text.{Text}
use solverr.Sessions.{Store}
use solverr.Sessions.Evict.{reap_idle, enforce_cap}
use solverr.Service.{State}

-- What the reaper is made with: the lifetime of an idle session, the cap, and the interval.
pub record Reaper : Type 0 where
  pub ttl : Option ℤ
  pub max_sessions : Option ℤ
  pub interval : ℤ

-- `start`: an interval of 0 or less starts no thread.
unfoldable pub starts : Reaper → Bool
starts r = elim (positive (some r.interval)) [ none ↦ false | some _ ↦ true ]

-- `_describe_ttl` and `_describe_cap`: the limit that is in force, if one is.
unfoldable pub ttl_in_force : Reaper → Option ℕ
ttl_in_force r = positive r.ttl

unfoldable pub cap_in_force : Reaper → Option ℕ
cap_in_force r = positive r.max_sessions

module _ {P X : Type 0} where
  -- One pool's turn of the loop in `_run`: what was reaped and what was evicted.
  unfoldable pub sweep_pool : Reaper → ℕ → Store P X → Store P X × List Text × List Text
  unfolding reap_idle enforce_cap
  sweep_pool r now st =
      let (reaped, ids) = reap_idle r.ttl now st in
      let (capped, more) = enforce_cap r.max_sessions reaped in (capped, ids, more)

module _ {P X Y : Type 0} where
  -- One pass of `_run` over both managers, at the times that each is swept.
  unfoldable pub sweep : Reaper → ℕ → ℕ → State P X Y → State P X Y
  unfolding sweep_pool
  sweep r now later st = elim st.stealth_pool [
    | none ↦ record st { chrome_pool = (sweep_pool r now st.chrome_pool).0 }
    | some pool ↦ record st {
      chrome_pool = (sweep_pool r now st.chrome_pool).0;
      stealth_pool = some (sweep_pool r later pool).0;
    }
  ]
