-- ===== src/Sessions/Inv.antt =====
-- What holds of a store however the critical sections of its threads are interleaved.
use solverr.Base.{ℕ, ◌+◌, ◌≤◌, ◌<◌, ◌≡◌, List, [], ◌∷◌, ltb, ◌==◌, if◌then◌else◌}
use solverr.Base.Text.{Text-discrete}
use solverr.Base.Dict.{IsDistinct}
use solverr.Sessions.Count.{count, IsKeyed}
use solverr.Sessions.Evict.{values}
use solverr.Sessions.Steps.{World}

-- How often a handle occurs in the list of torn down ones.
abbrev pub closings : ℕ → List ℕ → ℕ
closings h [] = 0
closings h (c ∷ cs) = (if c == h then 1 else 0) + closings h cs

-- The handle of a session that was ever built.
abbrev pub born : ℕ → ℕ → ℕ
born h n = if ltb h n then 1 else 0

module _ {P X : Type 0} where
  -- Every browser that was ever built is in one place: on its way into the dictionary, in it,
  -- waiting for its teardown, or torn down.
  abbrev pub places : ℕ → World P X → ℕ
  places h w =
      count h w.launching
      + count h (values w.store.sessions)
      + count h w.pending
      + closings h w.store.closed

  pub record Inv (w : World P X) : Type 0 where
    pub distinct : IsDistinct Text-discrete w.store.sessions
    pub keyed : IsKeyed w.store.sessions
    pub placed : (h : ℕ) → places h w ≡ born h w.store.next_handle
    pub marked : (h : ℕ) → w.store.in_use h ≡ count h w.held + count h w.renewed
    pub kept :
        (h : ℕ) → 0 < count h w.held → 0 < count h (values w.store.sessions) + count h w.dropped
    pub unborn :
        (h : ℕ)
        → w.store.next_handle ≤ h
        → count h w.held + count h w.renewed + count h w.dropped ≡ 0
