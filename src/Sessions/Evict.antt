-- ===== src/Sessions/Evict.antt =====
-- sessions.py: `reap_idle` and `enforce_cap`. Each is one critical section that takes sessions
-- out of the dictionary, and the teardowns behind it.
use solverr.Base.{
  ℕ, ◌-◌, Bool, ◌&&◌, Option, none, some, List, [], ◌∷◌, map, ltb, leb, ◌==◌, if◌then◌else◌, length,
  take, keep,
}
use solverr.Base.Int.{ℤ, positive}
use solverr.Base.Text.{Text, Text-discrete}
use solverr.Base.Dict.{remove}
use solverr.Sessions.{Session, Store, idle, teardown_all}

module _ {P X : Type 0} where
  abbrev pub values : List (Text × Session P X) → List (Session P X)
  values = map (λ e. e.1)

  abbrev pub ids_of : List (Session P X) → List Text
  ids_of = map (λ s. s.session_id)

  -- `for s in ss: self.sessions.pop(s.session_id, None)`
  unfoldable pub remove_all :
      List (Session P X) → List (Text × Session P X) → List (Text × Session P X)
  remove_all [] d = d
  remove_all (s ∷ ss) d = remove_all ss (remove Text-discrete s.session_id d)

  unfoldable pub is_stale : ℕ → ℕ → Store P X → Session P X → Bool
  unfolding idle
  is_stale ttl now st s = ltb ttl (idle st s now) && st.in_use s.handle == 0

  -- The critical section of `reap_idle`: the sessions that were idle for too long and are not in
  -- use. A dictionary's key is its session's id, so popping by key pops these.
  unfoldable pub take_stale : ℕ → ℕ → Store P X → Store P X × List (Session P X)
  unfolding is_stale remove_all
  take_stale ttl now st =
      let stale = keep (is_stale ttl now st) (values st.sessions) in
      (record st { sessions = remove_all stale st.sessions }, stale)

  unfoldable pub reap_idle : Option ℤ → ℕ → Store P X → Store P X × List Text
  unfolding take_stale teardown_all
  reap_idle ttl now st = elim (positive ttl) [
    | none ↦ (st, [])
    | some t ↦ let (st', popped) = take_stale t now st in (teardown_all popped st', ids_of popped)
  ]

  -- `sorted(..., key=lambda s: s.last_used)`, which is stable.
  unfoldable pub insert_by :
      (Session P X → ℕ) → Session P X → List (Session P X) → List (Session P X)
  insert_by key s [] = s ∷ []
  insert_by key s (t ∷ ts) =
      let rest = insert_by key s ts in if leb (key s) (key t) then s ∷ t ∷ ts else t ∷ rest

  unfoldable pub sort_by : (Session P X → ℕ) → List (Session P X) → List (Session P X)
  unfolding insert_by
  sort_by key [] = []
  sort_by key (s ∷ ss) = insert_by key s (sort_by key ss)

  -- The critical section of `enforce_cap`: the longest idle of the sessions that are not in use.
  unfoldable pub take_excess : ℕ → Store P X → Store P X × List (Session P X)
  unfolding sort_by remove_all
  take_excess most st =
      let ordered =
        sort_by (λ s. st.last_used s.handle)
          (keep (λ s. st.in_use s.handle == 0) (values st.sessions)) in
      let to_remove = take (length st.sessions - most) ordered in
      if leb (length st.sessions) most
      then (st, [])
      else (record st { sessions = remove_all to_remove st.sessions }, to_remove)

  unfoldable pub enforce_cap : Option ℤ → Store P X → Store P X × List Text
  unfolding take_excess teardown_all
  enforce_cap max_sessions st = elim (positive max_sessions) [
    | none ↦ (st, [])
    | some most ↦
        let (st', to_remove) = take_excess most st in (teardown_all to_remove st', ids_of to_remove)
  ]
