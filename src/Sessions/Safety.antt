-- ===== src/Sessions/Safety.antt =====
-- What holds of a store however the critical sections of its threads are interleaved.
use solverr.Base.{ℕ, ◌+◌, ◌<◌, ◌≡◌, refl, arith}
use solverr.Sessions.{Session}
use solverr.Sessions.Count.{count}
use solverr.Sessions.Evict.{values}
use solverr.Sessions.Inv.{born, closings, Inv}
use solverr.Sessions.KeepCreate.{find-Inv, build-Inv, store-Inv}
use solverr.Sessions.KeepRest.{
  expire-Inv, end_use-Inv, discard-Inv, reap-Inv, cap-Inv, teardown-Inv,
}
use solverr.Sessions.Steps.{
  World, start, Step, finds, builds, stores, expires, ends, discards, reaps, caps, closes, Reach,
  here, next,
}

module _ {P X : Type 0} where
  Step-Inv : {w v : World P X} → Step w v → Inv w → Inv v
  Step-Inv (finds id claims now) i = find-Inv id claims now _ i
  Step-Inv (builds id x proxy now) i = build-Inv id x proxy now _ i
  Step-Inv (stores s ss ts claims now l) i = store-Inv s ss ts claims now _ l i
  Step-Inv (expires s ss ts ttl fresh now l e) i = expire-Inv s ss ts ttl fresh now _ l e i
  Step-Inv (ends s ss ts now l) i = end_use-Inv s ss ts now _ l i
  Step-Inv (discards id) i = discard-Inv id _ i
  Step-Inv (reaps ttl now) i = reap-Inv ttl now _ i
  Step-Inv (caps most) i = cap-Inv most _ i
  Step-Inv (closes s ss ts l) i = teardown-Inv s ss ts _ l i

  start-Inv : Inv {P = P} {X = X} start
  unfolding start
  start-Inv = record {
    distinct = tt;
    keyed = tt;
    placed = λ h. ground arith;
    marked = λ h. refl;
    kept = λ h p. absurd (omega arith);
    unborn = λ h p. refl;
  }

  Reach-Inv : {w v : World P X} → Inv w → Reach w v → Inv v
  Reach-Inv i here = i
  Reach-Inv i (next r s) = Step-Inv s (Reach-Inv i r)

  -- In every world that the threads bring about, where no `discard` comes between a claim and the
  -- look at the session's age behind it, a session with an outstanding claim that no `discard` has
  -- taken out is in the dictionary, and it is neither torn down nor waiting for it: the reaper, the
  -- cap, an expiry and a lost race leave it alone.
  pub claimed_survives :
      (w : World P X) (s : Session P X)
      → Reach start w
      → 0 < count s.handle w.held
      → count s.handle w.dropped ≡ 0
      → (0 < count s.handle (values w.store.sessions))
        × (count s.handle w.pending ≡ 0)
        × (closings s.handle w.store.closed ≡ 0)
  claimed_survives w s r held kept =
      let i = Reach-Inv start-Inv r in
      let p = i.placed s.handle in let q = i.kept s.handle held in ground (arith, p, q)

  -- In every world that the threads bring about, where no `discard` comes between a claim and the
  -- look at the session's age behind it, each session that was ever built is in exactly one of four places: on its
  -- way into the dictionary, in it, waiting for its teardown, or torn down, there once. No other
  -- handle is in any of them.
  pub one_place :
      (w : World P X) (h : ℕ)
      → Reach start w
      → count h w.launching
          + count h (values w.store.sessions)
          + count h w.pending
          + closings h w.store.closed
        ≡ born h w.store.next_handle
  one_place w h r = (Reach-Inv start-Inv r).placed h

  -- In every world that the threads bring about, where no `discard` comes between a claim and the
  -- look at the session's age behind it, the `in_use` of a session is the number of its outstanding claims, and of
  -- those with which it was closed for its age by its only holder.
  pub in_use-count :
      (w : World P X) (h : ℕ)
      → Reach start w
      → w.store.in_use h ≡ count h w.held + count h w.renewed
  in_use-count w h r = (Reach-Inv start-Inv r).marked h
