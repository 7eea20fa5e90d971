-- ===== src/Sessions/KeepRest.antt =====
-- The other critical sections keep the invariant.
use solverr.Base.{
  ℕ, ◌+◌, ◌-◌, ◌≡◌, refl, ap, ◌⊎◌, inl, inr, Bool, Option, none, some, List, [], ◌∷◌, ◌++◌, arith,
  leb, ◌==◌, length, take, keep, All, Bool-cases, Option-cases,
}
use solverr.Base.Text.{Text, Text-discrete}
use solverr.Base.Dict.{remove, IsDistinct, remove-IsDistinct, remove-absent}
use mathlib.Core.List.{lookup}
use solverr.Sessions.{Session, find}
use solverr.Sessions.Count.{
  one, count, count-append, count-middle, IsKeyed, remove-IsKeyed, count-remove, AreIn, AreApart,
}
use solverr.Sessions.Batch.{
  count-remove_all, remove_all-IsDistinct, remove_all-IsKeyed, All-sort_by, All-take, All-keep,
  All-keep_by, AreApart-sort_by, AreApart-take, AreApart-keep, AreApart-values, AreIn-values,
  count_idle,
}
use solverr.Sessions.Evict.{values, remove_all, is_stale, sort_by}
use solverr.Sessions.Steps.{
  World, after_expire, after_end_use, after_discard, after_reap, after_cap, after_teardown,
}
use solverr.Sessions.Inv.{Inv}

module _ {P X : Type 0} where
  -- A session taken out of the dictionary under its id.
  module _ (s : Session P X) (w : World P X) (e : find s.session_id w.store ≡ some s)
      (v : Inv w) where
    out-IsDistinct : IsDistinct Text-discrete (remove Text-discrete s.session_id w.store.sessions)
    out-IsDistinct = remove-IsDistinct Text-discrete s.session_id w.store.sessions v.distinct

    out-count :
        (h : ℕ)
        → one h s + count h (values (remove Text-discrete s.session_id w.store.sessions))
          ≡ count h (values w.store.sessions)
    out-count h = count-remove h s.session_id s w.store.sessions v.distinct e

  abbrev renewing : Session P X → List (Session P X) → World P X → World P X
  renewing s rest w = record w {
    store = record (w.store) { sessions = remove Text-discrete s.session_id w.store.sessions };
    held = rest;
    pending = s ∷ w.pending;
    renewed = s ∷ w.renewed;
  }

  after_expire_cases :
      (s : Session P X) (rest : List (Session P X)) (ttl : Option ℕ) (fresh : Bool) (now : ℕ)
      (w : World P X)
      → (after_expire s rest ttl fresh now w ≡ w)
        ⊎ ((w.store.in_use s.handle ≡ 1)
            × (after_expire s rest ttl fresh now w ≡ renewing s rest w))
  unfolding after_expire
  after_expire_cases s rest none fresh now w = inl refl
  after_expire_cases s rest (some t) fresh now w = ground arith

  pub expire-Inv :
      (s : Session P X) (ss ts : List (Session P X)) (ttl : Option ℕ) (fresh : Bool) (now : ℕ)
      (w : World P X)
      → w.held ≡ ss ++ s ∷ ts
      → find s.session_id w.store ≡ some s
      → Inv w
      → Inv (after_expire s (ss ++ ts) ttl fresh now w)
  expire-Inv s ss ts ttl fresh now w l e v =
      elim (after_expire_cases s (ss ++ ts) ttl fresh now w) [
        | inl same ↦ rw same v
        | inr (last, same) ↦ rw same (record {
          distinct = out-IsDistinct s w e v;
          keyed = remove-IsKeyed s.session_id w.store.sessions v.keyed;
          placed = λ h. omega (arith, v.placed h, out-count s w e v h);
          marked = λ h. omega (arith, v.marked h, ap (count h) l, count-middle h s ss ts);
          kept = λ h p. ground (
            arith,
            v.kept h,
            v.marked h,
            ap (count h) l,
            count-middle h s ss ts,
            out-count s w e v h,
          );
          unborn = λ h p. omega (arith, v.unborn h p, ap (count h) l, count-middle h s ss ts);
        })
      ]

  pub end_use-Inv :
      (s : Session P X) (ss ts : List (Session P X)) (now : ℕ) (w : World P X)
      → w.held ≡ ss ++ s ∷ ts
      → Inv w
      → Inv (after_end_use s (ss ++ ts) now w)
  unfolding after_end_use
  end_use-Inv s ss ts now w l v = record {
    distinct = v.distinct;
    keyed = v.keyed;
    placed = v.placed;
    marked = λ h. ground (arith, v.marked h, ap (count h) l, count-middle h s ss ts);
    kept = λ h p. ground (arith, v.kept h, ap (count h) l, count-middle h s ss ts);
    unborn = λ h p. ground (arith, v.unborn h p, ap (count h) l, count-middle h s ss ts);
  }

  abbrev dropping : Session P X → World P X → World P X
  dropping s w = record w {
    store = record (w.store) { sessions = remove Text-discrete s.session_id w.store.sessions };
    pending = s ∷ w.pending;
    dropped = s ∷ w.dropped;
  }

  id-found :
      (id : Text) (s : Session P X) (d : List (Text × Session P X))
      → IsKeyed d
      → lookup Text-discrete id d ≡ some s
      → id ≡ s.session_id
  unfolding lookup
  id-found id s [] k e = cc
  id-found id s (x ∷ d) k e = ground (arith, id-found id s d k.1)

  after_discard_cases :
      (id : Text) (w : World P X)
      → Inv w
      → (after_discard id w ≡ w)
        ⊎ ((s : Session P X) × (find s.session_id w.store ≡ some s)
            × (after_discard id w ≡ dropping s w))
  unfolding after_discard
  after_discard_cases id w v = elim (Option-cases (find id w.store)) [
    | inl e ↦ inl (ground (arith, remove-absent Text-discrete id w.store.sessions e))
    | inr (s, e) ↦
        let p = id-found id s w.store.sessions v.keyed e in inr (s, ground arith, ground arith)
  ]

  pub discard-Inv : (id : Text) (w : World P X) → Inv w → Inv (after_discard id w)
  discard-Inv id w v = elim (after_discard_cases id w v) [
    | inl same ↦ rw same v
    | inr (s, e, same) ↦ rw same (record {
      distinct = out-IsDistinct s w e v;
      keyed = remove-IsKeyed s.session_id w.store.sessions v.keyed;
      placed = λ h. omega (arith, v.placed h, out-count s w e v h);
      marked = v.marked;
      kept = λ h p. omega (arith, v.kept h p, out-count s w e v h);
      unborn = λ h p. ground (arith, v.unborn h p, v.placed h, out-count s w e v h);
    })
  ]

  -- What the reaper and the cap take out.
  abbrev evicting : List (Session P X) → World P X → World P X
  evicting ss w = record w {
    store = record (w.store) { sessions = remove_all ss w.store.sessions };
    pending = ss ++ w.pending;
  }

  evicting-Inv :
      (ss : List (Session P X)) (w : World P X)
      → AreIn w.store.sessions ss
      → AreApart ss
      → All (λ s. w.store.in_use s.handle ≡ 0) ss
      → Inv w
      → Inv (evicting ss w)
  evicting-Inv ss w b a i v = record {
    distinct = remove_all-IsDistinct ss w.store.sessions v.distinct;
    keyed = remove_all-IsKeyed ss w.store.sessions v.keyed;
    placed = λ h. omega (
      arith,
      v.placed h,
      count-append h ss w.pending,
      count-remove_all h ss w.store.sessions v.distinct b a,
    );
    marked = v.marked;
    kept = λ h p. omega (
      arith,
      v.kept h p,
      v.marked h,
      count_idle w.store.in_use h ss i,
      count-remove_all h ss w.store.sessions v.distinct b a,
    );
    unborn = v.unborn;
  }

  pub reap-Inv : (ttl now : ℕ) (w : World P X) → Inv w → Inv (after_reap ttl now w)
  unfolding after_reap is_stale
  reap-Inv ttl now w v =
      evicting-Inv _ w
        (All-keep _ _ (values w.store.sessions) (AreIn-values w.store.sessions v.keyed v.distinct))
        (AreApart-keep _ (values w.store.sessions)
          (AreApart-values w.store.sessions v.keyed v.distinct))
        (All-keep_by _ _ (values w.store.sessions) (λ s p. ground arith)) v

  after_cap_cases :
      (most : ℕ) (w : World P X)
      → (after_cap most w ≡ w)
        ⊎ (after_cap most w
            ≡ evicting
                (take (length w.store.sessions - most) (
                  sort_by
                    (λ s. w.store.last_used s.handle)
                    (keep (λ s. w.store.in_use s.handle == 0) (values w.store.sessions))))
                w)
  unfolding after_cap
  after_cap_cases most w = elim (Bool-cases (leb (length w.store.sessions) most)) [
    | inl few ↦ inl (rw few)
    | inr many ↦ inr (rw many)
  ]

  pub cap-Inv : (most : ℕ) (w : World P X) → Inv w → Inv (after_cap most w)
  cap-Inv most w v = elim (after_cap_cases most w) [
    | inl same ↦ rw same v
    | inr same ↦ rw same (
        evicting-Inv _ w
          (All-take _ _ _ (
            All-sort_by _ _ _ (
              All-keep _ _ (values w.store.sessions)
                (AreIn-values w.store.sessions v.keyed v.distinct))))
          (AreApart-take _ _ (
            AreApart-sort_by _ _ (
              AreApart-keep _ (values w.store.sessions)
                (AreApart-values w.store.sessions v.keyed v.distinct))))
          (All-take _ _ _
            (All-sort_by _ _ _ (All-keep_by _ _ (values w.store.sessions) (λ s p. ground arith))))
          v)
  ]

  pub teardown-Inv :
      (s : Session P X) (ss ts : List (Session P X)) (w : World P X)
      → w.pending ≡ ss ++ s ∷ ts
      → Inv w
      → Inv (after_teardown s (ss ++ ts) w)
  unfolding after_teardown
  teardown-Inv s ss ts w l v = record {
    distinct = v.distinct;
    keyed = v.keyed;
    placed = λ h. omega (arith, v.placed h, ap (count h) l, count-middle h s ss ts);
    marked = v.marked;
    kept = v.kept;
    unborn = v.unborn;
  }
