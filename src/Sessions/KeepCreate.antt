-- ===== src/Sessions/KeepCreate.antt =====
-- The critical sections of `create` keep the invariant.
use solverr.Base.{
  ℕ, ◌≡◌, refl, ap, ◌⊎◌, inl, inr, Bool, true, false, Option, none, some, List, ◌∷◌, ◌++◌, arith,
  if◌then◌else◌, Option-cases,
}
use solverr.Base.Text.{Text, Text-discrete}
use solverr.Base.Dict.{put, put-IsDistinct, lookup-put_self}
use solverr.Sessions.{Session, find, claim}
use solverr.Sessions.Count.{count, count-middle, count-put, put-IsKeyed, one-le-count}
use solverr.Sessions.Steps.{World, after_find, after_build, after_store}
use solverr.Sessions.Inv.{Inv}

module _ {P X : Type 0} where
  -- The world once the session has one claim more.
  abbrev claimed : Session P X → ℕ → World P X → World P X
  claimed s now w = record w { store = claim s now w.store; held = s ∷ w.held }

  claimed-Inv :
      (id : Text) (s : Session P X) (now : ℕ) (w : World P X)
      → find id w.store ≡ some s
      → Inv w
      → Inv (claimed s now w)
  unfolding claim
  claimed-Inv id s now w e v = record {
    distinct = v.distinct;
    keyed = v.keyed;
    placed = v.placed;
    marked = λ h. ground (arith, v.marked h);
    kept = λ h p. ground (arith, v.kept h, one-le-count h id s w.store.sessions e);
    unborn =
        λ h p. ground (arith, v.unborn h p, v.placed h, one-le-count h id s w.store.sessions e);
  }

  after_find-claimed :
      (id : Text) (s : Session P X) (now : ℕ) (w : World P X)
      → find id w.store ≡ some s
      → after_find id true now w ≡ claimed s now w
  unfolding after_find
  after_find-claimed id s now w e = ground arith

  after_find-same :
      (id : Text) (claims : Bool) (now : ℕ) (w : World P X)
      → ((claims ≡ false) ⊎ (find id w.store ≡ none))
      → after_find id claims now w ≡ w
  unfolding after_find
  after_find-same id claims now w c = ground arith

  pub find-Inv :
      (id : Text) (claims : Bool) (now : ℕ) (w : World P X)
      → Inv w
      → Inv (after_find id claims now w)
  find-Inv id false now w v = rw (after_find-same id false now w (inl refl)) v
  find-Inv id true now w v = elim (Option-cases (find id w.store)) [
    | inl e ↦ rw (after_find-same id true now w (inr e)) v
    | inr (s, e) ↦ rw (after_find-claimed id s now w e) (claimed-Inv id s now w e v)
  ]

  pub build-Inv :
      (id : Text) (x : X) (proxy : Option P) (now : ℕ) (w : World P X)
      → Inv w
      → Inv (after_build id x proxy now w)
  unfolding after_build
  build-Inv id x proxy now w v = record {
    distinct = v.distinct;
    keyed = v.keyed;
    placed = λ h. ground (arith, v.placed h);
    marked = λ h. ground (arith, v.marked h, v.unborn h);
    kept = v.kept;
    unborn = λ h p. v.unborn h (omega arith);
  }

  -- The two ways in which `create` ends, without the claim.
  abbrev won : Session P X → List (Session P X) → World P X → World P X
  won s rest w = record w {
    store = record (w.store) { sessions = put Text-discrete s.session_id s w.store.sessions };
    launching = rest;
  }

  abbrev lost : Session P X → List (Session P X) → World P X → World P X
  lost s rest w = record w { launching = rest; pending = s ∷ w.pending }

  module _ (s : Session P X) (ss ts : List (Session P X)) (w : World P X)
      (l : w.launching ≡ ss ++ s ∷ ts) (v : Inv w) where
    won-Inv : find s.session_id w.store ≡ none → Inv (won s (ss ++ ts) w)
    won-Inv e = record {
      distinct = put-IsDistinct Text-discrete s.session_id s w.store.sessions v.distinct;
      keyed = put-IsKeyed s w.store.sessions e v.keyed;
      placed = λ h. omega (
        arith,
        v.placed h,
        ap (count h) l,
        count-middle h s ss ts,
        count-put h s.session_id s w.store.sessions e,
      );
      marked = v.marked;
      kept = λ h p. omega (arith, v.kept h p, count-put h s.session_id s w.store.sessions e);
      unborn = v.unborn;
    }

    lost-Inv : Inv (lost s (ss ++ ts) w)
    lost-Inv = record {
      distinct = v.distinct;
      keyed = v.keyed;
      placed = λ h. omega (arith, v.placed h, ap (count h) l, count-middle h s ss ts);
      marked = v.marked;
      kept = v.kept;
      unborn = v.unborn;
    }

  after_store-won :
      (s : Session P X) (rest : List (Session P X)) (claims : Bool) (now : ℕ) (w : World P X)
      → find s.session_id w.store ≡ none
      → after_store s rest claims now w
        ≡ (if claims then claimed s now (won s rest w) else won s rest w)
  unfolding after_store
  after_store-won s rest true now w e = ground arith
  after_store-won s rest false now w e = ground arith

  after_store-lost :
      (s race : Session P X) (rest : List (Session P X)) (claims : Bool) (now : ℕ) (w : World P X)
      → find s.session_id w.store ≡ some race
      → after_store s rest claims now w
        ≡ (if claims then claimed race now (lost s rest w) else lost s rest w)
  unfolding after_store
  after_store-lost s race rest true now w e = ground arith
  after_store-lost s race rest false now w e = ground arith

  pub store-Inv :
      (s : Session P X) (ss ts : List (Session P X)) (claims : Bool) (now : ℕ) (w : World P X)
      → w.launching ≡ ss ++ s ∷ ts
      → Inv w
      → Inv (after_store s (ss ++ ts) claims now w)
  store-Inv s ss ts false now w l v = elim (Option-cases (find s.session_id w.store)) [
    | inl e ↦ rw (after_store-won s (ss ++ ts) false now w e) (won-Inv s ss ts w l v e)
    | inr (race, e) ↦ rw (after_store-lost s race (ss ++ ts) false now w e) (lost-Inv s ss ts w l v)
  ]
  store-Inv s ss ts true now w l v = elim (Option-cases (find s.session_id w.store)) [
    | inl e ↦ rw (after_store-won s (ss ++ ts) true now w e) (
        claimed-Inv s.session_id s now _
          (lookup-put_self Text-discrete s.session_id s w.store.sessions) (won-Inv s ss ts w l v e))
    | inr (race, e) ↦
        rw (after_store-lost s race (ss ++ ts) true now w e)
          (claimed-Inv s.session_id race now _ e (lost-Inv s ss ts w l v))
  ]
