-- ===== src/Sessions/Batch.antt =====
-- What the reaper and the cap take out of the dictionary: distinct sessions of it that nobody uses.
use solverr.Base.{
  ℕ, zero, suc, ◌+◌, ◌<◌, ◌≡◌, refl, sym, ◌≢◌, inl, inr, Bool, true, none, List, [], ◌∷◌, arith,
  leb, take, keep, All, Bool-cases,
}
use solverr.Base.Text.{Text, Text-discrete}
use solverr.Base.Dict.{remove, IsDistinct, lookup-remove, remove-IsDistinct}
use solverr.Sessions.{Session}
use solverr.Sessions.Count.{count, IsKeyed, remove-IsKeyed, count-remove, AreIn, AreApart}
use solverr.Sessions.Evict.{values, remove_all, insert_by, sort_by}
use mathlib.Core.List.{lookup}

module _ {P X : Type 0} where
  AreIn-remove :
      (id : Text) (d : List (Text × Session P X)) (ss : List (Session P X))
      → All (λ t. id ≢ t.session_id) ss
      → AreIn d ss
      → AreIn (remove Text-discrete id d) ss
  AreIn-remove id d [] a b = tt
  AreIn-remove id d (s ∷ ss) a b =
      ground (arith, lookup-remove Text-discrete id s.session_id d, AreIn-remove id d ss a.1 b.1)

  -- Taking them out moves each to the list of what was taken.
  pub count-remove_all :
      (h : ℕ) (ss : List (Session P X)) (d : List (Text × Session P X))
      → IsDistinct Text-discrete d
      → AreIn d ss
      → AreApart ss
      → count h ss + count h (values (remove_all ss d)) ≡ count h (values d)
  unfolding remove_all
  count-remove_all h [] d u b a = omega arith
  count-remove_all h (s ∷ ss) d u b a = omega (
    arith,
    count-remove h s.session_id s d u b.0,
    count-remove_all h ss (remove Text-discrete s.session_id d)
        (remove-IsDistinct Text-discrete s.session_id d u) (AreIn-remove s.session_id d ss a.0 b.1)
        a.1,
  )

  pub remove_all-IsDistinct :
      (ss : List (Session P X)) (d : List (Text × Session P X))
      → IsDistinct Text-discrete d
      → IsDistinct Text-discrete (remove_all ss d)
  unfolding remove_all
  remove_all-IsDistinct [] d u = u
  remove_all-IsDistinct (s ∷ ss) d u =
      remove_all-IsDistinct ss _ (remove-IsDistinct Text-discrete s.session_id d u)

  pub remove_all-IsKeyed :
      (ss : List (Session P X)) (d : List (Text × Session P X))
      → IsKeyed d
      → IsKeyed (remove_all ss d)
  unfolding remove_all
  remove_all-IsKeyed [] d k = k
  remove_all-IsKeyed (s ∷ ss) d k = remove_all-IsKeyed ss _ (remove-IsKeyed s.session_id d k)

  -- Sublists and orders of such a list.
  module _ {κ} (Q : Session P X → Type κ) where
    All-insert_by :
        (key : Session P X → ℕ) (s : Session P X) (ss : List (Session P X))
        → Q s
        → All Q ss
        → All Q (insert_by key s ss)
    unfolding insert_by
    All-insert_by key s [] q a = (q, a)
    All-insert_by key s (t ∷ ts) q a = elim (Bool-cases (leb (key s) (key t))) [
      | inl e ↦ rw e (q, a)
      | inr e ↦ rw e (a.0, All-insert_by key s ts q a.1)
    ]

    pub All-sort_by :
        (key : Session P X → ℕ) (ss : List (Session P X)) → All Q ss → All Q (sort_by key ss)
    unfolding sort_by
    All-sort_by key [] a = a
    All-sort_by key (s ∷ ss) a = All-insert_by key s (sort_by key ss) a.0 (All-sort_by key ss a.1)

    pub All-take : (n : ℕ) (ss : List (Session P X)) → All Q ss → All Q (take n ss)
    All-take zero ss a = tt
    All-take (suc n) [] a = tt
    All-take (suc n) (s ∷ ss) a = (a.0, All-take n ss a.1)

    pub All-keep : (p : Session P X → Bool) (ss : List (Session P X)) → All Q ss → All Q (keep p ss)
    All-keep p [] a = tt
    All-keep p (s ∷ ss) a = elim (Bool-cases (p s)) [
      | inl e ↦ rw e (a.0, All-keep p ss a.1)
      | inr e ↦ rw e (All-keep p ss a.1)
    ]

    pub All-keep_by :
        (p : Session P X → Bool) (ss : List (Session P X))
        → ((s : Session P X) → p s ≡ true → Q s)
        → All Q (keep p ss)
    All-keep_by p [] f = tt
    All-keep_by p (s ∷ ss) f = elim (Bool-cases (p s)) [
      | inl e ↦ rw e (f s e, All-keep_by p ss f)
      | inr e ↦ rw e (All-keep_by p ss f)
    ]

  AreApart-insert_by :
      (key : Session P X → ℕ) (s : Session P X) (ss : List (Session P X))
      → All (λ t. s.session_id ≢ t.session_id) ss
      → AreApart ss
      → AreApart (insert_by key s ss)
  unfolding insert_by
  AreApart-insert_by key s [] q a = (tt, tt)
  AreApart-insert_by key s (t ∷ ts) q a = elim (Bool-cases (leb (key s) (key t))) [
    | inl e ↦ rw e (q, a)
    | inr e ↦ rw e (
      All-insert_by (λ u. t.session_id ≢ u.session_id) key s ts (λ p. q.0 (sym p)) a.0,
      AreApart-insert_by key s ts q.1 a.1,
    )
  ]

  pub AreApart-sort_by :
      (key : Session P X → ℕ) (ss : List (Session P X)) → AreApart ss → AreApart (sort_by key ss)
  unfolding sort_by
  AreApart-sort_by key [] a = a
  AreApart-sort_by key (s ∷ ss) a =
      AreApart-insert_by key s (sort_by key ss) (All-sort_by _ key ss a.0)
        (AreApart-sort_by key ss a.1)

  pub AreApart-take : (n : ℕ) (ss : List (Session P X)) → AreApart ss → AreApart (take n ss)
  AreApart-take zero ss a = tt
  AreApart-take (suc n) [] a = tt
  AreApart-take (suc n) (s ∷ ss) a = (All-take _ n ss a.0, AreApart-take n ss a.1)

  pub AreApart-keep :
      (p : Session P X → Bool) (ss : List (Session P X)) → AreApart ss → AreApart (keep p ss)
  AreApart-keep p [] a = tt
  AreApart-keep p (s ∷ ss) a = elim (Bool-cases (p s)) [
    | inl e ↦ rw e (All-keep _ p ss a.0, AreApart-keep p ss a.1)
    | inr e ↦ rw e (AreApart-keep p ss a.1)
  ]

  -- The whole dictionary is such a list.
  missing-apart :
      (id : Text) (d : List (Text × Session P X))
      → IsKeyed d
      → lookup Text-discrete id d ≡ none
      → All (λ t. id ≢ t.session_id) (values d)
  unfolding lookup
  missing-apart id [] k e = tt
  missing-apart id (x ∷ d) k e = (λ p. ground arith, missing-apart id d k.1 (ground arith))

  pub AreApart-values :
      (d : List (Text × Session P X)) → IsKeyed d → IsDistinct Text-discrete d → AreApart (values d)
  AreApart-values [] k u = tt
  AreApart-values (x ∷ d) k u =
      (rw (← k.0) (missing-apart x.0 d k.1 u.0), AreApart-values d k.1 u.1)

  AreIn-cons :
      (x : Text × Session P X) (d : List (Text × Session P X)) (ss : List (Session P X))
      → All (λ t. x.0 ≢ t.session_id) ss
      → AreIn d ss
      → AreIn (x ∷ d) ss
  unfolding lookup
  AreIn-cons x d [] a b = tt
  AreIn-cons x d (s ∷ ss) a b = ground (arith, AreIn-cons x d ss a.1 b.1)

  pub AreIn-values :
      (d : List (Text × Session P X)) → IsKeyed d → IsDistinct Text-discrete d → AreIn d (values d)
  unfolding lookup
  AreIn-values [] k u = tt
  AreIn-values (x ∷ d) k u = (
    ground arith,
    AreIn-cons x d (values d) (missing-apart x.0 d k.1 u.0) (AreIn-values d k.1 u.1),
  )

  -- A session that is in use is not in a list of sessions that are not.
  pub count_idle :
      (uses : ℕ → ℕ) (h : ℕ) (ss : List (Session P X))
      → All (λ s. uses s.handle ≡ 0) ss
      → 0 < uses h
      → count h ss ≡ 0
  count_idle uses h [] a p = refl
  count_idle uses h (s ∷ ss) a p = ground (arith, count_idle uses h ss a.1)
