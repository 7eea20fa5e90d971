-- ===== src/Sessions/Count.antt =====
-- How often a session stands in a list, by its handle, and what the dictionary's operations do to
-- that number.
use solverr.Base.{
  ℕ, ◌+◌, ◌≤◌, ◌≡◌, refl, ◌≢◌, none, some, List, [], ◌∷◌, ◌++◌, arith, ◌==◌, if◌then◌else◌, All,
}
use solverr.Base.Text.{Text, Text-discrete}
use solverr.Base.Dict.{remove, put, IsDistinct, remove-absent}
use solverr.Sessions.{Session}
use solverr.Sessions.Evict.{values}
use mathlib.Core.List.{lookup}

module _ {P X : Type 0} where
  abbrev pub one : ℕ → Session P X → ℕ
  one h s = if s.handle == h then 1 else 0

  abbrev pub count : ℕ → List (Session P X) → ℕ
  count h [] = 0
  count h (s ∷ ss) = one h s + count h ss

  pub count-append :
      (h : ℕ) (ss ts : List (Session P X)) → count h (ss ++ ts) ≡ count h ss + count h ts
  count-append h [] ts = omega arith
  count-append h (s ∷ ss) ts = omega (arith, count-append h ss ts)

  -- One place of a list taken out.
  pub count-middle :
      (h : ℕ) (s : Session P X) (ss ts : List (Session P X))
      → count h (ss ++ s ∷ ts) ≡ one h s + count h (ss ++ ts)
  count-middle h s ss ts = omega (arith, count-append h ss (s ∷ ts), count-append h ss ts)

  -- Each session stands under its own id.
  abbrev pub IsKeyed : List (Text × Session P X) → Type 0
  IsKeyed [] = Unit
  IsKeyed (e ∷ d) = (e.0 ≡ e.1.session_id) × IsKeyed d

  pub remove-IsKeyed :
      (id : Text) (d : List (Text × Session P X)) → IsKeyed d → IsKeyed (remove Text-discrete id d)
  unfolding remove
  remove-IsKeyed id [] k = tt
  remove-IsKeyed id (e ∷ d) k = ground (arith, remove-IsKeyed id d k.1)

  pub count-put :
      (h : ℕ) (id : Text) (s : Session P X) (d : List (Text × Session P X))
      → lookup Text-discrete id d ≡ none
      → count h (values (put Text-discrete id s d)) ≡ one h s + count h (values d)
  unfolding put lookup
  count-put h id s [] e = refl
  count-put h id s (x ∷ d) e = ground (arith, count-put h id s d)

  pub put-IsKeyed :
      (s : Session P X) (d : List (Text × Session P X))
      → lookup Text-discrete s.session_id d ≡ none
      → IsKeyed d
      → IsKeyed (put Text-discrete s.session_id s d)
  unfolding put lookup
  put-IsKeyed s [] e k = (refl, tt)
  put-IsKeyed s (x ∷ d) e k = ground (arith, put-IsKeyed s d)

  pub count-remove :
      (h : ℕ) (id : Text) (s : Session P X) (d : List (Text × Session P X))
      → IsDistinct Text-discrete d
      → lookup Text-discrete id d ≡ some s
      → one h s + count h (values (remove Text-discrete id d)) ≡ count h (values d)
  unfolding remove lookup
  count-remove h id s [] u e = cc
  count-remove h id s (x ∷ d) u e =
      ground (arith, count-remove h id s d u.1, remove-absent Text-discrete id d)

  pub one-le-count :
      (h : ℕ) (id : Text) (s : Session P X) (d : List (Text × Session P X))
      → lookup Text-discrete id d ≡ some s
      → one h s ≤ count h (values d)
  unfolding lookup
  one-le-count h id s [] e = cc
  one-le-count h id s (x ∷ d) e = ground (arith, one-le-count h id s d)

  -- The sessions are those of the dictionary under their ids, and no id comes twice.
  abbrev pub AreIn : List (Text × Session P X) → List (Session P X) → Type 0
  AreIn d ss = All (λ s. lookup Text-discrete s.session_id d ≡ some s) ss

  abbrev pub AreApart : List (Session P X) → Type 0
  AreApart [] = Unit
  AreApart (s ∷ ss) = All (λ t. s.session_id ≢ t.session_id) ss × AreApart ss
