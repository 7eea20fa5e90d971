-- ===== src/Base/Dict.antt =====
-- Python's `dict` and `OrderedDict` as lists of pairs in insertion order, and the eviction loop
-- that bounds such a dictionary.
use Prim.Native.Nat.{ℕ, ◌<◌, suc, ◌-◌, ◌≤◌, ◌<◌}
use mathlib.Core.List.{List, [], ◌∷◌, ◌++◌, map, lookup}
use mathlib.Core.Logic.{inl, inr, ite}
use mathlib.Core.Option.{none, some}
use mathlib.Core.Path.{◌≡◌, refl, ap}
use native.Mathlib.Omega.{arith}
use solverr.Base.Lists.{length, drop, length-drop}
use solverr.Base.Tests.{ltb, Bool-cases, if◌then◌else◌}

module _ {ℓ} {K V : Type ℓ} where
  abbrev pub keys : List (K × V) → List K
  keys = map (λ e. e.0)

  -- `while len(d) > bound: d.popitem(last=False)`.
  unfoldable pub evict : ℕ → List (K × V) → List (K × V)
  evict bound [] = []
  evict bound (e ∷ d) = if ltb bound (length (e ∷ d)) then evict bound d else e ∷ d

  pub evict-drop : (bound : ℕ) (d : List (K × V)) → evict bound d ≡ drop (length d - bound) d
  unfolding evict
  evict-drop bound [] = ground arith
  evict-drop bound (e ∷ d) = elim (Bool-cases (ltb bound (suc (length d)))) [
    | inl over ↦
        let p : suc (length d) - bound ≡ suc (length d - bound) = ground arith in
        rw (over, p) (evict-drop bound d)
    | inr fits ↦ let p : suc (length d) - bound ≡ 0 = ground arith in rw (fits, p)
  ]

  pub length-evict : (bound : ℕ) (d : List (K × V)) → length (evict bound d) ≤ bound
  length-evict bound d =
      omega (arith, ap length (evict-drop bound d), length-drop (length d - bound) d)

module _ {ℓ} {K V : Type ℓ} (dec : Discrete K) where
  -- `d.pop(k, None)`, where the value is not used.
  unfoldable pub remove : K → List (K × V) → List (K × V)
  remove k [] = []
  remove k (e ∷ d) = let rest = remove k d in ite (dec k e.0) rest (e ∷ rest)

  -- `d[k] = v`: in place for a key that is there, else at the end.
  unfoldable pub put : K → V → List (K × V) → List (K × V)
  put k v [] = (k, v) ∷ []
  put k v (e ∷ d) = ite (dec k e.0) ((k, v) ∷ d) (e ∷ put k v d)

  -- `d.pop(k, None); d[k] = v; while len(d) > bound: d.popitem(last=False)`.
  unfoldable pub remember : ℕ → K → V → List (K × V) → List (K × V)
  unfolding evict put remove
  remember bound k v d = evict bound (put k v (remove k d))

  -- `d.move_to_end(k)`, for a key that is there.
  unfoldable pub move_to_end : K → List (K × V) → List (K × V)
  unfolding remove
  move_to_end k d = elim (lookup dec k d) [ none ↦ d | some v ↦ remove k d ++ (k, v) ∷ [] ]

  -- No key twice: each entry's key is missing behind it.
  abbrev pub IsDistinct : List (K × V) → Type ℓ
  IsDistinct [] = Unit
  IsDistinct (e ∷ d) = (lookup dec e.0 d ≡ none) × IsDistinct d

  pub lookup-remove :
      (k j : K) (d : List (K × V)) → lookup dec j (remove k d) ≡ ite (dec k j) none (lookup dec j d)
  unfolding lookup remove
  lookup-remove k j [] = ground arith
  lookup-remove k j (e ∷ d) = ground (arith, lookup-remove k j d)

  pub lookup-put :
      (k j : K) (v : V) (d : List (K × V))
      → lookup dec j (put k v d) ≡ ite (dec k j) (some v) (lookup dec j d)
  unfolding lookup put
  lookup-put k j v [] = ground arith
  lookup-put k j v (e ∷ d) = ground (arith, lookup-put k j v d)

  pub lookup-put_self : (k : K) (v : V) (d : List (K × V)) → lookup dec k (put k v d) ≡ some v
  lookup-put_self k v d = ground (arith, lookup-put k k v d)

  pub put-absent :
      (k : K) (v : V) (d : List (K × V)) → lookup dec k d ≡ none → put k v d ≡ d ++ (k, v) ∷ []
  unfolding lookup put
  put-absent k v [] h = refl
  put-absent k v (e ∷ d) h = ground (arith, put-absent k v d)

  pub remove-absent : (k : K) (d : List (K × V)) → lookup dec k d ≡ none → remove k d ≡ d
  unfolding lookup remove
  remove-absent k [] h = refl
  remove-absent k (e ∷ d) h = ground (arith, remove-absent k d)

  pub remove-IsDistinct : (k : K) (d : List (K × V)) → IsDistinct d → IsDistinct (remove k d)
  unfolding remove
  remove-IsDistinct k [] h = tt
  remove-IsDistinct k (e ∷ d) h = ground (arith, lookup-remove k e.0 d, remove-IsDistinct k d h.1)

  pub put-IsDistinct : (k : K) (v : V) (d : List (K × V)) → IsDistinct d → IsDistinct (put k v d)
  unfolding put lookup
  put-IsDistinct k v [] h = (refl, tt)
  put-IsDistinct k v (e ∷ d) h = ground (arith, lookup-put k e.0 v d, put-IsDistinct k v d h.1)

  lookup-evict-none :
      (bound : ℕ) (k : K) (d : List (K × V))
      → lookup dec k d ≡ none
      → lookup dec k (evict bound d) ≡ none
  unfolding lookup evict
  lookup-evict-none bound k [] h = refl
  lookup-evict-none bound k (e ∷ d) h = ground (arith, lookup-evict-none bound k d)

  pub evict-IsDistinct : (bound : ℕ) (d : List (K × V)) → IsDistinct d → IsDistinct (evict bound d)
  unfolding evict
  evict-IsDistinct bound [] h = tt
  evict-IsDistinct bound (e ∷ d) h = ground (arith, evict-IsDistinct bound d h.1)

  remove-gone : (k : K) (d : List (K × V)) → lookup dec k (remove k d) ≡ none
  remove-gone k d = ground (arith, lookup-remove k k d)

  lookup-append_last :
      (k : K) (v : V) (d : List (K × V))
      → lookup dec k d ≡ none
      → lookup dec k (d ++ (k, v) ∷ []) ≡ some v
  unfolding lookup
  lookup-append_last k v [] e = ground arith
  lookup-append_last k v (x ∷ d) e = ground (arith, lookup-append_last k v d)

  -- `remember` on a dictionary where the key is missing once it is popped.
  pub remember-evict :
      (bound : ℕ) (k : K) (v : V) (d : List (K × V))
      → remember bound k v d ≡ evict bound (remove k d ++ (k, v) ∷ [])
  unfolding remember
  remember-evict bound k v d = ap (evict bound) (put-absent k v (remove k d) (remove-gone k d))

  -- The entry that was set last is among those that stay, if any do.
  lookup-evict_last :
      (bound : ℕ) (k : K) (v : V) (d : List (K × V))
      → 0 < bound
      → lookup dec k d ≡ none
      → lookup dec k (evict bound (d ++ (k, v) ∷ [])) ≡ some v
  unfolding lookup evict
  lookup-evict_last bound k v [] p e = ground arith
  lookup-evict_last bound k v (x ∷ d) p e =
      ground (arith, lookup-evict_last bound k v d p, lookup-append_last k v d)

  pub lookup-remember :
      (bound : ℕ) (k : K) (v : V) (d : List (K × V))
      → 0 < bound
      → lookup dec k (remember bound k v d) ≡ some v
  lookup-remember bound k v d p =
      rw (remember-evict bound k v d) (lookup-evict_last bound k v (remove k d) p (remove-gone k d))
