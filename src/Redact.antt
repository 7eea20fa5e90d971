-- ===== src/Redact.antt =====
-- redact.py: the log's copy of a form.
pub mod Alike
pub mod Body
pub mod Logged
mod Message
pub mod Passwords
pub mod Secrecy
mod Tests
pub mod Url
use solverr.Base.{
  ℕ, ◌≡◌, refl, ap, sym, subst, ◌∙◌, Option, none, some, List, [], ◌∷◌, ◌++◌, map, if◌then◌else◌,
  arith, ◌==◌, All, Bool-cases, inl, inr,
}
use solverr.Base.Text.{Text, codes, cut, split, Lacks, Lacks-append, cut-append}

abbrev pub redacted : Text
redacted = codes "<redacted>"

-- `c.join(parts)`
unfoldable pub join : ℕ → List Text → Text
join c [] = []
join c (p ∷ []) = p
join c (p ∷ q ∷ ps) = p ++ c ∷ join c (q ∷ ps)

-- A pair with its value replaced; a pair without `=` is left as it is.
unfoldable pub redact_pair : Text → Text
unfolding cut
redact_pair pair = elim (cut b'=' pair).1 [
  | none ↦ pair
  | some value ↦ (cut b'=' pair).0 ++ b'=' ∷ redacted
]

-- `form`
unfoldable pub form : Text → Text
unfolding join redact_pair split
form [] = []
form (c ∷ value) = join b'&' (map redact_pair (split b'&' (c ∷ value)))

cut-Lacks : (c e : ℕ) (s : Text) → Lacks c s → Lacks c (cut e s).0
unfolding cut
cut-Lacks c e [] h = tt
cut-Lacks c e (d ∷ s) h = ground (arith, cut-Lacks c e s h.1, h)

redacted-Lacks : Lacks b'&' (b'=' ∷ redacted)
redacted-Lacks = ground arith

redact_pair-Lacks : (p : Text) → Lacks b'&' p → Lacks b'&' (redact_pair p)
unfolding redact_pair
redact_pair-Lacks p h = go (cut b'=' p).1
  where
    go :
        (o : Option Text)
        → Lacks b'&' (elim o [ none ↦ p | some value ↦ (cut b'=' p).0 ++ b'=' ∷ redacted ])
    go none = h
    go (some value) =
        Lacks-append b'&' (cut b'=' p).0 (b'=' ∷ redacted) (cut-Lacks b'&' b'=' p h) redacted-Lacks

split-Lacks : (c : ℕ) (s : Text) → All (Lacks c) (split c s)
unfolding split
split-Lacks c [] = (tt, tt)
split-Lacks c (d ∷ s) = go (split c s) (split-Lacks c s)
  where
    go :
        (r : List Text)
        → All (Lacks c) r
        → All
            (Lacks c)
            (if d == c then [] ∷ r else (elim r [ [] ↦ (d ∷ []) ∷ [] | p ∷ ps ↦ (d ∷ p) ∷ ps ]))
    go [] h = ground arith
    go (p ∷ ps) h = ground arith

-- A text without `c` is split off in front of a `c`.
split-append : (c : ℕ) (s t : Text) → Lacks c s → split c (s ++ c ∷ t) ≡ s ∷ split c t
unfolding split
split-append c [] t h = ground arith
split-append c (d ∷ s) t h = ground (arith, split-append c s t h.1, h.0)

split-Lacks_all : (c : ℕ) (s : Text) → Lacks c s → split c s ≡ s ∷ []
unfolding split
split-Lacks_all c [] h = refl
split-Lacks_all c (d ∷ s) h = ground (arith, split-Lacks_all c s h.1, h.0)

split-join :
    (c : ℕ) (p : Text) (ps : List Text)
    → All (Lacks c) (p ∷ ps)
    → split c (join c (p ∷ ps)) ≡ p ∷ ps
unfolding join
split-join c p [] h = split-Lacks_all c p h.0
split-join c p (q ∷ ps) h =
    split-append c p (join c (q ∷ ps)) h.0 ∙ ap (λ r. p ∷ r) (split-join c q ps h.1)

split-cons : (c : ℕ) (s : Text) → (p : Text) × (ps : List Text) × (split c s ≡ p ∷ ps)
unfolding split
split-cons c [] = ([], [], refl)
split-cons c (d ∷ s) = go (split c s)
  where
    go :
        (r : List Text)
        → (p : Text) × (ps : List Text) × ((if d == c
              then [] ∷ r
              else (elim r [ [] ↦ (d ∷ []) ∷ [] | p ∷ ps ↦ (d ∷ p) ∷ ps ]))
            ≡ p ∷ ps)
    go [] = elim (Bool-cases (d == c)) [
      | inl e ↦ ([], [], rw e refl)
      | inr e ↦ (d ∷ [], [], rw e refl)
    ]
    go (p ∷ ps) = elim (Bool-cases (d == c)) [
      | inl e ↦ ([], p ∷ ps, rw e refl)
      | inr e ↦ (d ∷ p, ps, rw e refl)
    ]

All-redact : (ps : List Text) → All (Lacks b'&') ps → All (Lacks b'&') (map redact_pair ps)
All-redact [] h = tt
All-redact (p ∷ ps) h = (redact_pair-Lacks p h.0, All-redact ps h.1)

cut-Lacks_self : (e : ℕ) (s : Text) → Lacks e (cut e s).0
unfolding cut
cut-Lacks_self e [] = tt
cut-Lacks_self e (d ∷ s) = ground (arith, cut-Lacks_self e s)

-- A field's name, and whether it has a value, with the value replaced.
abbrev pub masked : Text × Option Text → Text × Option Text
masked (name, none) = (name, none)
masked (name, some value) = (name, some redacted)

cut-redact_pair : (p : Text) → cut b'=' (redact_pair p) ≡ masked (cut b'=' p)
unfolding redact_pair
cut-redact_pair p = go (cut b'=' p) refl
  where
    go :
        (r : Text × Option Text)
        → cut b'=' p ≡ r
        → cut b'=' (elim r.1 [ none ↦ p | some value ↦ r.0 ++ b'=' ∷ redacted ]) ≡ masked r
    go (name, none) e = e
    go (name, some value) e =
        cut-append b'=' name redacted (subst (λ r. Lacks b'=' r.0) e (cut-Lacks_self b'=' p))

map-redact :
    (ps : List Text) → map (cut b'=') (map redact_pair ps) ≡ map (λ p. masked (cut b'=' p)) ps
map-redact [] = refl
map-redact (p ∷ ps) = cc (cut-redact_pair p, map-redact ps)

form-split :
    (c : ℕ) (value : Text)
    → split b'&' (form (c ∷ value)) ≡ map redact_pair (split b'&' (c ∷ value))
unfolding form
form-split c value =
    let (p, ps, e) = split-cons b'&' (c ∷ value) in
    let l : All (Lacks b'&') (p ∷ ps) =
      subst (λ r. All (Lacks b'&') r) e (split-Lacks b'&' (c ∷ value)) in
    subst (λ r. split b'&' (join b'&' (map redact_pair r)) ≡ map redact_pair r) (sym e)
      (split-join b'&' (redact_pair p) (map redact_pair ps) (All-redact (p ∷ ps) l))

-- The log's copy of a form has the fields of the form in their order, each with its name; every value
-- is replaced, and a field without one gets none.
pub form-masked :
    (value : Text)
    → map (cut b'=') (split b'&' (form value)) ≡ map (λ p. masked (cut b'=' p)) (split b'&' value)
unfolding form
form-masked [] = refl
form-masked (c ∷ value) =
    ap (map (cut b'=')) (form-split c value) ∙ map-redact (split b'&' (c ∷ value))
