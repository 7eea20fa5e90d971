-- ===== src/Passthrough/Hits.antt =====
-- passthrough.py: owners counted, and what holds of all of them.
use solverr.Base.{ℕ, ◌+◌, ◌≡◌, refl, ◌≢◌, List, [], ◌∷◌, arith, ◌==◌, if◌then◌else◌, ite, All}
use solverr.Base.Text.{Text, Text-discrete}
use solverr.Passthrough.Handle.{Answer}
use solverr.Passthrough.Slots.{Owner, Insert, here, there}

-- How many owners, weighed by `f`.
abbrev pub hits : (Owner → ℕ) → List Owner → ℕ
hits f [] = 0
hits f (o ∷ os) = f o + hits f os

abbrev pub on_path : Text → Owner → ℕ
on_path raw o = ite (Text-discrete raw o.path) 1 0

abbrev pub on_slot : ℕ → Owner → ℕ
on_slot h o = if o.slot == h then 1 else 0

abbrev pub sent_hits : ℕ → List (ℕ × Answer) → ℕ
sent_hits h [] = 0
sent_hits h (e ∷ es) = (if e.0 == h then 1 else 0) + sent_hits h es

pub hits-Insert :
    (f : Owner → ℕ) (o : Owner) (os ps : List Owner) → Insert o os ps → hits f ps ≡ f o + hits f os
hits-Insert f o os ps here = refl
hits-Insert f o os ps (there {x} i) = omega (arith, hits-Insert f o _ _ i)

pub All-Insert :
    (P : Owner → Type 0) (o : Owner) (os ps : List Owner)
    → Insert o os ps
    → All P ps
    → P o × All P os
All-Insert P o os ps here a = a
All-Insert P o os ps (there i) a = let r = All-Insert P o _ _ i a.1 in (r.0, (a.0, r.1))

-- A predicate that changes only where `f` counts.
pub All-off :
    {P Q : Owner → Type 0} (f : Owner → ℕ) (os : List Owner)
    → ((o : Owner) → f o ≡ 0 → P o → Q o)
    → hits f os ≡ 0
    → All P os
    → All Q os
All-off f [] g z a = tt
All-off f (o ∷ os) g z a = (g o (omega (arith, z)) a.0, All-off f os g (omega (arith, z)) a.1)

pub All-map :
    {P Q : Owner → Type 0} (os : List Owner) → ((o : Owner) → P o → Q o) → All P os → All Q os
All-map [] g a = tt
All-map (o ∷ os) g a = (g o a.0, All-map os g a.1)

pub All-sent :
    {P Q : ℕ × Answer → Type 0} (h : ℕ) (es : List (ℕ × Answer))
    → ((e : ℕ × Answer) → e.0 ≢ h → P e → Q e)
    → sent_hits h es ≡ 0
    → All P es
    → All Q es
All-sent h [] g z a = tt
All-sent h (e ∷ es) g z a = (g e (ground (arith, z)) a.0, All-sent h es g (ground (arith, z)) a.1)
