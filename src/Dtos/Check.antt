-- ===== src/Dtos/Check.antt =====
-- What a request that passed the type check has, and what one that did not is refused for.
use solverr.Base.{
  ℕ, ◌≡◌, refl, ◌⊎◌, inl, inr, Bool, true, false, List, [], ◌∷◌, All, In, Bool-cases, arith,
}
use solverr.Base.Int.{ℤ}
use solverr.Base.Text.{Text, codes}
use solverr.Base.Value.{Value, null, truth, int, decimal, str, arr, obj, Items, nil, cons, Fields}
use solverr.Dtos.{
  Kind, string, whole, boolean, list, object, number, any, has_kind, annotations, get_attr, fine,
  wrong_type, accepts, check_types, are_objects, validate_request_types,
}

-- The values of a declared type.
abbrev pub Shape : Kind → Value → Type 0
Shape string v = (s : Text) × (v ≡ str s)
Shape whole v = (n : ℤ) × (v ≡ int n)
Shape boolean v = (b : Bool) × (v ≡ truth b)
Shape list v = (xs : Items) × (v ≡ arr xs)
Shape object v = (fs : Fields) × (v ≡ obj fs)
Shape number v = ((n : ℤ) × (v ≡ int n)) ⊎ ((m : ℤ) × (e : ℕ) × (v ≡ decimal m e))
Shape any v = Unit

-- A parameter may be absent.
abbrev pub Fits : Kind → Value → Type 0
Fits k v = (v ≡ null) ⊎ Shape k v

-- The items of a list are objects.
abbrev pub AreObjects : Items → Type 0
AreObjects nil = Unit
AreObjects (cons v xs) = ((fs : Fields) × (v ≡ obj fs)) × AreObjects xs

has_kind-Shape : (k : Kind) (v : Value) → has_kind k v ≡ true → Shape k v
unfolding has_kind
has_kind-Shape any v h = tt
has_kind-Shape string (str s) h = (s, refl)
has_kind-Shape whole (int n) h = (n, refl)
has_kind-Shape boolean (truth b) h = (b, refl)
has_kind-Shape list (arr xs) h = (xs, refl)
has_kind-Shape object (obj fs) h = (fs, refl)
has_kind-Shape number (int n) h = inl (n, refl)
has_kind-Shape number (decimal m e) h = inr (m, e, refl)
has_kind-Shape k v h = absurd (ground arith)

Shape-has_kind : (k : Kind) (v : Value) → Shape k v → has_kind k v ≡ true
unfolding has_kind
Shape-has_kind any v h = refl
Shape-has_kind string v (s, e) = rw e
Shape-has_kind whole v (n, e) = rw e
Shape-has_kind boolean v (b, e) = rw e
Shape-has_kind list v (xs, e) = rw e
Shape-has_kind object v (fs, e) = rw e
Shape-has_kind number v (inl (n, e)) = rw e
Shape-has_kind number v (inr (m, e, p)) = rw p

accepts-Fits : (k : Kind) (v : Value) → accepts k v ≡ true → Fits k v
accepts-Fits k null h = inl refl
accepts-Fits k v h = inr (has_kind-Shape k _ h)

Fits-accepts : (k : Kind) (v : Value) → Fits k v → accepts k v ≡ true
Fits-accepts k null h = refl
Fits-accepts k v (inl e) = absurd (ground arith)
Fits-accepts k v (inr h) = Shape-has_kind k _ h

-- Each row that was passed over fits.
check_types-fine :
    (rows : List (Text × Kind)) (req : Fields)
    → check_types rows req ≡ fine
    → All (λ a. Fits a.1 (get_attr req a.0)) rows
unfolding check_types
check_types-fine [] req h = tt
check_types-fine (a ∷ rows) req h = elim (Bool-cases (accepts a.1 (get_attr req a.0))) [
  | inl e ↦ (accepts-Fits a.1 _ e, check_types-fine rows req (ground arith))
  | inr e ↦ absurd (ground arith)
]

check_types-wrong :
    (rows : List (Text × Kind)) (req : Fields) (name : Text) (kind : Kind)
    → check_types rows req ≡ wrong_type name kind
    → In (name, kind) rows × (accepts kind (get_attr req name) ≡ false)
unfolding check_types
check_types-wrong [] req name kind h = absurd (ground arith)
check_types-wrong (a ∷ rows) req name kind h = elim (Bool-cases (accepts a.1 (get_attr req a.0))) [
  | inl e ↦ let (i, r) = check_types-wrong rows req name kind (ground arith) in (inr i, r)
  | inr e ↦ (inl (ground arith), ground arith)
]

are_objects-AreObjects : (xs : Items) → are_objects xs ≡ true → AreObjects xs
unfolding are_objects
are_objects-AreObjects nil h = tt
are_objects-AreObjects (cons (obj fs) xs) h = ((fs, refl), are_objects-AreObjects xs h)
are_objects-AreObjects (cons v xs) h = absurd (ground arith)

-- A request that passes the check has, in every parameter that has a declared type, a value of that
-- type or none, and where it has a list of cookies, each of these is an object; `maxTimeout` and
-- `headers` may hold anything.
pub validate_request_types-fine :
    (req : Fields)
    → validate_request_types req ≡ fine
    → All (λ a. Fits a.1 (get_attr req a.0)) annotations
      × ((xs : Items) → get_attr req (codes "cookies") ≡ arr xs → AreObjects xs)
unfolding validate_request_types
validate_request_types-fine req h = (
  check_types-fine annotations req (ground arith),
  λ xs e. are_objects-AreObjects xs (ground arith),
)

-- A request that is refused for a parameter has a value there that is not of the declared type.
pub validate_request_types-wrong :
    (req : Fields) (name : Text) (kind : Kind)
    → validate_request_types req ≡ wrong_type name kind
    → In (name, kind) annotations × ¬ Fits kind (get_attr req name)
unfolding validate_request_types
validate_request_types-wrong req name kind h =
    let (row, no_fit) = check_types-wrong annotations req name kind (ground arith) in
    (row, λ f. absurd (ground (arith, Fits-accepts kind (get_attr req name) f)))
