-- ===== src/Service/Request/Checks.antt =====
-- flaresolverr_service.py: what a request is like that passed the checks.
use solverr.Base.{
  ℕ, zero, suc, ◌≤◌, ◌≡◌, refl, ap, sym, subst, ◌⊎◌, inl, inr, ◌↔◌, Bool, ◌||◌, true, false, Option,
  none, some, [], ◌∷◌, map, arith, Bool-cases, Option-cases, if◌then◌else◌,
}
use solverr.Base.Int.{ℤ, pos, negsuc, positive}
use solverr.Base.Text.{Text, codes, starts_with}
use solverr.Base.Value.{
  Value, null, truth, int, decimal, str, arr, obj, int_of, parse_int, truncate,
}
use solverr.Service.{chrome, stealth, engine_name, Result, ok, err, timeout_no_number, url_not_http}
use solverr.Service.Request.{
  fold_case, is_http_url, validate_url, clamp, default_timeout, budget_of, validate_max_timeout,
  validate_engine,
}

-- The milliseconds that a request asks for, before the ceiling: nothing, or a number below 1, is the
-- default; what is no number is refused.
abbrev pub asked_for : Value → Option ℕ
asked_for null = some default_timeout
asked_for (truth b) = none
asked_for (int n) = some (budget_of n)
asked_for v = elim (int_of v) [ none ↦ none | some n ↦ some (budget_of n) ]

budget_of-positive : (n : ℤ) → 1 ≤ budget_of n
unfolding budget_of
budget_of-positive (negsuc n) = ground arith
budget_of-positive (pos zero) = ground arith
budget_of-positive (pos (suc n)) = ground arith

-- At most the ceiling, if there is one.
abbrev pub IsUnder : Option ℕ → ℕ → Type 0
IsUnder none v = Unit
IsUnder (some c) v = v ≤ c

clamp-bounds :
    (ceiling : ℤ) (v : ℕ)
    → 1 ≤ v
    → (1 ≤ clamp ceiling v)
      × (clamp ceiling v ≤ v)
      × IsUnder (positive (some ceiling)) (clamp ceiling v)
unfolding clamp
clamp-bounds (negsuc n) v h = ground arith
clamp-bounds (pos zero) v h = ground arith
clamp-bounds (pos (suc n)) v h = ground arith

-- `_validate_max_timeout` refuses exactly what is no number; else the budget is what was asked for,
-- cut down to the ceiling.
pub validate_max_timeout-asked :
    (ceiling : ℤ) (v : Value)
    → validate_max_timeout ceiling v
      ≡ elim (asked_for v) [ none ↦ err timeout_no_number | some n ↦ ok (clamp ceiling n) ]
unfolding validate_max_timeout int_of
validate_max_timeout-asked ceiling null = refl
validate_max_timeout-asked ceiling (truth b) = refl
validate_max_timeout-asked ceiling (int n) = refl
validate_max_timeout-asked ceiling (decimal m e) = ground arith
validate_max_timeout-asked ceiling (str s) = ground arith
validate_max_timeout-asked ceiling (arr xs) = refl
validate_max_timeout-asked ceiling (obj fs) = refl

asked_for-positive : (v : Value) (n : ℕ) → asked_for v ≡ some n → 1 ≤ n
unfolding int_of
asked_for-positive null n h = ground arith
asked_for-positive (truth b) n h = absurd (ground arith)
asked_for-positive (int m) n h = ground (arith, budget_of-positive m)
asked_for-positive (decimal m e) n h = ground (arith, budget_of-positive (truncate m e), h)
asked_for-positive (str t) n h = elim (Option-cases (parse_int t)) [
  | inl e ↦ absurd (ground (arith, e, h))
  | inr (m, e) ↦ ground (arith, e, h, budget_of-positive m)
]
asked_for-positive (arr xs) n h = absurd (ground arith)
asked_for-positive (obj fs) n h = absurd (ground arith)

-- A budget that is accepted is at least a millisecond, and no more than the ceiling if there is one.
pub validate_max_timeout-bounds :
    (ceiling : ℤ) (v : Value) (n : ℕ)
    → validate_max_timeout ceiling v ≡ ok n
    → (1 ≤ n) × IsUnder (positive (some ceiling)) n
validate_max_timeout-bounds ceiling v n h = elim (Option-cases (asked_for v)) [
  | inl e ↦ absurd (ground (arith, h, validate_max_timeout-asked ceiling v, e))
  | inr (m, e) ↦
      let q : n ≡ clamp ceiling m = ground (arith, h, validate_max_timeout-asked ceiling v, e) in
      let b = clamp-bounds ceiling m (asked_for-positive v m e) in (rw q b.0, rw q b.2)
]

-- `_validate_engine` accepts a name, in any case and with blanks around it, only if it is one of
-- `auto` and the two engines or nothing, and returns it tidied.
pub validate_engine-names :
    (name : Option Text) (forced : Text)
    → validate_engine name ≡ ok forced
    → (forced ≡ [])
      ⊎ ((forced ≡ codes "auto") ⊎ ((forced ≡ engine_name chrome) ⊎ (forced ≡ engine_name stealth)))
unfolding validate_engine
validate_engine-names none forced h = ground arith
validate_engine-names (some name) forced h = ground arith

http_prefix :
    (u : Text)
    → (is_http_url u ≡ true) ↔ (
        (starts_with (map fold_case u) (codes "http://") ≡ true)
        ⊎ (starts_with (map fold_case u) (codes "https://") ≡ true))
unfolding is_http_url
http_prefix u =
    or_iff (starts_with (map fold_case u) (codes "http://"))
      (starts_with (map fold_case u) (codes "https://"))
  where
    or_iff : (a b : Bool) → ((a || b) ≡ true) ↔ ((a ≡ true) ⊎ (b ≡ true))
    or_iff true b = ground arith
    or_iff false b = ground arith

empty_url : (is_http_url []) ≡ false
unfolding is_http_url
empty_url = refl

accepted_url :
    (url : Option Text) (u : Text)
    → (validate_url url ≡ ok u) ↔ ((url ≡ some u) × (is_http_url u ≡ true))
unfolding validate_url
accepted_url none u = ground arith
accepted_url (some []) u = ((λ h. absurd (ground arith)), λ h. absurd (nothing u h.0 h.1))
  where
    nothing : (u : Text) → some [] ≡ some u → is_http_url u ≡ true → ⊥
    nothing [] e h = ground (arith, empty_url, h)
    nothing (c ∷ s) e h = ground arith
accepted_url (some (c ∷ s)) u = (
  (λ h. elim (Bool-cases (is_http_url (c ∷ s))) [
    | inr e ↦ absurd (refused (subst (λ b. pick b ≡ ok u) e h))
    | inl e ↦
        let q : c ∷ s ≡ u = same (subst (λ b. pick b ≡ ok u) e h) in
        (ap some q, subst (λ x. is_http_url x ≡ true) q e)
  ]),
  λ h.
      let q : c ∷ s ≡ u = unsome h.0 in
      subst (λ b. pick b ≡ ok u) (sym (subst (λ x. is_http_url x ≡ true) (sym q) h.1)) (ap ok q),
)
  where
    pick : Bool → Result Text
    pick b = if b then ok (c ∷ s) else err url_not_http

    refused : pick false ≡ ok u → ⊥
    refused h = ground arith

    same : {t : Text} → ok t ≡ ok u → t ≡ u
    same h = cc

    unsome : {t : Text} → some t ≡ some u → t ≡ u
    unsome h = cc

-- A URL that is accepted is there, is handed on as it came, and begins with `http://` or
-- `https://`, without regard to case; any other URL is refused.
pub validate_url_iff :
    (url : Option Text) (u : Text)
    → (validate_url url ≡ ok u) ↔ (
        (url ≡ some u)
        × ((starts_with (map fold_case u) (codes "http://") ≡ true)
            ⊎ (starts_with (map fold_case u) (codes "https://") ≡ true)))
validate_url_iff url u = (
  (λ h. let p = (accepted_url url u).0 h in (p.0, (http_prefix u).0 p.1)),
  λ h. (accepted_url url u).1 (h.0, (http_prefix u).1 h.1),
)
