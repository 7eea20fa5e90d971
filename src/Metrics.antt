-- ===== src/Metrics.antt =====
-- bottle_plugins/prometheus_plugin.py: the labels of the metrics.
use solverr.Base.{
  ℕ, ◌≤◌, ◌≡◌, refl, ◌⊎◌, inl, inr, Bool, true, false, Option, none, some, List, [], ◌∷◌, leb,
  if◌then◌else◌, length, arith, All,
}
use solverr.Base.Text.{Text, codes, text_eq, starts_with}
use solverr.Base.Url.{hostname}

abbrev pub max_domain_labels : ℕ
max_domain_labels = 100

abbrev pub other_domain : Text
other_domain = codes "other"

abbrev pub unknown_domain : Text
unknown_domain = codes "unknown"

-- `hostname in _seen_domains`
unfoldable pub has_seen : Text → List Text → Bool
has_seen h [] = false
has_seen h (x ∷ xs) = if text_eq h x then true else has_seen h xs

-- The label for a host name, under the lock.
unfoldable pub label_host : Text → List Text → Text × List Text
unfolding has_seen
label_host h seen =
    if has_seen h seen
    then (h, seen)
    else (if leb max_domain_labels (length seen) then (other_domain, seen) else (h, h ∷ seen))

-- `parse_domain_url`: the label, and the domains seen.
unfoldable pub parse_domain_url : Option Text → List Text → Text × List Text
unfolding hostname label_host
parse_domain_url none seen = (unknown_domain, seen)
parse_domain_url (some []) seen = (unknown_domain, seen)
parse_domain_url (some (c ∷ url)) seen = elim (hostname (c ∷ url)) [
  | none ↦ (unknown_domain, seen)
  | some [] ↦ (unknown_domain, seen)
  | some (d ∷ h) ↦ label_host (d ∷ h) seen
]

-- The result label of an answer's message.
unfoldable pub result_label : Text → Text
result_label message =
    if text_eq message (codes "Challenge solved!")
    then codes "solved"
    else (if text_eq message (codes "Challenge not detected!")
        then codes "not_detected"
        else (if starts_with message (codes "Error") then codes "error" else codes "unknown"))

-- A number of URLs, one after the other: their labels, and the domains seen.
abbrev pub label_all : List (Option Text) → List Text → List Text × List Text
label_all [] seen = ([], seen)
label_all (u ∷ us) seen =
    let r = parse_domain_url u seen in let rest = label_all us r.1 in (r.0 ∷ rest.0, rest.1)

-- A label that was given is one of the two fixed ones or a domain that is kept.
abbrev pub IsLabel : List Text → Text → Type 0
IsLabel seen l = (l ≡ unknown_domain) ⊎ ((l ≡ other_domain) ⊎ (has_seen l seen ≡ true))

label-keeps :
    (x : Text) (seen : List Text) (h : Text)
    → has_seen h seen ≡ true
    → has_seen h (label_host x seen).1 ≡ true
unfolding label_host has_seen
label-keeps x seen h e = ground arith

has_seen_self : (h : Text) (seen : List Text) → has_seen h (h ∷ seen) ≡ true
unfolding has_seen
has_seen_self h seen = ground arith

label_host-bounds :
    (h : Text) (seen : List Text)
    → length seen ≤ max_domain_labels
    → (length (label_host h seen).1 ≤ max_domain_labels)
      × IsLabel (label_host h seen).1 (label_host h seen).0
unfolding label_host
label_host-bounds h seen e = ground (arith, has_seen_self h seen)

-- What `parse_domain_url` does for a host name or none.
abbrev label_of : Option Text → List Text → Text × List Text
label_of none seen = (unknown_domain, seen)
label_of (some []) seen = (unknown_domain, seen)
label_of (some (d ∷ h)) seen = label_host (d ∷ h) seen

abbrev name_of : Option Text → Option Text
name_of none = none
name_of (some []) = none
name_of (some (c ∷ url)) = hostname (c ∷ url)

parse-label_of :
    (u : Option Text) (seen : List Text) → parse_domain_url u seen ≡ label_of (name_of u) seen
unfolding parse_domain_url
parse-label_of none seen = refl
parse-label_of (some []) seen = refl
parse-label_of (some (c ∷ url)) seen = go (hostname (c ∷ url))
  where
    go :
        (o : Option Text)
        → elim o [
          | none ↦ (unknown_domain, seen)
          | some [] ↦ (unknown_domain, seen)
          | some (d ∷ h) ↦ label_host (d ∷ h) seen
        ]
          ≡ label_of o seen
    go none = refl
    go (some []) = refl
    go (some (d ∷ h)) = refl

label_of-keeps :
    (o : Option Text) (seen : List Text) (h : Text)
    → has_seen h seen ≡ true
    → has_seen h (label_of o seen).1 ≡ true
label_of-keeps none seen h e = e
label_of-keeps (some []) seen h e = e
label_of-keeps (some (d ∷ x)) seen h e = label-keeps (d ∷ x) seen h e

label_of-bounds :
    (o : Option Text) (seen : List Text)
    → length seen ≤ max_domain_labels
    → (length (label_of o seen).1 ≤ max_domain_labels)
      × IsLabel (label_of o seen).1 (label_of o seen).0
label_of-bounds none seen e = (e, inl refl)
label_of-bounds (some []) seen e = (e, inl refl)
label_of-bounds (some (d ∷ x)) seen e = label_host-bounds (d ∷ x) seen e

IsLabel-label_all :
    (us : List (Option Text)) (seen : List Text) (l : Text)
    → IsLabel seen l
    → IsLabel (label_all us seen).1 l
IsLabel-label_all [] seen l h = h
IsLabel-label_all (u ∷ us) seen l (inl p) = inl p
IsLabel-label_all (u ∷ us) seen l (inr (inl p)) = inr (inl p)
IsLabel-label_all (u ∷ us) seen l (inr (inr p)) =
    IsLabel-label_all us (parse_domain_url u seen).1 l
      (inr (inr (rw (parse-label_of u seen) (label_of-keeps (name_of u) seen l p))))

-- However many URLs are asked for, at most 100 domains are kept, and each label that was given is
-- one of them or `unknown` or `other`: there are at most 102 labels.
pub label_all-bounds :
    (us : List (Option Text)) (seen : List Text)
    → length seen ≤ max_domain_labels
    → (length (label_all us seen).1 ≤ max_domain_labels)
      × All (IsLabel (label_all us seen).1) (label_all us seen).0
label_all-bounds [] seen h = (h, tt)
label_all-bounds (u ∷ us) seen h =
    let b : (length (parse_domain_url u seen).1 ≤ max_domain_labels)
        × IsLabel (parse_domain_url u seen).1 (parse_domain_url u seen).0 =
      rw (parse-label_of u seen) (label_of-bounds (name_of u) seen h) in
    let rest = label_all-bounds us (parse_domain_url u seen).1 b.0 in
    (
      rest.0,
      (IsLabel-label_all us (parse_domain_url u seen).1 (parse_domain_url u seen).0 b.1, rest.1),
    )
