-- ===== src/Passthrough/Route.antt =====
-- passthrough.py: which hosts are fetched.
use solverr.Base.{
  ℕ, ◌≤◌, ◌≡◌, refl, ◌++◌, ◌||◌, ◌==◌, Option, none, if◌then◌else◌, true, false, some, List, [],
  ◌∷◌, arith, Bool-cases, Option-cases, inl, inr, ◌⊎◌, In,
}
use solverr.Base.Text.{Text, codes, cut}
use solverr.Passthrough.{
  Settings, cut_host, tidy_host, with_slash, without_first, target, is_asset, split_host, is_one_of,
  default_host, route, cache_ttl_for, earns_full_ttl,
}

one_of-In : (hs : List Text) (h : Text) → is_one_of hs h ≡ true → In h hs
unfolding is_one_of
one_of-In [] h e = absurd (ground arith)
one_of-In (x ∷ xs) h e = ground (arith, one_of-In xs h)

default-In : (hs : List Text) (h : Text) → default_host hs ≡ some h → In h hs
unfolding default_host
default-In [] h e = absurd (ground arith)
default-In (x ∷ xs) h e = inl (ground arith)

-- The rest of a target begins with a slash.
abbrev pub IsPath : Text → Type 0
IsPath remainder = (rest : Text) × (remainder ≡ b'/' ∷ rest)

cut_host-IsPath : (body : Text) → IsPath (cut_host body).1
unfolding cut_host
cut_host-IsPath body = go (cut b'/' body).1
  where
    go :
        (o : Option Text)
        → let r : Text × Text = elim o [
          | some rest ↦ ((cut b'/' body).0, b'/' ∷ rest)
          | none ↦ (
            (cut b'?' body).0,
            b'/' ∷ elim (cut b'?' body).1 [ some query ↦ b'?' ∷ query | none ↦ [] ],
          )
        ] in
          IsPath r.1
    go (some rest) = (rest, refl)
    go none = (_, refl)

with_slash-IsPath : (s : Text) → IsPath (with_slash s)
with_slash-IsPath [] = ([], refl)
with_slash-IsPath (c ∷ s) = elim (Bool-cases (c == b'/')) [
  | inl e ↦ rw e (s, ground (arith, e))
  | inr e ↦ rw e (c ∷ s, refl)
]

tidy_host-IsPath : (q p : Text × Text) → tidy_host q ≡ some p → IsPath q.1 → IsPath p.1
unfolding tidy_host
tidy_host-IsPath q p h k = ground (arith, h, k)

split_host-IsPath : (raw : Text) (p : Text × Text) → split_host raw ≡ some p → IsPath p.1
unfolding split_host
split_host-IsPath raw p h = go (without_first b'/' raw) h
  where
    go :
        (t : Text)
        → (elim t [
          | [] ↦ none
          | c ∷ body ↦ if c == b'?' || c == b'#' then none else tidy_host (cut_host (c ∷ body))
        ])
          ≡ some p
        → IsPath p.1
    go [] e = absurd (ground (arith, e))
    go (c ∷ body) e = elim (Bool-cases (c == b'?' || c == b'#')) [
      | inl b ↦ absurd (ground (arith, e, b))
      | inr b ↦
          tidy_host-IsPath (cut_host (c ∷ body)) p (ground (arith, e, b))
            (cut_host-IsPath (c ∷ body))
    ]

-- Whatever path a client asks for, an asset's path is not led anywhere, and the URL that is fetched is
-- `https://`, one of the allowed hosts as it stands in the settings, and a slash with the rest behind
-- it, so that no other host is asked.
pub route-In :
    (s : Settings) (raw : Text) (host remainder : Text)
    → route s raw ≡ some (host, remainder)
    → (is_asset raw ≡ false)
      × In host s.allowed_hosts
      × (rest : Text) × (target (host, remainder) ≡ codes "https://" ++ host ++ (b'/' ∷ rest))
unfolding route target
route-In s raw host remainder h = elim (Bool-cases (is_asset raw)) [
  | inl e ↦ absurd (ground arith)
  | inr e ↦ elim (Option-cases (split_host raw)) [
    | inl f ↦ absurd (ground arith)
    | inr (p, f) ↦ elim (Bool-cases (is_one_of s.allowed_hosts p.0)) [
      | inl g ↦
          let q : host ≡ p.0 = ground arith in
          let k : remainder ≡ p.1 = ground arith in
          let (rest, t) = split_host-IsPath raw p f in
          (e, rw q (one_of-In s.allowed_hosts p.0 g), rest, cc (k, t))
      | inr g ↦ elim (Option-cases (default_host s.allowed_hosts)) [
        | inl d ↦ absurd (ground arith)
        | inr (x, d) ↦
            let q : host ≡ x = ground arith in
            let k : remainder ≡ with_slash raw = ground arith in
            let (rest, t) = with_slash-IsPath raw in
            (e, rw q (default-In s.allowed_hosts x d), rest, cc (k, t))
      ]
    ]
  ]
]

-- A page is kept for no longer than the setting says, and for the whole of it if it earns that.
pub cache_ttl_for-bounds :
    (requires : Text) (ttl : ℕ) (body content_type : Text)
    → (cache_ttl_for requires ttl body content_type ≤ ttl)
      × ((cache_ttl_for requires ttl body content_type ≡ ttl)
          ⊎ ((earns_full_ttl requires body content_type ≡ false)
              × (cache_ttl_for requires ttl body content_type ≤ 60)))
unfolding cache_ttl_for
cache_ttl_for-bounds requires ttl body content_type = ground arith
