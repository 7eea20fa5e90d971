-- ===== src/Browser/Server.antt =====
-- The proxy's address on Chrome's command line, which other programs can read.
use solverr.Base.{
  ℕ, ◌≡◌, refl, ap, ◌⊎◌, inl, inr, Bool, true, false, ◌&&◌, Option, none, some, [], ◌∷◌, ◌++◌,
  arith, ℕ_discrete, if◌then◌else◌, Bool-cases, ◌==◌,
}
use solverr.Base.Text.{Text, codes, Lacks, Lacks-append, cut, lower, lower_code}
use solverr.Base.Value.{Fields, obj, attr, null}
use solverr.Base.Url.{behind_last, all_scheme, is_scheme_code, is_letter, clean}
use solverr.Base.Split.{Parts, urlsplit, hostport, split_scheme}
use solverr.Browser.Extension.{Machine, create_proxy_extension}
use solverr.Browser.Launch.{
  Route, route, is_authenticated, text_of, extension_route, parsed_server, bare_server,
  server_argument,
}
use solverr.Browser.Run.{Run, then_run, read, return}

behind_last-Lacks :
    (c : ℕ) (best s : Text) → (Lacks c s → Lacks c best) → Lacks c (behind_last c best s)
unfolding behind_last
behind_last-Lacks c best [] h = h tt
behind_last-Lacks c best (d ∷ s) h = elim (ℕ_discrete d c) [
  | yes e ↦
      let p : (d == c) ≡ true = ground arith in
      rw (p, behind_last) (behind_last-Lacks c s s (λ l. l))
  | no n ↦
      let p : (d == c) ≡ false = ground arith in
      rw (p, behind_last) (behind_last-Lacks c best s (λ l. h (n, l)))
]

all_scheme-Lacks : (s : Text) → all_scheme s ≡ true → Lacks b'@' (lower s)
unfolding all_scheme is_scheme_code is_letter lower lower_code
all_scheme-Lacks [] h = tt
all_scheme-Lacks (c ∷ s) h = ground (arith, all_scheme-Lacks s)

split_scheme-Lacks : (s : Text) → Lacks b'@' (split_scheme s).0
unfolding split_scheme
split_scheme-Lacks [] = tt
split_scheme-Lacks (c ∷ s) = go (cut b':' (c ∷ s))
  where
    go :
        (p : Text × Option Text)
        → let r : Text × Text = elim p.1 [
          | none ↦ ([], c ∷ s)
          | some r ↦ if is_letter c && all_scheme p.0 then (lower p.0, r) else ([], c ∷ s)
        ] in
          Lacks b'@' r.0
    go (t, none) = tt
    go (t, some r) = elim (Bool-cases (is_letter c && all_scheme t)) [
      | inl e ↦ rw e (all_scheme-Lacks t (ground arith))
      | inr e ↦ rw e tt
    ]

urlsplit-Lacks :
    (refuses : Text → Bool) (url : Text) (p : Parts)
    → urlsplit refuses url ≡ some p
    → Lacks b'@' p.scheme
unfolding urlsplit
urlsplit-Lacks refuses url p h = let l = split_scheme-Lacks (clean url) in ground (arith, h)

bare_server-Lacks : (p : Parts) → Lacks b'@' p.scheme → Lacks b'@' (bare_server p)
unfolding bare_server
bare_server-Lacks p h = Lacks-append b'@' p.scheme (codes "://" ++ hostport p.netloc) h (
    Lacks-append b'@' (codes "://") (hostport p.netloc) (ground arith)
      (behind_last-Lacks b'@' p.netloc p.netloc (λ l. l)))

-- What stands behind a `c` of the text.
abbrev pub IsBehind : ℕ → Text → Text → Type 0
IsBehind c s t = (front : Text) × (s ≡ front ++ c ∷ t)

behind_last-IsBehind :
    (c : ℕ) (best s : Text) (P : Text → Type 0)
    → P best
    → ((t : Text) → IsBehind c s t → P t)
    → P (behind_last c best s)
unfolding behind_last
behind_last-IsBehind c best [] P p h = p
behind_last-IsBehind c best (d ∷ s) P p h =
    let later : (t : Text) → IsBehind c s t → P t =
      λ t (front, e). h t (d ∷ front, ap (λ r. d ∷ r) e) in
    elim (ℕ_discrete d c) [
      | yes e ↦
          let q : (d == c) ≡ true = ground arith in
          rw (q, behind_last) (behind_last-IsBehind c s s P (h s ([], ap (λ x. x ∷ s) e)) later)
      | no n ↦
          let q : (d == c) ≡ false = ground arith in
          rw (q, behind_last) (behind_last-IsBehind c best s P p later)
    ]

-- The host and the port of a netloc: all that stands behind its last `@`, or all of it without one.
abbrev pub IsHost : Text → Text → Type 0
IsHost netloc host = Lacks b'@' host × ((netloc ≡ host) ⊎ IsBehind b'@' netloc host)

hostport-IsHost : (netloc : Text) → IsHost netloc (hostport netloc)
hostport-IsHost netloc = (
  behind_last-Lacks b'@' netloc netloc (λ l. l),
  behind_last-IsBehind b'@' netloc netloc (λ t. (netloc ≡ t) ⊎ IsBehind b'@' netloc t) (inl refl)
      (λ t b. inr b),
)

-- The scheme and the host of the URL, and no more.
abbrev pub IsBare : (Text → Bool) → Text → Text → Type 0
IsBare refuses url server =
    (p : Parts) × (host : Text) × (urlsplit refuses url ≡ some p)
    × IsHost p.netloc host
    × (server ≡ p.scheme ++ (codes "://" ++ host))
    × Lacks b'@' server

-- A server, if there is one.
abbrev AnyBare : (Text → Bool) → Text → Text ⊎ Text → Type 0
AnyBare refuses url (inl e) = Unit
AnyBare refuses url (inr server) = IsBare refuses url server

parsed_server-AnyBare : (m : Machine) (url : Text) → AnyBare m.refuses url (parsed_server m url)
unfolding parsed_server bare_server
parsed_server-AnyBare m url = go (urlsplit m.refuses url) refl
  where
    go :
        (o : Option Parts)
        → urlsplit m.refuses url ≡ o
        → AnyBare m.refuses url
            (elim o [ none ↦ inl (codes "ValueError") | some p ↦ inr (bare_server p) ])
    go none e = tt
    go (some p) e = (
      p,
      hostport p.netloc,
      e,
      hostport-IsHost p.netloc,
      refl,
      bare_server-Lacks p (urlsplit-Lacks m.refuses url p e),
    )

then_run-result :
    {A B : Type 0} (P : Text ⊎ B → Type 0) (r : Run A) (f : A → Run B)
    → ((e : Text) → P (inl e))
    → ((a : A) → P (f a).1)
    → P (then_run r f).1
unfolding then_run
then_run-result P (es, inl e) f h k = h e
then_run-result P (es, inr a) f h k = k a

-- The one argument of a route that has been found names a bare server.
abbrev pub HidesUser : (Text → Bool) → Text → Text ⊎ Route → Type 0
HidesUser refuses url (inl e) = Unit
HidesUser refuses url (inr r) =
    (server : Text) × (r.argument ≡ (codes "--proxy-server=" ++ server) ∷ [])
    × IsBare refuses url server

return_route-HidesUser :
    (refuses : Text → Bool) (url dir : Text) (server : Text ⊎ Text)
    → AnyBare refuses url server
    → HidesUser refuses url
        (then_run
          (read server)
          (λ s. return record { argument = server_argument s ∷ []; dir = some dir })).1
unfolding then_run
return_route-HidesUser refuses url dir (inl e) h = tt
return_route-HidesUser refuses url dir (inr s) h = (s, refl, h)

-- If a proxy has a username and a password, and its route is found, the one argument that names the
-- proxy on the command line is made of the scheme of its URL and of what stands behind the last `@` of
-- its netloc, and has no `@`: nothing of what stands in front of the host in the URL gets there.
pub route-HidesUser :
    (m : Machine) (fs : Fields)
    → is_authenticated fs ≡ true
    → HidesUser m.refuses (text_of (attr (codes "url") fs null)) (route m (obj fs)).1
unfolding route extension_route
route-HidesUser m fs h =
    let url = text_of (attr (codes "url") fs null) in
    rw (h, route)
      (then_run-result (HidesUser m.refuses url)
        (create_proxy_extension m url (attr (codes "username") fs null)
          (attr (codes "password") fs null))
        (λ dir.
          then_run (read (parsed_server m url))
            (λ server. return record { argument = server_argument server ∷ []; dir = some dir }))
        (λ e. tt)
        (λ dir.
          return_route-HidesUser m.refuses url dir (parsed_server m url)
            (parsed_server-AnyBare m url)))
