-- ===== src/Browser/Worker.antt =====
-- What JavaScript reads in the extension's `background.js`, which logs in to the proxy.
use solverr.Base.{
  ℕ, ◌≡◌, refl, ap, sym, ◌∙◌, ◌⊎◌, inl, inr, Option, none, some, [], ◌∷◌, ◌++◌, append_assoc, In,
}
use solverr.Base.Text.{Text, codes}
use solverr.Base.Value.{str}
use solverr.Base.Split.{Parts}
use solverr.Base.Url.{host_of_netloc}
use solverr.Browser.Extension.{
  Machine, removal, dumps, text_or_null, number_or_null, background_js, make_dir, write_files,
  proxy_parts, create_proxy_extension,
}
use solverr.Browser.Json.{dumps_text, units, plain, read_literal}
use solverr.Browser.Literal.{read_literal-dumps_text}
use solverr.Browser.Run.{Run, made_dir, wrote, return, fail, call, read, then_run, on_error}

-- The program in front of the username. The proxy's user is not in it.
abbrev pub head : Machine → Parts × Option ℕ → Text
head m (p, number) =
    m.before_scheme
    ++ (dumps m (str p.scheme)
        ++ (m.before_host
            ++ (dumps m (text_or_null (host_of_netloc p.netloc))
                ++ (m.before_port ++ (dumps m (number_or_null number) ++ m.before_username)))))

-- The program is the one that is meant for these parts of the URL: behind its head, JavaScript reads
-- one literal, the username, then the text that the program has between the two, then one literal,
-- the password, then the program's end.
abbrev pub LogsIn : Machine → Parts × Option ℕ → Text → Text → Text → Type 0
LogsIn m q username password js =
    (rest behind : Text) × (js ≡ head m q ++ b'"' ∷ rest)
    × (read_literal plain rest ≡ some (units username, m.before_password ++ b'"' ∷ behind))
    × (read_literal plain behind ≡ some (units password, m.behind_password))

regroup :
    (a b c d e f g t : Text)
    → (a ++ (b ++ (c ++ (d ++ (e ++ (f ++ g)))))) ++ t
      ≡ a ++ (b ++ (c ++ (d ++ (e ++ (f ++ (g ++ t))))))
regroup a b c d e f g t =
    rw (append_assoc, append_assoc, append_assoc, append_assoc, append_assoc, append_assoc) refl

background_js-head :
    (m : Machine) (q : Parts × Option ℕ) (username password : Text)
    → background_js m q.0 q.1 (str username) (str password)
      ≡ head m q
        ++ (dumps_text username
            ++ (m.before_password ++ (dumps_text password ++ m.behind_password)))
unfolding background_js dumps
background_js-head m (p, number) username password = sym (
    regroup m.before_scheme (dumps m (str p.scheme)) m.before_host
      (dumps m (text_or_null (host_of_netloc p.netloc))) m.before_port
      (dumps m (number_or_null number)) m.before_username
      (dumps_text username ++ (m.before_password ++ (dumps_text password ++ m.behind_password))))

background_js-LogsIn :
    (m : Machine) (q : Parts × Option ℕ) (username password : Text)
    → LogsIn m q username password (background_js m q.0 q.1 (str username) (str password))
background_js-LogsIn m q username password =
    let (behind, e, r) = read_literal-dumps_text password m.behind_password in
    let tail = m.before_password ++ (dumps_text password ++ m.behind_password) in
    let (rest, f, s) = read_literal-dumps_text username tail in
    (
      rest,
      behind,
      background_js-head m q username password ∙ ap (λ t. head m q ++ t) f,
      s ∙ ap (λ t. some (units username, m.before_password ++ t)) e,
      r,
    )

-- A run that made the directory wrote the program into it, if it succeeded.
abbrev Writes : Text → Run Text → Type 0
Writes js (es, inl e) = Unit
Writes js (es, inr dir) = In (wrote dir (codes "background.js") js) es

written : (m : Machine) (js : Text) → Writes js (then_run (make_dir m) (write_files m js))
unfolding make_dir write_files then_run on_error
written m js = go m.make_dir m.write_manifest m.write_background
  where
    go :
        (d : Text ⊎ Text) (a b : Option Text)
        → Writes js (
            then_run
              (elim d [ inl e ↦ fail e | inr dir ↦ (made_dir dir ∷ [], inr dir) ])
              (λ dir.
                on_error
                  (then_run (call (wrote dir (codes "manifest.json") m.manifest_json) a) (λ _.
                    then_run (call (wrote dir (codes "background.js") js) b) (λ _. return dir)))
                  (removal m dir ∷ [])))
    go (inl e) a b = tt
    go (inr d) none none = inr (inr (inl refl))
    go (inr d) none (some e) = tt
    go (inr d) (some e) b = tt

-- What a directory that is handed back holds.
abbrev pub Holds : Machine → Text → Text → Text → Run Text → Type 0
Holds m url username password (es, inl e) = Unit
Holds m url username password (es, inr dir) =
    (q : Parts × Option ℕ) × (js : Text) × (proxy_parts m url ≡ inr q)
    × In (wrote dir (codes "background.js") js) es
    × LogsIn m q username password js

-- Where the extension of a proxy is made, its `background.js` has been written, and whatever the
-- username and the password hold, JavaScript reads each of them in it as one literal with that text,
-- at its place in the program, which is the program's own everywhere else behind the username's
-- start: no character of the two can reach the code around them.
pub create_proxy_extension-Holds :
    (m : Machine) (url username password : Text)
    → Holds m url username password (create_proxy_extension m url (str username) (str password))
unfolding create_proxy_extension then_run
create_proxy_extension-Holds m url username password = go (proxy_parts m url) refl
  where
    held :
        (q : Parts × Option ℕ) (r : Run Text)
        → proxy_parts m url ≡ inr q
        → Writes (background_js m q.0 q.1 (str username) (str password)) r
        → Holds m url username password r
    held q (es, inl e) h w = tt
    held q (es, inr dir) h w = (
      q,
      background_js m q.0 q.1 (str username) (str password),
      h,
      w,
      background_js-LogsIn m q username password,
    )

    go :
        (o : Text ⊎ Parts × Option ℕ)
        → proxy_parts m url ≡ o
        → Holds m url username password (
            then_run (read o) (λ (p, number).
              then_run
                (make_dir m)
                (write_files m (background_js m p number (str username) (str password)))))
    go (inl e) h = tt
    go (inr (p, number)) h =
        held (p, number)
          (then_run (make_dir m)
            (write_files m (background_js m p number (str username) (str password))))
          h (written m (background_js m p number (str username) (str password)))
