-- ===== src/Pipeline/Verdicts.antt =====
-- What the generators of pipeline.py decide about a page.
use solverr.Base.{
  ℕ, ◌+◌, ◌≡◌, ◌∙◌, refl, ap, Bool, true, false, Option, none, some, List, [], ◌∷◌, if◌then◌else◌,
  arith,
}
use solverr.Base.Text.{Text}
use solverr.Pipeline.{
  Step, navigate, set_cookies, settle, Kernel, done, act, look_title, look_selector, Handlers, run,
  denied, challenge, clean, Found, found, approach, yield_from, first_on_page, first_prefix,
  is_title, challenges, refusals, Markers, all_markers, verdict_by, verdict, again, settled_verdict,
}

-- A document: its title, and which selectors it has a match for.
pub record Page : Type 0 where
  pub title : Text
  pub shows : Text → Bool

-- A browser whose document is replaced once, when it is left to settle. `sent` counts what the
-- document on the screen was fetched with: whether the cookies were set before.
pub record Browser (C : Type 0) : Type 0 where
  pub now : Page
  pub later : Page
  pub jar : Option C
  pub sent : List (Option C)
  pub settled : ℕ

module _ {C : Type 0} where
  abbrev pub on_browser : Step C → Browser C → Browser C
  on_browser navigate b = record b { sent = b.jar ∷ b.sent }
  on_browser (set_cookies c) b = record b { jar = some c }
  on_browser settle b = record b { now = b.later; settled = b.settled + 1 }

  abbrev pub engine : Handlers C (Browser C)
  engine = record {
    on_step = on_browser;
    on_title = λ b. (b, b.now.title);
    on_selector = λ s b. (b, b.now.shows s);
  }

-- The first selector that the page shows.
abbrev pub first_shown : List Text → Page → Option Text
first_shown [] p = none
first_shown (s ∷ ss) p = if p.shows s then some s else first_shown ss p

-- The verdict on a page as four rules in order of rank, read off the page directly.
abbrev pub rank : Option Text → Option Text → Option Text → Bool → Text → Option Text → Found
rank (some d) _ _ _ title _ = found denied false (some d)
rank none (some s) _ _ title _ = found denied false (some s)
rank none none (some s) _ title _ = found challenge true (some s)
rank none none none true title _ = found challenge false (some title)
rank none none none false title (some s) = found challenge false (some s)
rank none none none false title none = found clean false none

abbrev pub judge_by : Markers → Bool → Page → Found
judge_by m turnstile p =
    rank (first_prefix m.denied_titles p.title) (first_shown m.denied_selectors p)
      (if turnstile then first_shown m.widgets p else none) (is_title m.titles p.title) p.title
      (first_shown m.selectors p)

abbrev pub judge : Bool → Page → Found
judge turnstile p = judge_by all_markers turnstile p

module _ {C : Type 0} where
  run-first_on_page :
      {A : Type 0} (ss : List Text) (hit : Text → A) (next : Kernel C A) (b : Browser C)
      → run engine (first_on_page ss hit next) b
        ≡ elim (first_shown ss b.now) [ some s ↦ (b, hit s) | none ↦ run engine next b ]
  unfolding run first_on_page
  run-first_on_page [] hit next b = refl
  run-first_on_page (s ∷ ss) hit next b = ground (arith, run-first_on_page ss hit next b)

  run-yield_from :
      {A B : Type 0} (k : Kernel C A) (f : A → Kernel C B) (b : Browser C)
      → run engine (yield_from k f) b ≡ (let r = run engine k b in run engine (f r.1) r.0)
  unfolding run yield_from
  run-yield_from (done a) f b = refl
  run-yield_from (act step k) f b = run-yield_from k f (on_browser step b)
  run-yield_from (look_title k) f b = run-yield_from (k b.now.title) f b
  run-yield_from (look_selector s k) f b = run-yield_from (k (b.now.shows s)) f b

  run-challenges :
      (m : Markers) (t : Text) (b : Browser C)
      → run engine (challenges m t) b
        ≡ (b, rank none none none (is_title m.titles t) t (first_shown m.selectors b.now))
  unfolding challenges run
  run-challenges m t b = ground (
    arith,
    run-first_on_page m.selectors (λ s. found challenge false (some s))
        (done (found clean false none)) b,
  )

  run-refusals :
      (m : Markers) (turnstile : Bool) (t : Text) (b : Browser C)
      → run engine (refusals m turnstile t) b ≡ (
        b,
        rank none
            (first_shown m.denied_selectors b.now)
            (if turnstile then first_shown m.widgets b.now else none)
            (is_title m.titles t)
            t
            (first_shown m.selectors b.now),
      )
  unfolding refusals
  run-refusals m true t b = ground (
    arith,
    run-challenges m t b,
    run-first_on_page m.widgets (λ s. found challenge true (some s)) (challenges m t) b,
    run-first_on_page m.denied_selectors (λ s. found denied false (some s))
        (first_on_page m.widgets (λ s. found challenge true (some s)) (challenges m t)) b,
  )
  run-refusals m false t b = ground (
    arith,
    run-challenges m t b,
    run-first_on_page m.denied_selectors (λ s. found denied false (some s)) (challenges m t) b,
  )

  run-verdict_by :
      (m : Markers) (turnstile : Bool) (b : Browser C)
      → run engine (verdict_by m turnstile) b ≡ (b, judge_by m turnstile b.now)
  unfolding verdict_by run
  run-verdict_by m turnstile b = go (first_prefix m.denied_titles b.now.title)
    where
      go :
          (o : Option Text)
          → run engine
              (elim o [
                | some d ↦ done (found denied false (some d))
                | none ↦ refusals m turnstile b.now.title
              ])
              b
            ≡ (
              b,
              rank o
                  (first_shown m.denied_selectors b.now)
                  (if turnstile then first_shown m.widgets b.now else none)
                  (is_title m.titles b.now.title)
                  b.now.title
                  (first_shown m.selectors b.now),
            )
      go (some d) = refl
      go none = run-refusals m turnstile b.now.title b

  -- On a document that does not change, `verdict` finds what the four ranked rules say.
  pub run-verdict :
      (turnstile : Bool) (b : Browser C)
      → run engine (verdict turnstile) b ≡ (b, judge turnstile b.now)
  unfolding verdict
  run-verdict turnstile b = run-verdict_by all_markers turnstile b

  -- `settled_verdict` judges the document that it sees first; only a clean one is left to settle,
  -- and then the verdict is that on the document behind it.
  pub run-settled_verdict :
      (turnstile : Bool) (b : Browser C)
      → run engine (settled_verdict turnstile) b ≡ elim (judge turnstile b.now).verdict_of [
        | clean ↦ (on_browser settle b, judge turnstile b.later)
        | denied ↦ (b, judge turnstile b.now)
        | challenge ↦ (b, judge turnstile b.now)
      ]
  unfolding settled_verdict run
  run-settled_verdict turnstile b =
      run-yield_from (verdict turnstile) (again turnstile) b
      ∙ (ap (λ r. run engine (again turnstile r.1) r.0) (run-verdict turnstile b)
          ∙ go (judge turnstile b.now))
    where
      go :
          (f : Found)
          → run engine (again turnstile f) b ≡ elim f.verdict_of [
            | clean ↦ (on_browser settle b, judge turnstile b.later)
            | denied ↦ (b, f)
            | challenge ↦ (b, f)
          ]
      go f = ground (arith, run-verdict turnstile (on_browser settle b))

  -- Whatever `approach` was given, the last document was fetched with the cookies in place, and
  -- there is one navigation more if there are cookies.
  pub run-approach :
      (cookies : Option C) (b : Browser C)
      → (run engine (approach cookies) b).0.sent
        ≡ elim cookies [ none ↦ b.jar ∷ b.sent | some c ↦ some c ∷ b.jar ∷ b.sent ]
  unfolding approach run
  run-approach none b = refl
  run-approach (some c) b = refl
