-- ===== src/Pipeline.antt =====
-- pipeline.py: the rules that both engines drive, as generators.
pub mod Verdicts
use solverr.Base.{ℕ, ◌≡◌, Bool, true, false, Option, none, some, List, [], ◌∷◌, if◌then◌else◌}
use solverr.Base.Text.{Text, lower, starts_with, text_eq}
use solverr.Detection.{
  access_denied_titles, access_denied_selectors, challenge_titles, challenge_selectors,
  turnstile_selectors,
}

-- `SET_COOKIES` carries the cookies that the caller supplied, of a type `C`.
pub data Step (C : Type 0) : Type 0 where
  navigate : Step C
  set_cookies : C → Step C
  settle : Step C

-- A generator: it yields steps and looks, and is sent the answers to its looks.
pub data Kernel (C A : Type 0) : Type 0 where
  done : A → Kernel C A
  act : Step C → Kernel C A → Kernel C A
  look_title : (Text → Kernel C A) → Kernel C A
  look_selector : Text → (Bool → Kernel C A) → Kernel C A

-- What an engine supplies: it does the steps and answers the looks, on a browser of type `S`.
pub record Handlers (C S : Type 0) : Type 0 where
  pub on_step : Step C → S → S
  pub on_title : S → S × Text
  pub on_selector : Text → S → S × Bool

-- `run` and `run_async`: each drives a generator to its end.
unfoldable pub run : {C S A : Type 0} → Handlers C S → Kernel C A → S → S × A
run h (done a) w = (w, a)
run h (act step k) w = run h k (h.on_step step w)
run h (look_title k) w = let (w', title) = h.on_title w in run h (k title) w'
run h (look_selector s k) w = let (w', shown) = h.on_selector s w in run h (k shown) w'

pub data Verdict : Type 0 where
  denied challenge clean : Verdict

-- The verdict, whether a widget decided it, and the title or selector that did.
pub record Found : Type 0 where
  pub verdict_of : Verdict
  pub is_turnstile : Bool
  pub reason : Option Text

abbrev pub found : Verdict → Bool → Option Text → Found
found v t r = record { verdict_of = v; is_turnstile = t; reason = r }

-- `approach`; `none` and an empty list of cookies are both none.
unfoldable pub approach : {C : Type 0} → Option C → Kernel C (Unit {0})
approach none = act navigate (done tt)
approach (some cookies) = act navigate (act (set_cookies cookies) (act navigate (done tt)))

-- `yield from` a generator.
unfoldable pub yield_from : {C A B : Type 0} → Kernel C A → (A → Kernel C B) → Kernel C B
yield_from (done a) f = f a
yield_from (act step k) f = act step (yield_from k f)
yield_from (look_title k) f = look_title (λ t. yield_from (k t) f)
yield_from (look_selector s k) f = look_selector s (λ b. yield_from (k b) f)

-- A loop over selectors that returns at the first one that is on the page.
unfoldable pub first_on_page : {C A : Type 0} → List Text → (Text → A) → Kernel C A → Kernel C A
first_on_page [] hit next = next
first_on_page (s ∷ ss) hit next =
    look_selector s (λ shown. if shown then done (hit s) else first_on_page ss hit next)

-- The first of these that the title starts with.
unfoldable pub first_prefix : List Text → Text → Option Text
first_prefix [] title = none
first_prefix (d ∷ ds) title = if starts_with title d then some d else first_prefix ds title

-- Whether the title is one of these, without regard to case.
unfoldable pub is_title : List Text → Text → Bool
unfolding lower
is_title [] title = false
is_title (c ∷ cs) title = if text_eq (lower c) (lower title) then true else is_title cs title

-- The lists of detection.py.
pub record Markers : Type 0 where
  pub denied_titles : List Text
  pub denied_selectors : List Text
  pub widgets : List Text
  pub titles : List Text
  pub selectors : List Text

abbrev pub all_markers : Markers
all_markers = record {
  denied_titles = access_denied_titles;
  denied_selectors = access_denied_selectors;
  widgets = turnstile_selectors;
  titles = challenge_titles;
  selectors = challenge_selectors;
}

module _ {C : Type 0} where
  -- The part of `verdict` behind the widgets.
  unfoldable pub challenges : Markers → Text → Kernel C Found
  unfolding is_title first_on_page
  challenges m title =
      if is_title m.titles title
      then done (found challenge false (some title))
      else first_on_page m.selectors (λ s. found challenge false (some s))
          (done (found clean false none))

  -- The part behind the titles that mean a refusal.
  unfoldable pub refusals : Markers → Bool → Text → Kernel C Found
  unfolding challenges first_on_page
  refusals m turnstile_is_a_challenge title =
      first_on_page m.denied_selectors (λ s. found denied false (some s))
        (if turnstile_is_a_challenge
          then first_on_page m.widgets (λ s. found challenge true (some s)) (challenges m title)
          else challenges m title)

  unfoldable pub verdict_by : Markers → Bool → Kernel C Found
  unfolding first_prefix refusals
  verdict_by m turnstile_is_a_challenge = look_title (λ title.
      elim (first_prefix m.denied_titles title) [
        | some d ↦ done (found denied false (some d))
        | none ↦ refusals m turnstile_is_a_challenge title
      ])

  unfoldable pub verdict : Bool → Kernel C Found
  unfolding verdict_by
  verdict turnstile_is_a_challenge = verdict_by all_markers turnstile_is_a_challenge

  abbrev pub again : Bool → Found → Kernel C Found
  again t f = elim f.verdict_of [
    | clean ↦ act settle (verdict t)
    | denied ↦ done f
    | challenge ↦ done f
  ]

  unfoldable pub settled_verdict : Bool → Kernel C Found
  unfolding yield_from verdict
  settled_verdict turnstile_is_a_challenge =
      yield_from (verdict turnstile_is_a_challenge) (again turnstile_is_a_challenge)
