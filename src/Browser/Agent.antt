-- ===== src/Browser/Agent.antt =====
-- utils.py: `get_user_agent`.
use solverr.Base.{
  ℕ, zero, suc, ◌≡◌, refl, ap, ◌∙◌, is_some, arith, ◌⊎◌, inl, inr, Bool, true, false, ◌&&◌, Option,
  none, some, List, [], ◌∷◌, ◌++◌, if◌then◌else◌,
}
use solverr.Base.Text.{Text, codes, lower, starts_with}
use solverr.Browser.Handle.{running}
use solverr.Browser.Measure.{return-Leads}
use solverr.Browser.Run.{
  Run, Event, asked_agent, closed, quit, return, call, then_run, fold_events, Leads,
  fold_events-append,
}

-- `re.sub('HEADLESS', '', s, flags=re.IGNORECASE)`; the number is that of the letters still to drop.
unfoldable pub without_headless : ℕ → Text → Text
unfolding lower
without_headless n [] = []
without_headless (suc n) (c ∷ s) = without_headless n s
without_headless zero (c ∷ s) =
    let dropped = without_headless 7 s in
    let kept = without_headless 0 s in
    if starts_with (lower (c ∷ s)) (codes "headless") then dropped else c ∷ kept

-- The script's answer, and what the calls at the end raise.
pub record Asked : Type 0 where
  pub agent : Text ⊎ Text
  pub is_nt : Bool
  pub close : Option Text
  pub quit_raises : Option Text

unfoldable pub ask_agent : Asked → Run Text
unfolding without_headless
ask_agent a = elim a.agent [
  | inl e ↦ (asked_agent ∷ [], inl e)
  | inr agent ↦ (asked_agent ∷ [], inr (without_headless 0 agent))
]

-- The end of the browser that was launched here: on Windows it is closed first.
unfoldable pub end_browser : Asked → Run Unit
unfolding then_run
end_browser a =
    if a.is_nt
    then then_run (call closed a.close) (λ _. call quit a.quit_raises)
    else call quit a.quit_raises

abbrev pub worded : Run Text → Run Text
worded (es, inl e) = (es, inl (codes "Error getting browser User-Agent. " ++ e))
worded (es, inr t) = (es, inr t)

-- What `finally` raises takes the place of the result.
unfoldable pub ended_by : Run Text → Run Unit → Run Text
ended_by (es, r) (fs, inl e) = (es ++ fs, inl e)
ended_by (es, r) (fs, inr _) = (es ++ fs, r)

-- What is asked of the browser that `get_webdriver` launches here.
unfoldable pub ask_own : Asked → Run Unit → Run Text
unfolding ask_agent ended_by end_browser
ask_own a (es, inl e) = worded (es, inl e)
ask_own a (es, inr _) =
    let (fs, r) = ended_by (worded (ask_agent a)) (end_browser a) in (es ++ fs, r)

-- `get_user_agent`, for what is kept of an earlier call and a driver that is lent, if there is one.
unfoldable pub get_user_agent : Option Text → Bool → Run Unit → Asked → Run Text
unfolding ask_own ask_agent
get_user_agent (some agent) lent launch a = return agent
get_user_agent none true launch a = worded (ask_agent a)
get_user_agent none false launch a = ask_own a launch

ask_agent-Leads : (a : Asked) (n : ℕ) → Leads running n n (λ _. n) (worded (ask_agent a))
unfolding ask_agent running Leads fold_events
ask_agent-Leads a n = go a.agent
  where
    go :
        (r : Text ⊎ Text)
        → Leads running n n
            (λ _. n)
            (worded (elim r [
              | inl e ↦ (asked_agent ∷ [], inl e)
              | inr agent ↦ (asked_agent ∷ [], inr (without_headless 0 agent))
            ]))
    go (inl e) = refl
    go (inr t) = refl

end_browser-running :
    (a : Asked) → (a.is_nt && is_some a.close) ≡ false → fold_events running 2 (end_browser a).0 ≡ 1
unfolding end_browser then_run running fold_events
end_browser-running a h = go a.is_nt a.close a.quit_raises h
  where
    go :
        (nt : Bool) (c q : Option Text)
        → (nt && is_some c) ≡ false
        → let r : Run Unit =
            if nt then then_run (call closed c) (λ _. call quit q) else call quit q in
          fold_events running 2 r.0 ≡ 1
    go false c none h = refl
    go false c (some e) h = refl
    go true none none h = refl
    go true none (some e) h = refl
    go true (some c) q h = ground arith

events-running :
    (es fs : List Event)
    → fold_events running 2 es ≡ 2
    → fold_events running 2 fs ≡ 1
    → fold_events running 2 (es ++ fs) ≡ 1
events-running es fs h k =
    fold_events-append running 2 es fs ∙ ap (λ n. fold_events running n fs) h ∙ k

ended_by-Leads :
    (r : Run Text) (q : Run Unit)
    → Leads running 2 2 (λ _. 2) r
    → fold_events running 2 q.0 ≡ 1
    → Leads running 2 1 (λ _. 1) (ended_by r q)
unfolding ended_by Leads
ended_by-Leads (es, inl e) (fs, inl x) h k = events-running es fs h k
ended_by-Leads (es, inr t) (fs, inl x) h k = events-running es fs h k
ended_by-Leads (es, inl e) (fs, inr x) h k = events-running es fs h k
ended_by-Leads (es, inr t) (fs, inr x) h k = events-running es fs h k

ask_own-Leads :
    (a : Asked) (launch : Run Unit)
    → (a.is_nt && is_some a.close) ≡ false
    → Leads running 1 1 (λ _. 2) launch
    → Leads running 1 1 (λ _. 1) (ask_own a launch)
unfolding ask_own Leads
ask_own-Leads a (es, inl e) c h = h
ask_own-Leads a (es, inr u) c h = go (ended_by (worded (ask_agent a)) (end_browser a)) (
    ended_by-Leads (worded (ask_agent a)) (end_browser a) (ask_agent-Leads a 2)
      (end_browser-running a c))
  where
    go : (q : Run Text) → Leads running 2 1 (λ _. 1) q → Leads running 1 1 (λ _. 1) (es ++ q.0, q.1)
    go (fs, inl e) l = fold_events-append running 1 es fs ∙ ap (λ n. fold_events running n fs) h ∙ l
    go (fs, inr t) l = fold_events-append running 1 es fs ∙ ap (λ n. fold_events running n fs) h ∙ l

-- Beside one browser that runs, the read of the agent leaves that one running and no other, whether
-- it is lent or a browser is launched for it, if a window that Windows closes first closes.
pub get_user_agent-running :
    (cached : Option Text) (lent : Bool) (launch : Run Unit) (a : Asked)
    → (a.is_nt && is_some a.close) ≡ false
    → Leads running 1 1 (λ _. 2) launch
    → Leads running 1 1 (λ _. 1) (get_user_agent cached lent launch a)
unfolding get_user_agent
get_user_agent-running (some agent) lent launch a c h = return-Leads running 1 1 agent
get_user_agent-running none true launch a c h = ask_agent-Leads a 1
get_user_agent-running none false launch a c h = ask_own-Leads a launch c h
