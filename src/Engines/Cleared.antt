-- ===== src/Engines/Cleared.antt =====
-- The Chrome engine's loop on a challenge.
use solverr.Base.{
  ℕ, zero, suc, ◌<◌, ◌≡◌, ◌≢◌, refl, true, Option, none, some, is_some, arith, subst,
}
use solverr.Base.Text.{Text}
use solverr.Engines.{Call, returned, timed_out, raised}
use solverr.Engines.Evil.{
  Waited, gone, there, stopped, failed, Driver, next, waits, wait_all, click_again, clear_challenge,
  after_click, after_attempt, after_redirect, after_clear, message_for, solved_message,
  clean_message, Cleared,
}
use solverr.Pipeline.{Verdict, denied, challenge, clean}

-- What holds of the value that a call comes to, if it comes to one.
abbrev pub After : {A : Type 0} → (A → Type 0) → Call A → Type 0
After P (returned a) = P a
After P timed_out = Unit
After P (raised e) = Unit

abbrev pub Soon : {A : Type 0} → (A → Type 0) → Option (Call A) → Type 0
Soon P none = Unit
Soon P (some c) = After P c

pub all_After : {A : Type 0} (c : Call A) → After (λ (_ : A). Unit) c
all_After (returned a) = tt
all_After timed_out = tt
all_After (raised e) = tt

module _ {S A B : Type 0} where
  pub next-After :
      (P : A → Type 0) (Q : B → Type 0) (x : S × Call A) (k : S → A → S × Call B)
      → After P x.1
      → ((s : S) (a : A) → P a → After Q (k s a).1)
      → After Q (next x k).1
  unfolding next
  next-After P Q (s, returned a) k h g = g s a h
  next-After P Q (s, timed_out) k h g = tt
  next-After P Q (s, raised e) k h g = tt

module _ {C S : Type 0} (d : Driver C S) where
  -- An attempt in which all the waits end well.
  abbrev pub Passes : Type 0
  Passes = (u v : S) × (wait_all d waits u ≡ (v, gone))

  after_click-Passes :
      (x : S × Call (Unit {0})) (more : S → Cleared d)
      → ((t : S) → Soon (λ _. Passes) (more t).1)
      → Soon (λ _. Passes) (after_click d x more).1
  after_click-Passes (u, returned _) more h = h u
  after_click-Passes (u, timed_out) more h = tt
  after_click-Passes (u, raised e) more h = tt

  after_attempt-Passes :
      (s : S) (x : S × Waited) (more : S → Cleared d)
      → wait_all d waits s ≡ x
      → ((t : S) → Soon (λ _. Passes) (more t).1)
      → Soon (λ _. Passes) (after_attempt d x more).1
  after_attempt-Passes s (t, gone) more e h = (s, t, e)
  after_attempt-Passes s (t, stopped) more e h = tt
  after_attempt-Passes s (t, failed x) more e h = tt
  after_attempt-Passes s (t, there) more e h = after_click-Passes (click_again d t) more h

  clear_challenge-Passes : (n : ℕ) (s : S) → Soon (λ _. Passes) (clear_challenge d n s).1
  unfolding clear_challenge
  clear_challenge-Passes zero s = tt
  clear_challenge-Passes (suc n) s =
      after_attempt-Passes s (wait_all d waits s) (λ t. clear_challenge d n t) refl
        (λ t. clear_challenge-Passes n t)

  -- The message that a verdict leads to.
  abbrev pub MessageOf : Verdict → Text → Type 0
  MessageOf denied m = ⊥
  MessageOf clean m = m ≡ clean_message
  MessageOf challenge m = (m ≡ solved_message) × Passes

  after_redirect-MessageOf :
      (x : S × Call (Unit {0})) → Passes → After (MessageOf challenge) (after_redirect d x).1
  after_redirect-MessageOf (t, returned _) p = (refl, p)
  after_redirect-MessageOf (t, raised e) p = (refl, p)
  after_redirect-MessageOf (t, timed_out) p = tt

  after_clear-MessageOf :
      (x : Cleared d) → Soon (λ _. Passes) x.1 → Soon (MessageOf challenge) (after_clear d x).1
  after_clear-MessageOf (t, none) h = tt
  after_clear-MessageOf (t, some (returned _)) h = after_redirect-MessageOf (d.wait_stale t) h
  after_clear-MessageOf (t, some timed_out) h = tt
  after_clear-MessageOf (t, some (raised e)) h = tt

  pub message_for-MessageOf :
      (n : ℕ) (v : Verdict) (s : S) → Soon (MessageOf v) (message_for d n v s).1
  unfolding message_for
  message_for-MessageOf n denied s = tt
  message_for-MessageOf n clean s = refl
  message_for-MessageOf n challenge s =
      after_clear-MessageOf (clear_challenge d n s) (clear_challenge-Passes n s)

  -- The state behind so many attempts that timed out.
  abbrev pub behind_attempts : ℕ → S → S
  behind_attempts zero s = s
  behind_attempts (suc k) s = behind_attempts k (click_again d (wait_all d waits s).0).0

  attempt-some :
      (x : S × Waited) (more : S → Cleared d)
      → ((u : S) → (click_again d x.0).0 ≡ u → is_some (more u).1 ≡ true)
      → is_some (after_attempt d x more).1 ≡ true
  attempt-some (t, gone) more h = refl
  attempt-some (t, stopped) more h = refl
  attempt-some (t, failed e) more h = refl
  attempt-some (t, there) more h = go (click_again d t) (λ u e. h u e)
    where
      go :
          (x : S × Call (Unit {0}))
          → ((u : S) → x.0 ≡ u → is_some (more u).1 ≡ true)
          → is_some (after_click d x more).1 ≡ true
      go (u, returned _) k = k u refl
      go (u, timed_out) k = refl
      go (u, raised e) k = refl

  attempt-ends :
      (x : S × Waited) (more : S → Cleared d)
      → x.1 ≢ there
      → is_some (after_attempt d x more).1 ≡ true
  attempt-ends (t, gone) more h = refl
  attempt-ends (t, stopped) more h = refl
  attempt-ends (t, failed e) more h = refl
  attempt-ends (t, there) more h = elim (h refl) [ ]

  pub clear_challenge-Ends :
      (k n : ℕ) (s : S)
      → (wait_all d waits (behind_attempts k s)).1 ≢ there
      → k < n
      → is_some (clear_challenge d n s).1 ≡ true
  unfolding clear_challenge
  clear_challenge-Ends k zero s h p = ground (arith, p)
  clear_challenge-Ends zero (suc n) s h p =
      attempt-ends (wait_all d waits s) (λ t. clear_challenge d n t) h
  clear_challenge-Ends (suc k) (suc n) s h p =
      attempt-some (wait_all d waits s) (λ t. clear_challenge d n t)
        (λ u e.
          subst (λ t. is_some (clear_challenge d n t).1 ≡ true) e
            (clear_challenge-Ends k n (click_again d (wait_all d waits s).0).0 h
              (omega (arith, p))))
