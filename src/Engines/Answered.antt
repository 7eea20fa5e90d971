-- ===== src/Engines/Answered.antt =====
-- What an answer of the Chrome engine rests on.
use solverr.Base.{ℕ, ◌≡◌, refl, Option, none, some}
use solverr.Base.Text.{Text}
use solverr.Assembly
use solverr.Engines.{Call, returned, timed_out, raised}
use solverr.Engines.Evil.{Wanted, Driver, token_pressed, presses, Cleared}
use solverr.Pipeline.{Found}
use solverr.Service.{SolveResult}
use solverr.Engines.Loaded.{IsOpened, IsJudged}
use solverr.Engines.Cleared.{After, MessageOf}

module _ {C S : Type 0} (d : Driver C S) where
  -- The token that the engine's calls come to: one that was pressed for, or one that was waited for.
  abbrev pub Read : Option ℕ → Option Text → Type 0
  Read none token = (u v : S) × (d.await_token u ≡ (v, returned token))
  Read (some tabs) token = (u v : S) × (d.resolve_token tabs u ≡ (v, returned token))

  -- What is known of the token in front of the verdict.
  abbrev Pressed : Option ℕ → Option Text → Type 0
  Pressed none token = Unit
  Pressed (some tabs) token = Read (some tabs) token

  answered :
      {A : Type 0} (P : A → Type 0) (f : S → S × Call A) (s : S)
      → ((v : S) (a : A) → f s ≡ (v, returned a) → P a)
      → After P (f s).1
  answered {A} P f s h = go (f s) refl
    where
      go : (x : S × Call A) → f s ≡ x → After P x.1
      go (v, returned a) e = h v a e
      go (v, timed_out) e = tt
      go (v, raised x) e = tt

  -- An answer shows what the engine found: the page that the load with its cookies came to, the presses
  -- on it, a verdict on what they came to that is no refusal, with the message that it leads to, and the
  -- token.
  pub record Explains (r : Wanted C) (start : S) (a : SolveResult) : Type 0 where
    pub opened : S
    pub is_opened : IsOpened d r start opened
    pub page : S
    pub first_token : Option Text
    pub is_pressed : token_pressed d (presses d r) opened ≡ (page, returned first_token)
    pub behind : S
    pub found : Found
    pub is_found : IsJudged d page behind found
    pub says : MessageOf d found.verdict_of a.message
    pub token_read : Read (presses d r) a.turnstile_token
