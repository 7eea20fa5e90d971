-- ===== src/Browser/Run.antt =====
-- A run of the launch: the calls made outside the program, in order, and the result or what was raised.
use solverr.Base.{Bool, ◌≡◌, refl, ap, ◌∙◌, ◌⊎◌, inl, inr, Option, none, some, List, [], ◌∷◌, ◌++◌}
use solverr.Base.Text.{Text}

-- A directory is given by its path; a launch says if the browser logs network events.
pub data Event : Type 0 where
  made_dir : Text → Event
  wrote : Text → Text → Text → Event
  removed_dir : Text → Event
  -- A directory that could not be taken away; the error is logged or ignored.
  remove_failed : Text → Event
  started_display : Event
  launched : Bool → List Text → Event
  start_failed : List Text → Event
  -- The constructor raised when the browser's process ran already.
  orphaned : List Text → Event
  asked_targets : Event
  asked_agent : Event
  closed : Event
  quit : Event
  -- `quit` raised: whether the browser was closed is not known.
  quit_failed : Event
  copied : Event

abbrev pub Run : Type 0 → Type 0
Run A = List Event × (Text ⊎ A)

abbrev pub return : {A : Type 0} → A → Run A
return a = ([], inr a)

abbrev pub fail : {A : Type 0} → Text → Run A
fail e = ([], inl e)

abbrev pub call : Event → Option Text → Run Unit
call e none = (e ∷ [], inr tt)
call e (some raised) = (e ∷ [], inl raised)

-- A call of the program's own code that only reads: no event.
abbrev pub read : {A : Type 0} → Text ⊎ A → Run A
read r = ([], r)

module _ {A B : Type 0} where
  unfoldable pub then_run : Run A → (A → Run B) → Run B
  then_run (es, inl e) f = (es, inl e)
  then_run (es, inr a) f = let (fs, r) = f a in (es ++ fs, r)

module _ {A : Type 0} where
  -- `try: r finally: es`, where the cleanup raises nothing.
  abbrev pub finally : Run A → List Event → Run A
  finally (es, r) fs = (es ++ fs, r)

  -- `try: r except Exception: es; raise`
  unfoldable pub on_error : Run A → List Event → Run A
  on_error (es, inl e) fs = (es ++ fs, inl e)
  on_error (es, inr a) fs = (es, inr a)

-- What the events of a run come to, one after the other.
unfoldable pub fold_events {ℓ} : {S : Type ℓ} → (S → Event → S) → S → List Event → S
fold_events step s [] = s
fold_events step s (e ∷ es) = fold_events step (step s e) es

-- A run leads from `s` to `good a` if it results in `a`, and to `bad` if something is raised.
unfoldable pub Leads {ℓ} :
    {S : Type ℓ} {A : Type 0} → (S → Event → S) → S → S → (A → S) → Run A → Type ℓ
unfolding fold_events
Leads step s bad good (es, inl e) = fold_events step s es ≡ bad
Leads step s bad good (es, inr a) = fold_events step s es ≡ good a

pub fold_events-append {ℓ} :
    {S : Type ℓ} (step : S → Event → S) (s : S) (es fs : List Event)
    → fold_events step s (es ++ fs) ≡ fold_events step (fold_events step s es) fs
unfolding fold_events
fold_events-append step s [] fs = refl
fold_events-append step s (e ∷ es) fs = fold_events-append step (step s e) es fs

pub then_run-Leads {ℓ} :
    {S : Type ℓ} {A B : Type 0} (step : S → Event → S) (s bad : S) (good : A → S) (later : B → S)
    (r : Run A) (f : A → Run B)
    → Leads step s bad good r
    → ((a : A) → Leads step (good a) bad later (f a))
    → Leads step s bad later (then_run r f)
unfolding Leads then_run
then_run-Leads step s bad good later (es, inl e) f h k = h
then_run-Leads {B = B} step s bad good later (es, inr a) f h k = go (f a) (k a)
  where
    go :
        (q : List Event × (Text ⊎ B))
        → Leads step (good a) bad later q
        → Leads step s bad later (es ++ q.0, q.1)
    go (fs, inl e) l = fold_events-append step s es fs ∙ ap (λ t. fold_events step t fs) h ∙ l
    go (fs, inr b) l = fold_events-append step s es fs ∙ ap (λ t. fold_events step t fs) h ∙ l

pub finally-Leads {ℓ} :
    {S : Type ℓ} {A : Type 0} (step : S → Event → S) (s bad after_bad : S) (good after_good : A → S)
    (r : Run A) (fs : List Event)
    → Leads step s bad good r
    → fold_events step bad fs ≡ after_bad
    → ((a : A) → fold_events step (good a) fs ≡ after_good a)
    → Leads step s after_bad after_good (finally r fs)
unfolding Leads
finally-Leads step s bad after_bad good after_good (es, inl e) fs h b g =
    fold_events-append step s es fs ∙ ap (λ t. fold_events step t fs) h ∙ b
finally-Leads step s bad after_bad good after_good (es, inr a) fs h b g =
    fold_events-append step s es fs ∙ ap (λ t. fold_events step t fs) h ∙ g a
