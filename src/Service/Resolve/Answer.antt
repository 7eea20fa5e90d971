-- ===== src/Service/Resolve/Answer.antt =====
-- What `_resolve_challenge` answers and remembers, told from the attempts that it made.
use solverr.Base.{
  ℕ, ◌+◌, ◌-◌, ◌*◌, ◌≡◌, refl, ◌∙◌, Bool, true, false, ◌&&◌, Option, none, some, List, [], ◌∷◌,
  ◌++◌, ltb, if◌then◌else◌, arith, Bool-cases, inl, inr, append_assoc, append-nil,
}
use solverr.Base.Text.{Text}
use solverr.Service.{
  Engine, Error, engine_failed, unsolved_page, all_engines_failed, Result, ok, err, SolveResult,
}
use solverr.Service.Routing.{remember_engine}
use solverr.Service.Resolve.{
  Outcome, page, raised, react, is_empty, Attempt, Loop, Control, continues, breaks, returns,
  raises, on_page, turn, leave, attempts, start_loop, resolve_challenge, looks_challenged,
  min_engine_time,
}

-- The answer that a list of attempts calls for: the first page that does not look challenged, else
-- the latest page, else the latest error.
abbrev pub answer_at_end : Option SolveResult → Option Error → Result SolveResult
answer_at_end (some r) e = ok r
answer_at_end none (some e) = err e
answer_at_end none none = err all_engines_failed

abbrev pub answer_from :
    Option SolveResult → Option Error → List (Engine × Outcome) → Result SolveResult
answer_from r e [] = answer_at_end r e
answer_from r e ((engine, raised why) ∷ ts) = answer_from r (some (engine_failed why)) ts
answer_from r e ((engine, page p) ∷ ts) =
    let later = answer_from (some p) e ts in if looks_challenged p then later else ok p

-- With a page at hand no error is answered.
answer_error :
    (r : SolveResult) (e e' : Option Error) (ts : List (Engine × Outcome))
    → answer_from (some r) e ts ≡ answer_from (some r) e' ts
answer_error r e e' [] = refl
answer_error r e e' ((engine, raised why) ∷ ts) = refl
answer_error r e e' ((engine, page p) ∷ ts) = ground (arith, answer_error p e e' ts)

-- The memory that it calls for: a page that does not look challenged is remembered.
abbrev pub memory_from :
    Option Text → List (Text × Engine) → List (Engine × Outcome) → List (Text × Engine)
memory_from host m [] = m
memory_from host m ((engine, raised why) ∷ ts) = memory_from host m ts
memory_from host m ((engine, page p) ∷ ts) =
    let later = memory_from host m ts in
    if looks_challenged p then later else remember_engine host engine m

-- The loop's log grows at its end; what is added decides the answer.
pub record Explains (host : Option Text) (st : Loop) (res : Result SolveResult × Loop)
    (new : List (Engine × Outcome)) : Type 0 where
  pub log : res.1.tried ≡ st.tried ++ new
  pub answer : res.0 ≡ answer_from st.last_result st.last_error new
  pub memory : res.1.domain_engine ≡ memory_from host st.domain_engine new

leave-Explains : (host : Option Text) (st : Loop) → Explains host st (leave st) []
unfolding leave
leave-Explains host st = record {
  log = ground (arith, append-nil st.tried);
  answer = ground arith;
  memory = ground arith;
}

module _ (solve : Engine → ℕ → ℕ → Attempt) (deadline : ℕ) (host : Option Text) where
  -- What the loop does with an iteration's end.
  abbrev pub follow : List Engine → Control → Result SolveResult × Loop
  follow es (continues st) = attempts solve deadline host true es st
  follow es (breaks st) = leave st
  follow es (returns r st) = (ok r, st)
  follow es (raises why st) = (err why, st)

  abbrev Explained : Loop → Result SolveResult × Loop → Type 0
  Explained st res = (new : List (Engine × Outcome)) × Explains host st res new

  react-Explained :
      (e : Engine) (es : List Engine) (o : Outcome) (st : Loop) (clock : ℕ)
      → ((st' : Loop) → Explained st' (attempts solve deadline host true es st'))
      → Explained st (
          follow es (
            react host
              (is_empty es)
              e
              o
              (record st { clock = clock; tried = st.tried ++ (e, o) ∷ [] })))
  unfolding react leave
  react-Explained e [] (raised why) st clock rest = (
    (e, raised why) ∷ [],
    record { log = ground arith; answer = ground arith; memory = ground arith },
  )
  react-Explained e [] (page r) st clock rest = (
    (e, page r) ∷ [],
    record { log = ground arith; answer = ground arith; memory = ground arith },
  )
  react-Explained e (f ∷ fs) (raised why) st clock rest =
      let (new, x) = rest (record st {
        clock = clock;
        tried = st.tried ++ (e, raised why) ∷ [];
        last_error = some (engine_failed why);
      }) in
      (
        (e, raised why) ∷ new,
        record {
          log = x.log ∙ append_assoc st.tried ((e, raised why) ∷ []) new;
          answer = x.answer;
          memory = x.memory;
        },
      )
  react-Explained e (f ∷ fs) (page r) st clock rest = elim (Bool-cases (looks_challenged r)) [
    | inl bad ↦
        let (new, x) = rest (record st {
          clock = clock;
          tried = st.tried ++ (e, page r) ∷ [];
          last_error = some (unsolved_page e);
          last_result = some r;
        }) in
        (
          (e, page r) ∷ new,
          record {
            log = rw (bad, on_page) (x.log ∙ append_assoc st.tried ((e, page r) ∷ []) new);
            answer =
                rw (bad, on_page)
                  (x.answer ∙ answer_error r (some (unsolved_page e)) st.last_error new);
            memory = rw (bad, on_page) x.memory;
          },
        )
    | inr good ↦ (
      (e, page r) ∷ [],
      record { log = ground arith; answer = ground arith; memory = ground arith },
    )
  ]

  pub attempts_late :
      (later : Bool) (e : Engine) (es : List Engine) (st : Loop)
      → (later && ltb (deadline - st.clock) min_engine_time) ≡ true
      → attempts solve deadline host later (e ∷ es) st ≡ leave st
  unfolding attempts
  attempts_late later e es st late = rw (late, attempts)

  pub attempts_step :
      (later : Bool) (e : Engine) (es : List Engine) (st : Loop)
      → (later && ltb (deadline - st.clock) min_engine_time) ≡ false
      → attempts solve deadline host later (e ∷ es) st
        ≡ follow es (turn solve deadline host e es st)
  unfolding attempts
  attempts_step later e es st time = rw (time, attempts) (go (turn solve deadline host e es st))
    where
      go :
          (c : Control)
          → (elim c [
            | continues st' ↦ attempts solve deadline host true es st'
            | breaks st' ↦ leave st'
            | returns r st' ↦ (ok r, st')
            | raises why st' ↦ (err why, st')
          ])
            ≡ follow es c
      go (continues st') = refl
      go (breaks st') = refl
      go (returns r st') = refl
      go (raises why st') = refl

  pub attempts_end :
      (later : Bool) (st : Loop) → attempts solve deadline host later [] st ≡ leave st
  unfolding attempts
  attempts_end later st = refl

  attempts-Explained :
      (later : Bool) (es : List Engine) (st : Loop)
      → Explained st (attempts solve deadline host later es st)
  unfolding turn
  attempts-Explained later [] st = ([], rw (attempts_end later st) (leave-Explains host st))
  attempts-Explained later (e ∷ es) st =
      elim (Bool-cases (later && ltb (deadline - st.clock) min_engine_time)) [
        | inl late ↦ ([], rw (attempts_late later e es st late) (leave-Explains host st))
        | inr time ↦
            rw (attempts_step later e es st time)
              (react-Explained e es _ st _ (attempts-Explained true es))
      ]

module _ (solve : Engine → ℕ → ℕ → Attempt) (host : Option Text) where
  -- The answer of `_resolve_challenge` is the first page that does not look challenged, else the
  -- latest page, else the latest error, of the attempts that were made; and the host's engine is
  -- remembered exactly when such a first page came, as the engine that it came from.
  pub resolve_challenge-answer :
      (order : List Engine) (max_timeout now : ℕ) (m : List (Text × Engine))
      → ((resolve_challenge solve host order max_timeout now m).0
          ≡ answer_from none none (resolve_challenge solve host order max_timeout now m).1.tried)
        × ((resolve_challenge solve host order max_timeout now m).1.domain_engine
            ≡ memory_from host m (resolve_challenge solve host order max_timeout now m).1.tried)
  unfolding resolve_challenge
  resolve_challenge-answer order max_timeout now m =
      let (new, x) =
        attempts-Explained solve (now + max_timeout * 1000) host false order (start_loop now m) in
      (rw x.log x.answer, rw x.log x.memory)
