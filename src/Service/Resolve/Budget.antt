-- ===== src/Service/Resolve/Budget.antt =====
-- How `_resolve_challenge` divides the time of a request, and which engines get a turn.
use solverr.Base.{
  ℕ, ◌+◌, ◌-◌, ◌*◌, ◌/◌, ◌≤◌, ◌≡◌, refl, ◌∙◌, true, false, Option, none, some, List, [], ◌∷◌, ◌++◌,
  ltb, length, arith, Bool-cases, inl, inr, if◌then◌else◌,
}
use solverr.Base.Text.{Text}
use solverr.Service.{Engine, engine_failed, unsolved_page}
use solverr.Service.Resolve.{
  Outcome, page, raised, react, is_empty, Attempt, Loop, continues, on_page, turn, leave, attempts,
  start_loop, resolve_challenge, looks_challenged, min_engine_time,
}
use solverr.Service.Resolve.Answer.{follow, attempts_late, attempts_step, attempts_end}

abbrev one_second : ℕ
one_second = 1_000_000

share-le : (x n : ℕ) → x / (n + 1) ≤ x
share-le x n = omega arith

leave-clock : (st : Loop) → (leave st).1.clock ≡ st.clock
unfolding leave
leave-clock st = ground arith

-- What an engine gives itself of a share: a second at least.
abbrev pub granted : ℕ → ℕ
granted share = if ltb share one_second then one_second else share

granted-le : (x n : ℕ) → granted (x / (n + 1)) ≤ granted x
granted-le x n =
    let le = share-le x n in
    elim (Bool-cases (ltb (x / (n + 1)) one_second)) [
      | inl e ↦ elim (Bool-cases (ltb x one_second)) [
        | inl f ↦ rw (e, f) (omega arith)
        | inr f ↦ rw (e, f) (ground arith)
      ]
      | inr e ↦ elim (Bool-cases (ltb x one_second)) [
        | inl f ↦ absurd (ground arith)
        | inr f ↦ rw (e, f) (omega (arith, le))
      ]
    ]

-- A later engine has time enough for its second.
in_time :
    (deadline clock : ℕ)
    → ltb (deadline - clock) min_engine_time ≡ false
    → clock + granted (deadline - clock) ≤ deadline
in_time deadline clock h = ground arith

module _ (solve : Engine → ℕ → ℕ → Attempt)
    (keeps : (e : Engine) (share now : ℕ) → (solve e share now).took ≤ granted share)
    (host : Option Text) where
  react-clock :
      (deadline bound : ℕ) (e : Engine) (es : List Engine) (o : Outcome) (st : Loop)
      → st.clock ≤ bound
      → ((st' : Loop)
          → st'.clock ≤ bound
          → (attempts solve deadline host true es st').1.clock ≤ bound)
      → (follow solve deadline host es (react host (is_empty es) e o st)).1.clock ≤ bound
  unfolding react
  react-clock deadline bound e es (raised why) st h rest = ground (
    arith,
    leave-clock (record st { last_error = some (engine_failed why) }),
    rest (record st { last_error = some (engine_failed why) }),
  )
  react-clock deadline bound e es (page r) st h rest =
      ground (arith, rest (record st { last_error = some (unsolved_page e); last_result = some r }))

  -- What an engine took of its share, if its turn has the time for it.
  turn-clock :
      (deadline bound : ℕ) (e : Engine) (n : ℕ) (st : Loop)
      → st.clock + granted (deadline - st.clock) ≤ bound
      → st.clock + (solve e ((deadline - st.clock) / (n + 1)) st.clock).took ≤ bound
  turn-clock deadline bound e n st h =
      let k = keeps e ((deadline - st.clock) / (n + 1)) st.clock in
      let g = granted-le (deadline - st.clock) n in grind arith

  late-clock :
      (deadline bound : ℕ) (es : List Engine) (st : Loop)
      → deadline ≤ bound
      → st.clock ≤ bound
      → (attempts solve deadline host true es st).1.clock ≤ bound
  unfolding turn
  late-clock deadline bound [] st d h =
      rw (attempts_end solve deadline host true st, leave-clock st) h
  late-clock deadline bound (e ∷ es) st d h =
      elim (Bool-cases (ltb (deadline - st.clock) min_engine_time)) [
        | inl late ↦ rw (attempts_late solve deadline host true e es st late, leave-clock st) h
        | inr time ↦
            let t = in_time deadline st.clock time in
            rw (attempts_step solve deadline host true e es st time) (
              react-clock deadline bound e es _ _
                (turn-clock deadline bound e (length es) st (omega (arith, t)))
                (λ st'. late-clock deadline bound es st' d))
      ]

  attempts-clock :
      (deadline bound : ℕ) (es : List Engine) (st : Loop)
      → deadline ≤ bound
      → st.clock + granted (deadline - st.clock) ≤ bound
      → (attempts solve deadline host false es st).1.clock ≤ bound
  unfolding turn
  attempts-clock deadline bound [] st d h =
      rw (attempts_end solve deadline host false st, leave-clock st) (omega arith)
  attempts-clock deadline bound (e ∷ es) st d h =
      rw (attempts_step solve deadline host false e es st refl) (
        react-clock deadline bound e es _ _ (turn-clock deadline bound e (length es) st h)
          (λ st'. late-clock deadline bound es st' d))

  -- Where each engine takes no more than the share it is given, or a second where the share is
  -- less, the request ends within its `maxTimeout`, or within a second where that is less, however
  -- many engines were tried.
  pub resolve_challenge-clock :
      (order : List Engine) (max_timeout now : ℕ) (m : List (Text × Engine))
      → (resolve_challenge solve host order max_timeout now m).1.clock
        ≤ now + granted (max_timeout * 1000)
  unfolding resolve_challenge
  resolve_challenge-clock order max_timeout now m =
      let whole : now + max_timeout * 1000 - now ≡ max_timeout * 1000 = omega arith in
      attempts-clock (now + max_timeout * 1000) (now + granted (max_timeout * 1000)) order
        (start_loop now m) (ground arith) (rw whole (omega arith))

-- What the first engine did without ending the request.
abbrev pub IsUnsolved : Outcome → Type 0
IsUnsolved (raised why) = Unit
IsUnsolved (page r) = looks_challenged r ≡ true

first_unsolved :
    (host : Option Text) (e : Engine) (o : Outcome) (st : Loop)
    → IsUnsolved o
    → (st' : Loop) × (react host false e o st ≡ continues st')
      × (st'.clock ≡ st.clock)
      × (st'.tried ≡ st.tried)
unfolding react
first_unsolved host e (raised why) st u =
    (record st { last_error = some (engine_failed why) }, refl, refl, refl)
first_unsolved host e (page r) st u = (
  record st { last_error = some (unsolved_page e); last_result = some r },
  rw (u, on_page),
  refl,
  refl,
)

module _ (solve : Engine → ℕ → ℕ → Attempt) (host : Option Text) where
  last_tried :
      (deadline : ℕ) (e : Engine) (o : Outcome) (st : Loop)
      → (follow solve deadline host [] (react host true e o st)).1.tried ≡ st.tried
  unfolding react leave
  last_tried deadline e (raised why) st = ground arith
  last_tried deadline e (page r) st = ground arith

  last_turn :
      (deadline : ℕ) (f : Engine) (st : Loop)
      → min_engine_time ≤ deadline - st.clock
      → (attempts solve deadline host true (f ∷ []) st).1.tried
        ≡ st.tried ++ (f, (solve f (deadline - st.clock) st.clock).outcome) ∷ []
  unfolding turn
  last_turn deadline f st h =
      let one : (deadline - st.clock) / (0 + 1) ≡ deadline - st.clock = omega arith in
      rw (attempts_step solve deadline host true f [] st (ground arith), last_tried, one)

  -- With ten seconds or more to spend, an engine that keeps to its share of half the budget and
  -- ends in an error or on a challenge page is followed by the other engine, which gets all the
  -- time that is left, half the budget at least.
  pub fallback_turn :
      (e f : Engine) (max_timeout now : ℕ) (m : List (Text × Engine))
      → 10000 ≤ max_timeout
      → (solve e (max_timeout * 1000 / 2) now).took ≤ max_timeout * 1000 / 2
      → IsUnsolved (solve e (max_timeout * 1000 / 2) now).outcome
      → let first = solve e (max_timeout * 1000 / 2) now in
        let left = max_timeout * 1000 - first.took in
        ((resolve_challenge solve host (e ∷ f ∷ []) max_timeout now m).1.tried
          ≡ (e, first.outcome) ∷ (f, (solve f left (now + first.took)).outcome) ∷ [])
        × (max_timeout * 1000 / 2 ≤ left)
  unfolding resolve_challenge turn
  fallback_turn e f max_timeout now m h keeps u =
      let a = solve e (max_timeout * 1000 / 2) now in
      let deadline : ℕ = now + max_timeout * 1000 in
      let half : (now + max_timeout * 1000 - now) / (1 + 1) ≡ max_timeout * 1000 / 2 =
        omega arith in
      let rest : now + max_timeout * 1000 - (now + a.took) ≡ max_timeout * 1000 - a.took =
        omega arith in
      let (st', on, clock, log) =
        first_unsolved host e a.outcome
          (record {
            clock = now + a.took;
            domain_engine = m;
            last_error = none;
            last_result = none;
            tried = (e, a.outcome) ∷ [];
          })
          u in
      (
        rw (attempts_step solve deadline host false e (f ∷ []) (start_loop now m) refl)
            (rw (half, on) (last_turn deadline f st' (omega arith) ∙ rw (log, clock, rest))),
        omega arith,
      )
