-- ===== src/Sessions/Refine.antt =====
-- sessions.py: what the calls of one thread on a store answer is what a map from ids to proxies answers.
-- Handles, clocks, claims and teardowns are what the map forgets.
mod Branches
pub mod Calls
use mathlib.Core.List.{lookup}
use mathlib.Core.Option
use solverr.Base.{
  ℕ, ◌≡◌, refl, sym, ap, ◌∙◌, Bool, true, false, Option, none, some, List, [], ◌∷◌, ite,
  if◌then◌else◌, is_some, arith, Bool-cases, Option-cases, inl, inr,
}
use solverr.Base.Dict.{lookup-put, lookup-remove}
use solverr.Base.Text.{Text, Text-discrete}
use solverr.Sessions.Create.{Shared, Launch, id_or, settle, create, destroy}
use solverr.Sessions.Proxies.{remember_proxy}
use solverr.Sessions.{
  Session, Store, find, claim, teardown, find_existing, new_session, store_new, discard, pop,
  exists,
}

-- A call on the store. `discard` is called on the store alone.
pub data Op (P X : Type 0) : Type 0 where
  on_create : Option Text → Option P → Bool → Launch P X → Op P X
  on_destroy : Text → Op P X
  on_discard : Text → Op P X
  on_exists : Text → Op P X

-- What a call answers: the proxy of the session it hands over, and whether that is new, or nothing if
-- the launch failed; or a Boolean.
pub data Answer (P : Type 0) : Type 0 where
  session : Option (Option P × Bool) → Answer P
  flag : Bool → Answer P

-- The specification: the proxies of the sessions that there are.
abbrev pub Spec : Type 0 → Type 0
Spec P = Text → Option (Option P)

abbrev pub assign : {P : Type 0} → Text → Option (Option P) → Spec P → Spec P
assign id v m j = ite (Text-discrete id j) v (m j)

module _ {P X : Type 0} where
  abbrev pub answer_of : Option (Session P X × Bool) → Answer P
  answer_of none = session none
  answer_of (some (s, fresh)) = session (some (s.proxy, fresh))

  unfoldable pub perform : Op P X → Shared P X → Shared P X × Answer P
  unfolding create destroy discard exists
  perform (on_create id proxy claims l) w =
      let (w', found) = create id proxy claims l w in (w', answer_of found)
  perform (on_destroy id) w = let (w', existed) = destroy id w in (w', flag existed)
  perform (on_discard id) w =
      let (st, existed) = discard id w.store in (record w { store = st }, flag existed)
  perform (on_exists id) w = (w, flag (exists id w.store))

  unfoldable pub answers : List (Op P X) → Shared P X → List (Answer P)
  unfolding perform
  answers [] w = []
  answers (op ∷ ops) w = let (w', a) = perform op w in a ∷ answers ops w'

  unfoldable pub spec_create : Text → Option P → Option X → Spec P → Spec P × Answer P
  spec_create id proxy built m = elim (m id) [
    | some own ↦ (m, session (some (own, false)))
    | none ↦ elim built [
      | none ↦ (m, session none)
      | some x ↦ (assign id (some proxy) m, session (some (proxy, true)))
    ]
  ]

  unfoldable pub spec_perform : Op P X → Spec P → Spec P × Answer P
  unfolding spec_create id_or
  spec_perform (on_create id proxy claims l) m =
      spec_create (id_or id l.uuid) proxy (l.build proxy) m
  spec_perform (on_destroy id) m = (assign id none m, flag (is_some (m id)))
  spec_perform (on_discard id) m = (assign id none m, flag (is_some (m id)))
  spec_perform (on_exists id) m = (m, flag (is_some (m id)))

  unfoldable pub spec_answers : List (Op P X) → Spec P → List (Answer P)
  unfolding spec_perform
  spec_answers [] m = []
  spec_answers (op ∷ ops) m = let (m', a) = spec_perform op m in a ∷ spec_answers ops m'

  -- A store stands for a map.
  unfoldable pub Stands : Store P X → Spec P → Type 0
  Stands st m = (id : Text) → Option.map (λ s. s.proxy) (find id st) ≡ m id
