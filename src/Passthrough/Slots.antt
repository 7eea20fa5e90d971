-- ===== src/Passthrough/Slots.antt =====
-- passthrough.py: what the threads that serve requests keep to, in any order of their steps.
use solverr.Base.{ℕ, Option, none, some, List, [], ◌∷◌}
use solverr.Base.Text.{Text}
use solverr.Passthrough.{Settings}
use solverr.Passthrough.Handle.{
  Answer, Solved, Proxy, start_proxy, Found, hit, owner, waiter, look, settle, release,
  owner_answer,
}

-- An owner between its first critical section and its `finally`: its path, its slot, and what
-- `_solve` gave once it has settled.
pub record Owner : Type 0 where
  pub path : Text
  pub slot : ℕ
  pub done : Option (Option Solved)

-- The proxy, the owners at work, and the answers that finished owners sent, by slot.
pub record World : Type 0 where
  pub proxy : Proxy
  pub owners : List Owner
  pub sent : List (ℕ × Answer)

abbrev pub owner_at : Text → ℕ → Option (Option Solved) → Owner
owner_at path slot done = record { path = path; slot = slot; done = done }

abbrev pub start : World
start = record { proxy = start_proxy; owners = []; sent = [] }

-- `a` is the list `b` with an element put in somewhere.
pub data Insert (o : Owner) : List Owner → List Owner → Type 0 where
  here : {os : List Owner} → Insert o os (o ∷ os)
  there : {x : Owner} {os ps : List Owner} → Insert o os ps → Insert o (x ∷ os) (x ∷ ps)

abbrev pub after_look : World → Text → Proxy × Found → World
after_look w raw (p, hit e) = record w { proxy = p }
after_look w raw (p, waiter h) = record w { proxy = p }
after_look w raw (p, owner h) = record w { proxy = p; owners = owner_at raw h none ∷ w.owners }

pub data Step (s : Settings) : World → World → Type 0 where
  -- A request's first critical section.
  looks : (now : ℕ) (raw : Text) (w : World) → Step s w (after_look w raw (look s now raw w.proxy))
  -- The owner has its page or its exception.
  settles :
      (now : ℕ) (raw : Text) (h : ℕ) (r : Option Solved) (w : World) (os : List Owner)
      → Insert (owner_at raw h none) os w.owners
      → Step s w
          (record w { proxy = settle s now raw h r w.proxy; owners = owner_at raw h (some r) ∷ os })
  -- Its `finally`.
  releases :
      (raw : Text) (h : ℕ) (r : Option Solved) (w : World) (os : List Owner)
      → Insert (owner_at raw h (some r)) os w.owners
      → Step s w (record {
        proxy = release raw h w.proxy;
        owners = os;
        sent = (h, owner_answer r) ∷ w.sent;
      })

pub data Reach (s : Settings) : World → Type 0 where
  began : Reach s start
  then_step : {w v : World} → Reach s w → Step s w v → Reach s v
