-- ===== src/Engines/Hold.antt =====
-- What a request holds while an engine solves it, by the calls that take it and give it back.
use solverr.Base.{
  ℕ, suc, Bool, true, false, not, ◌&&◌, Option, none, some, List, [], ◌∷◌, if◌then◌else◌,
}

-- The calls of `solve` that change what is held, in the words of the sources:
--   marked: `SessionStore.get` handed a session over, in use; locked: its lock was acquired;
--   owned: a browser of the request's own was made; discarded: `SessionStore.discard`;
--   released, end_use: the lock and the mark given back; shut: the teardown of the own browser;
--   shut_failed: a teardown that raised or ran over its time, behind which the browser may still run;
--   capped, uncapped: the thread's launch budget set, and taken away.
pub data Event : Type 0 where
  marked locked owned discarded released end_use shut shut_failed capped uncapped : Event

pub record Held : Type 0 where
  pub mark : Bool
  pub lock : Bool
  pub browser : Bool
  pub cap : Bool

abbrev pub nothing : Held
nothing = record { mark = false; lock = false; browser = false; cap = false }

-- The rule of each call; `none` is a call that breaks it. A lock is taken and a browser discarded under
-- the mark, a browser is discarded under its lock, and the mark goes last.
unfoldable pub allow : Event → Held → Option Held
allow marked h =
    if not h.mark && (not h.lock && not h.browser) then some (record h { mark = true }) else none
allow locked h = if h.mark && not h.lock then some (record h { lock = true }) else none
allow owned h =
    if not h.mark && (not h.lock && not h.browser) then some (record h { browser = true }) else none
allow discarded h = if h.mark && h.lock then some h else none
allow released h = if h.lock then some (record h { lock = false }) else none
allow end_use h = if h.mark && not h.lock then some (record h { mark = false }) else none
allow shut h = if h.browser then some (record h { browser = false }) else none
allow shut_failed h = if h.browser then some h else none
allow capped h = if h.cap then none else some (record h { cap = true })
allow uncapped h = if h.cap then some (record h { cap = false }) else none

-- What is held after a run of calls.
unfoldable pub replay : List Event → Held → Option Held
unfolding allow
replay [] h = some h
replay (e ∷ es) h = elim (allow e h) [ none ↦ none | some k ↦ replay es k ]

-- How often a session's browser is thrown away.
abbrev pub discards_in : List Event → ℕ
discards_in [] = 0
discards_in (discarded ∷ es) = suc (discards_in es)
discards_in (_ ∷ es) = discards_in es
