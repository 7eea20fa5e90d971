-- ===== src/Passthrough/SlotsInv.antt =====
-- What holds of the slots of passthrough.py in every world that can be reached.
use solverr.Base.{
  ℕ, suc, ◌+◌, ◌≤◌, ◌<◌, ◌≡◌, refl, inl, inr, true, false, Option, none, some, List, [], ◌∷◌, arith,
  if◌then◌else◌, Option-cases, All, is_some,
}
use solverr.Base.Text.{Text, Text-discrete}
use solverr.Base.Dict.{put, lookup-put, lookup-remove}
use mathlib.Core.List.{lookup}
use solverr.Passthrough.{Settings}
use solverr.Passthrough.Cache.{fresh}
use solverr.Passthrough.Handle.{
  Answer, Solved, Pending, Proxy, start_proxy, set_slot, look, settle, release, owner_answer,
  waiter_answer,
}
use solverr.Passthrough.Slots.{
  Owner, World, owner_at, start, Insert, after_look, Step, looks, settles, releases, Reach, began,
  then_step,
}
use solverr.Passthrough.Hits.{
  hits, on_path, on_slot, sent_hits, hits-Insert, All-Insert, All-off, All-map, All-sent,
}

abbrev pub pending_of : Option (Option Solved) → Pending
pending_of none = record { result = none; is_set = false }
pending_of (some none) = record { result = none; is_set = false }
pending_of (some (some r)) = record { result = some r.answer; is_set = false }

abbrev pub SlotOf : Proxy → Owner → Type 0
SlotOf p o = (o.slot < p.next_slot) × (p.slots o.slot ≡ pending_of o.done)

abbrev pub SentOf : Proxy → ℕ × Answer → Type 0
SentOf p e = (e.0 < p.next_slot) × ((p.slots e.0).is_set ≡ true) × (waiter_answer e.0 p ≡ e.1)

pub record Inv (w : World) : Type 0 where
  pub paths :
      (raw : Text)
      → hits (on_path raw) w.owners
        ≡ (if is_some (lookup Text-discrete raw w.proxy.inflight) then 1 else 0)
  pub inflight : All (λ o. lookup Text-discrete o.path w.proxy.inflight ≡ some o.slot) w.owners
  pub slots : All (SlotOf w.proxy) w.owners
  pub sent : All (SentOf w.proxy) w.sent
  pub once : (h : ℕ) → hits (on_slot h) w.owners + sent_hits h w.sent ≤ 1

fresh_slot : (p : Proxy) (os : List Owner) → All (SlotOf p) os → hits (on_slot p.next_slot) os ≡ 0
fresh_slot p [] a = refl
fresh_slot p (o ∷ os) a = ground (arith, fresh_slot p os a.1, a.0.0)

fresh_sent : (p : Proxy) (es : List (ℕ × Answer)) → All (SentOf p) es → sent_hits p.next_slot es ≡ 0
fresh_sent p [] a = refl
fresh_sent p (e ∷ es) a = ground (arith, fresh_sent p es a.1, a.0.0)

start-Inv : Inv start
unfolding start_proxy lookup
start-Inv = record {
  paths = λ raw. refl;
  inflight = tt;
  slots = tt;
  sent = tt;
  once = λ h. ground arith;
}

-- A slot is made.
own-Inv :
    (raw : Text) (w : World)
    → Inv w
    → lookup Text-discrete raw w.proxy.inflight ≡ none
    → Inv (record w {
      proxy = record w.proxy {
        inflight = put Text-discrete raw w.proxy.next_slot w.proxy.inflight;
        slots = set_slot w.proxy.slots w.proxy.next_slot (record { result = none; is_set = false });
        next_slot = suc w.proxy.next_slot;
      };
      owners = owner_at raw w.proxy.next_slot none ∷ w.owners;
    })
unfolding waiter_answer
own-Inv raw w i free = record {
  paths = λ j.
      ground
        (arith, i.paths j, free, lookup-put Text-discrete raw j w.proxy.next_slot w.proxy.inflight);
  inflight = (
    ground (arith, lookup-put Text-discrete raw raw w.proxy.next_slot w.proxy.inflight),
    All-map w.owners
        (λ o l.
          ground (
            arith,
            l,
            free,
            lookup-put Text-discrete raw o.path w.proxy.next_slot w.proxy.inflight,
          ))
        i.inflight,
  );
  slots = (
    (omega arith, ground arith),
    All-map w.owners (λ o l. (omega (arith, l.0), ground (arith, l.0, l.1))) i.slots,
  );
  sent =
      All-sent w.proxy.next_slot w.sent
        (λ e d l. (omega (arith, l.0), ground (arith, l, d), ground (arith, l, d)))
        (fresh_sent w.proxy w.sent i.sent) i.sent;
  once = λ h.
      ground
        (arith, i.once h, fresh_slot w.proxy w.owners i.slots, fresh_sent w.proxy w.sent i.sent);
}

-- The path and the slot of an owner are its own.
alone :
    (o : Owner) (os : List Owner) (w : World)
    → Inv w
    → Insert o os w.owners
    → (hits (on_path o.path) os ≡ 0)
      × (hits (on_slot o.slot) os ≡ 0)
      × (sent_hits o.slot w.sent ≡ 0)
      × (lookup Text-discrete o.path w.proxy.inflight ≡ some o.slot)
alone o os w i at =
    let held : lookup Text-discrete o.path w.proxy.inflight ≡ some o.slot =
      (All-Insert (λ o. lookup Text-discrete o.path w.proxy.inflight ≡ some o.slot) o os w.owners at
        i.inflight).0 in
    (
      ground (arith, held, i.paths o.path, hits-Insert (on_path o.path) o os w.owners at),
      ground (arith, i.once o.slot, hits-Insert (on_slot o.slot) o os w.owners at),
      ground (arith, i.once o.slot, hits-Insert (on_slot o.slot) o os w.owners at),
      held,
    )

settle-Inv :
    (s : Settings) (now : ℕ) (raw : Text) (h : ℕ) (r : Option Solved) (w : World) (os : List Owner)
    → Inv w
    → Insert (owner_at raw h none) os w.owners
    → Inv (record w { proxy = settle s now raw h r w.proxy; owners = owner_at raw h (some r) ∷ os })
unfolding settle waiter_answer
settle-Inv s now raw h none w os i at =
    let (p0, s0, t0, held) = alone (owner_at raw h none) os w i at in
    let (mine, others) = All-Insert (SlotOf w.proxy) (owner_at raw h none) os w.owners at i.slots in
    record {
      paths = λ j.
          ground (arith, i.paths j, hits-Insert (on_path j) (owner_at raw h none) os w.owners at);
      inflight =
          All-Insert (λ o. lookup Text-discrete o.path w.proxy.inflight ≡ some o.slot)
            (owner_at raw h none) os w.owners at i.inflight;
      slots = (mine, others);
      sent = i.sent;
      once = λ j.
          ground (arith, i.once j, hits-Insert (on_slot j) (owner_at raw h none) os w.owners at);
    }
settle-Inv s now raw h (some r) w os i at =
    let (p0, s0, t0, held) = alone (owner_at raw h none) os w i at in
    let (mine, others) = All-Insert (SlotOf w.proxy) (owner_at raw h none) os w.owners at i.slots in
    record {
      paths = λ j.
          ground (arith, i.paths j, hits-Insert (on_path j) (owner_at raw h none) os w.owners at);
      inflight =
          All-Insert (λ o. lookup Text-discrete o.path w.proxy.inflight ≡ some o.slot)
            (owner_at raw h none) os w.owners at i.inflight;
      slots = (
        (mine.0, ground (arith, mine.1)),
        All-off (on_slot h) os (λ o z l. (l.0, ground (arith, z, l.1))) s0 others,
      );
      sent =
          All-sent h w.sent (λ e d l. (l.0, ground (arith, d, l), ground (arith, d, l))) t0 i.sent;
      once = λ j.
          ground (arith, i.once j, hits-Insert (on_slot j) (owner_at raw h none) os w.owners at);
    }

release-Inv :
    (raw : Text) (h : ℕ) (r : Option Solved) (w : World) (os : List Owner)
    → Inv w
    → Insert (owner_at raw h (some r)) os w.owners
    → Inv
        (record { proxy = release raw h w.proxy; owners = os; sent = (h, owner_answer r) ∷ w.sent })
unfolding release waiter_answer owner_answer
release-Inv raw h r w os i at =
    let o = owner_at raw h (some r) in
    let (p0, s0, t0, held) = alone o os w i at in
    let (mine, others) = All-Insert (SlotOf w.proxy) o os w.owners at i.slots in
    let (_, paths) =
      All-Insert (λ o. lookup Text-discrete o.path w.proxy.inflight ≡ some o.slot) o os w.owners at
        i.inflight in
    record {
      paths = λ j. ground (
        arith,
        i.paths j,
        p0,
        hits-Insert (on_path j) o os w.owners at,
        lookup-remove Text-discrete raw j w.proxy.inflight,
      );
      inflight =
          All-off (on_path raw) os
            (λ o z l. ground (arith, z, l, lookup-remove Text-discrete raw o.path w.proxy.inflight))
            p0 paths;
      slots = All-off (on_slot h) os (λ o z l. (l.0, ground (arith, z, l.1))) s0 others;
      sent = (
        (mine.0, ground arith, told r mine.1),
        All-sent h w.sent (λ e d l. (l.0, ground (arith, d, l), ground (arith, d, l))) t0 i.sent,
      );
      once = λ j. ground (arith, i.once j, hits-Insert (on_slot j) o os w.owners at);
    }
  where
    told :
        (r : Option Solved)
        → w.proxy.slots h ≡ pending_of (some r)
        → waiter_answer h (release raw h w.proxy) ≡ owner_answer r
    told none e = ground (arith, e)
    told (some a) e = ground (arith, e)

look-Inv :
    (s : Settings) (now : ℕ) (raw : Text) (w : World)
    → Inv w
    → Inv (after_look w raw (look s now raw w.proxy))
unfolding look
look-Inv s now raw w i = elim (Option-cases (fresh s.cache_ttl now raw w.proxy.cache)) [
  | inr (e, p) ↦ rw (look, p) i
  | inl p ↦ elim (Option-cases (lookup Text-discrete raw w.proxy.inflight)) [
    | inr (h, q) ↦ rw (look, p, q) i
    | inl q ↦ rw (look, p, q) (own-Inv raw w i q)
  ]
]

pub step-Inv : (s : Settings) (w v : World) → Inv w → Step s w v → Inv v
step-Inv s w v i (looks now raw _) = look-Inv s now raw w i
step-Inv s w v i (settles now raw h r _ os at) = settle-Inv s now raw h r w os i at
step-Inv s w v i (releases raw h r _ os at) = release-Inv raw h r w os i at

pub Reach-Inv : (s : Settings) (w : World) → Reach s w → Inv w
Reach-Inv s w began = start-Inv
Reach-Inv s w (then_step {w = u} r t) = step-Inv s u w (Reach-Inv s u r) t
