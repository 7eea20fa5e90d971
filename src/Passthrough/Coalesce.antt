-- ===== src/Passthrough/Coalesce.antt =====
-- passthrough.py: one solve per path, no slot that is left behind, one answer for all who wait.
use solverr.Base.{ℕ, ◌≡◌, ap, inl, inr, true, List, [], ◌∷◌, arith, if◌then◌else◌, All, In, is_some}
use solverr.Base.Text.{Text, Text-discrete}
use mathlib.Core.List.{lookup}
use solverr.Passthrough.{Settings}
use solverr.Passthrough.Handle.{Answer, Proxy, waiter_answer}
use solverr.Passthrough.Slots.{World, Reach}
use solverr.Passthrough.SlotsInv.{SentOf, Reach-Inv}
use solverr.Passthrough.Hits.{hits, on_path}

-- In every world that can be reached, the number of the owners at work on a path is 1 if the path
-- has a slot in `_inflight` and 0 if it has none: a path is solved once at a time, and no slot stays
-- when its owner is gone.
pub one_owner :
    (s : Settings) (w : World) (raw : Text)
    → Reach s w
    → hits (on_path raw) w.owners
      ≡ (if is_some (lookup Text-discrete raw w.proxy.inflight) then 1 else 0)
one_owner s w raw r = (Reach-Inv s w r).paths raw

sent_told :
    (p : Proxy) (es : List (ℕ × Answer)) (h : ℕ) (a : Answer)
    → All (SentOf p) es
    → In (h, a) es
    → ((p.slots h).is_set ≡ true) × (waiter_answer h p ≡ a)
sent_told p [] h a l m = absurd m.0
sent_told p (e ∷ es) h a l (inl q) = ground (arith, l, q, ap (λ x. x.0) q, ap (λ x. x.1) q)
sent_told p (e ∷ es) h a l (inr m) = sent_told p es h a l.1 m

-- Once an owner has released its slot, the slot's event is set, and a thread that waited on it sends
-- what the owner sent: the page, or the solver error if the owner's solve raised.
pub waiter-answer :
    (s : Settings) (w : World) (h : ℕ) (a : Answer)
    → Reach s w
    → In (h, a) w.sent
    → ((w.proxy.slots h).is_set ≡ true) × (waiter_answer h w.proxy ≡ a)
waiter-answer s w h a r m = sent_told w.proxy w.sent h a (Reach-Inv s w r).sent m
