-- ===== src/Passthrough/Counts.antt =====
-- Entries of the response cache dropped one by one: what is counted, and what is left.
use solverr.Base.{
  ℕ, ◌+◌, ◌≤◌, ◌≡◌, refl, ◌∙◌, true, none, some, List, [], ◌∷◌, arith, length, Option-cases, inl,
  inr, ◌⊎◌,
}
use solverr.Base.Text.{Text, Text-discrete}
use solverr.Base.Dict.{
  keys, remove, put, IsDistinct, remove-IsDistinct, remove-absent, lookup-remove,
}
use mathlib.Core.List.{lookup}
use solverr.Passthrough.{is_one_of}
use solverr.Passthrough.Cache.{Entry, Cache, drop_entry, drop_all, by_expiry, insert_key, make_room}

abbrev pub size_of : List (Text × Entry) → ℕ
size_of [] = 0
size_of (p ∷ d) = length p.1.body + size_of d

-- The total is that of the bodies, and no path has two entries.
abbrev pub IsCounted : Cache → Type 0
IsCounted c = (c.bytes ≡ size_of c.entries) × IsDistinct Text-discrete c.entries

size-remove :
    (k : Text) (e : Entry) (d : List (Text × Entry))
    → lookup Text-discrete k d ≡ some e
    → IsDistinct Text-discrete d
    → size_of d ≡ length e.body + size_of (remove Text-discrete k d)
unfolding lookup remove
size-remove k e [] h i = absurd (ground arith)
size-remove k e (p ∷ d) h i = ground (arith, size-remove k e d, remove-absent Text-discrete k d)

pub size-put :
    (k : Text) (e : Entry) (d : List (Text × Entry))
    → lookup Text-discrete k d ≡ none
    → size_of (put Text-discrete k e d) ≡ length e.body + size_of d
unfolding lookup put
size-put k e [] h = ground arith
size-put k e (p ∷ d) h = ground (arith, size-put k e d)

pub drop_entry-IsCounted : (k : Text) (c : Cache) → IsCounted c → IsCounted (drop_entry k c)
unfolding drop_entry
drop_entry-IsCounted k c h = elim (Option-cases (lookup Text-discrete k c.entries)) [
  | inl e ↦ rw (drop_entry, e) h
  | inr (x, e) ↦
      rw (drop_entry, e)
        (
          omega (arith, size-remove k x c.entries e h.1, h.0),
          remove-IsDistinct Text-discrete k c.entries h.1,
        )
]

pub drop_entry-gone :
    (k : Text) (c : Cache) → lookup Text-discrete k (drop_entry k c).entries ≡ none
unfolding drop_entry
drop_entry-gone k c = ground (arith, lookup-remove Text-discrete k k c.entries)

drop_entry-keeps_gone :
    (k j : Text) (c : Cache)
    → lookup Text-discrete j c.entries ≡ none
    → lookup Text-discrete j (drop_entry k c).entries ≡ none
unfolding drop_entry
drop_entry-keeps_gone k j c h = ground (arith, lookup-remove Text-discrete k j c.entries)

pub drop_all-IsCounted : (ks : List Text) (c : Cache) → IsCounted c → IsCounted (drop_all ks c)
unfolding drop_all
drop_all-IsCounted [] c h = h
drop_all-IsCounted (k ∷ ks) c h =
    drop_all-IsCounted ks (drop_entry k c) (drop_entry-IsCounted k c h)

drop_all-gone :
    (ks : List Text) (j : Text) (c : Cache)
    → (is_one_of ks j ≡ true) ⊎ (lookup Text-discrete j c.entries ≡ none)
    → lookup Text-discrete j (drop_all ks c).entries ≡ none
unfolding drop_all is_one_of
drop_all-gone [] j c h = ground arith
drop_all-gone (k ∷ ks) j c h =
    ground
      (arith, drop_all-gone ks j (drop_entry k c), drop_entry-gone j c, drop_entry-keeps_gone k j c)

insert_key-has :
    (k j : Text) (t : ℕ) (d : List (Text × ℕ))
    → is_one_of (keys (insert_key k t d)) j ≡ is_one_of (k ∷ keys d) j
unfolding insert_key is_one_of
insert_key-has k j t [] = refl
insert_key-has k j t (p ∷ d) = ground (arith, insert_key-has k j t d)

by_expiry-has :
    (j : Text) (d : List (Text × Entry))
    → (is_one_of (keys (by_expiry d)) j ≡ true) ⊎ (lookup Text-discrete j d ≡ none)
unfolding by_expiry is_one_of lookup
by_expiry-has j [] = inr refl
by_expiry-has j (p ∷ d) =
    ground (arith, by_expiry-has j d, insert_key-has p.0 j p.1.expires (by_expiry d))

nothing_left :
    (d : List (Text × Entry)) → ((j : Text) → lookup Text-discrete j d ≡ none) → size_of d ≡ 0
unfolding lookup
nothing_left [] h = refl
nothing_left (p ∷ d) h = ground (arith, h p.0)

make_room-drop_all :
    (most size : ℕ) (ks : List Text) (c : Cache)
    → ((make_room most size ks c).bytes + size ≤ most) ⊎ (make_room most size ks c ≡ drop_all ks c)
unfolding make_room drop_all
make_room-drop_all most size [] c = inr refl
make_room-drop_all most size (k ∷ ks) c =
    ground (arith, make_room-drop_all most size ks (drop_entry k c))

pub make_room-IsCounted :
    (most size : ℕ) (ks : List Text) (c : Cache)
    → IsCounted c
    → IsCounted (make_room most size ks c)
unfolding make_room
make_room-IsCounted most size [] c h = h
make_room-IsCounted most size (k ∷ ks) c h =
    ground (arith, make_room-IsCounted most size ks (drop_entry k c), drop_entry-IsCounted k c h)

pub make_room-gone :
    (most size : ℕ) (ks : List Text) (j : Text) (c : Cache)
    → lookup Text-discrete j c.entries ≡ none
    → lookup Text-discrete j (make_room most size ks c).entries ≡ none
unfolding make_room
make_room-gone most size [] j c h = h
make_room-gone most size (k ∷ ks) j c h =
    ground (arith, make_room-gone most size ks j (drop_entry k c), drop_entry-keeps_gone k j c h)

-- All keys dropped leave nothing, so a body that is not over the cap fits.
pub make_room-fits :
    (most size : ℕ) (c : Cache)
    → IsCounted c
    → size ≤ most
    → (make_room most size (keys (by_expiry c.entries)) c).bytes + size ≤ most
make_room-fits most size c h s =
    let ks = keys (by_expiry c.entries) in
    elim (make_room-drop_all most size ks c) [
      | inl p ↦ p
      | inr e ↦
          let counted : IsCounted (drop_all ks c) = drop_all-IsCounted ks c h in
          let none_left : size_of (drop_all ks c).entries ≡ 0 =
            nothing_left (drop_all ks c).entries
              (λ j. drop_all-gone ks j c (by_expiry-has j c.entries)) in
          let zero : (drop_all ks c).bytes ≡ 0 = counted.0 ∙ none_left in
          rw e (omega (arith, zero, s))
    ]
