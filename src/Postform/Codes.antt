-- ===== src/Postform/Codes.antt =====
-- The texts of the form's fields are texts of Unicode code points, since the decoders make no other.
use mathlib.Core.List.{reverse, reverse_aux}
use solverr.Base.{
  ℕ, ◌+◌, ◌-◌, ◌*◌, ◌<◌, ◌≤◌, ◌≡◌, ◌&&◌, Option, none, some, List, [], ◌∷◌, if◌then◌else◌, ltb, leb,
  ◌==◌, All, All-append, arith, Bool-cases, inl, inr,
}
use solverr.Base.Text.{Text, codes, cut, split, text_eq}
use solverr.Postform.Decode.{
  hex_pair, hex_value, percent_decode, Pending, Start, whole, begin, start, extend, utf8_decode,
  unquote_runs, unquote,
}
use solverr.Postform.Page.{query_string, read_pair, fields_of, fields}
use solverr.Postform.RoundTrip.{IsCode}

abbrev pub IsField : Text × Text → Type 0
IsField f = All IsCode f.0 × All IsCode f.1

percent_decode-IsCode : (s : Text) → All IsCode s → All IsCode (percent_decode s)
unfolding percent_decode hex_pair hex_value
percent_decode-IsCode [] h = tt
percent_decode-IsCode (c ∷ []) h = h
percent_decode-IsCode (c ∷ d ∷ []) h = (h.0, percent_decode-IsCode (d ∷ []) h.1)
percent_decode-IsCode (c ∷ d ∷ e ∷ s) h =
    ground (arith, percent_decode-IsCode s h.1.1.1, percent_decode-IsCode (d ∷ e ∷ s) h.1, h)

-- What the largest next byte makes of a pending character.
unfoldable Fits : Pending → Type 0
Fits p =
    (1 ≤ p.missing)
    × (p.high ≤ 191)
    × ((p.missing ≡ 1 → p.bits * 64 + (p.high - 128) < 1114112)
        × ((p.missing ≡ 2 → p.bits * 64 + (p.high - 128) < 17408)
            × ((p.missing ≡ 3 → p.bits * 64 + (p.high - 128) < 272) × (p.missing ≤ 3))))

unfoldable Begins : Start → Type 0
unfolding Fits
Begins (whole c) = IsCode c
Begins (begin p) = Fits p

start-Begins : (b : ℕ) → IsCode b → Begins (start b)
unfolding Begins start
start-Begins b h = ground arith

extend-Begins : (p : Pending) (b : ℕ) → Fits p → p.low ≤ b → b ≤ p.high → Begins (extend p b)
unfolding Begins extend
extend-Begins p b f l h = ground (arith, f, l, h)

follow-IsCode :
    (s : Start) (bs : Text)
    → Begins s
    → All IsCode (utf8_decode none bs)
    → ((q : Pending) → Fits q → All IsCode (utf8_decode (some q) bs))
    → All IsCode (elim s [ whole c ↦ c ∷ utf8_decode none bs | begin q ↦ utf8_decode (some q) bs ])
unfolding Begins
follow-IsCode (whole c) bs b h k = (b, h)
follow-IsCode (begin q) bs b h k = k q b

utf8_decode-IsCode :
    (bs : Text)
    → All IsCode bs
    → All IsCode (utf8_decode none bs)
      × ((q : Pending) → Fits q → All IsCode (utf8_decode (some q) bs))
unfolding utf8_decode
utf8_decode-IsCode [] h = (tt, λ q f. (ground arith, tt))
utf8_decode-IsCode (b ∷ bs) h =
    let (plain, pending) = utf8_decode-IsCode bs h.1 in
    let fresh : All IsCode (utf8_decode none (b ∷ bs)) =
      follow-IsCode (start b) bs (start-Begins b h.0) plain pending in
    (
      fresh,
      λ q f. elim (Bool-cases (leb q.low b && leb b q.high)) [
        | inl e ↦ rw e (
            follow-IsCode (extend q b) bs
              (extend-Begins q b f (ground (arith, e)) (ground (arith, e))) plain pending)
        | inr e ↦ rw e (ground arith, fresh)
      ],
    )

reverse_aux-IsCode : (s t : Text) → All IsCode s → All IsCode t → All IsCode (reverse_aux s t)
reverse_aux-IsCode [] t h k = k
reverse_aux-IsCode (c ∷ s) t h k = reverse_aux-IsCode s (c ∷ t) h.1 (h.0, k)

reverse-IsCode : (s : Text) → All IsCode s → All IsCode (reverse s)
reverse-IsCode s h = reverse_aux-IsCode s [] h tt

unquote_runs-IsCode :
    (run s : Text) → All IsCode run → All IsCode s → All IsCode (unquote_runs run s)
unfolding unquote_runs
unquote_runs-IsCode run [] h k =
    (utf8_decode-IsCode (percent_decode (reverse run))
      (percent_decode-IsCode (reverse run) (reverse-IsCode run h))).0
unquote_runs-IsCode run (c ∷ s) h k = elim (Bool-cases (ltb c 128)) [
  | inl e ↦ rw e (unquote_runs-IsCode (c ∷ run) s (k.0, h) k.1)
  | inr e ↦ rw e (
      All-append IsCode (utf8_decode none (percent_decode (reverse run))) (c ∷ unquote_runs [] s)
        ((utf8_decode-IsCode (percent_decode (reverse run))
          (percent_decode-IsCode (reverse run) (reverse-IsCode run h))).0)
        (k.0, unquote_runs-IsCode [] s tt k.1))
]

unquote-IsCode : (s : Text) → All IsCode s → All IsCode (unquote s)
unfolding unquote
unquote-IsCode s h = unquote_runs-IsCode [] s tt h

abbrev IsRest : Option Text → Type 0
IsRest none = Unit
IsRest (some t) = All IsCode t

cut-IsCode : (c : ℕ) (s : Text) → All IsCode s → All IsCode (cut c s).0 × IsRest (cut c s).1
unfolding cut
cut-IsCode c [] h = (tt, tt)
cut-IsCode c (d ∷ s) h = ground (arith, cut-IsCode c s h.1, h)

read_pair-IsField : (p : Text) → All IsCode p → IsField (read_pair p)
unfolding read_pair
read_pair-IsField p h = go (cut b'=' p).0 (cut b'=' p).1 (cut-IsCode b'=' p h)
  where
    go :
        (n : Text) (o : Option Text)
        → All IsCode n × IsRest o
        → IsField (unquote n, elim o [ none ↦ [] | some v ↦ unquote v ])
    go n none k = (unquote-IsCode n k.0, tt)
    go n (some v) k = (unquote-IsCode n k.0, unquote-IsCode v k.1)

split-IsCode : (c : ℕ) (s : Text) → All IsCode s → All (All IsCode) (split c s)
unfolding split
split-IsCode c [] h = (tt, tt)
split-IsCode c (d ∷ s) h = go (split c s) (split-IsCode c s h.1)
  where
    go :
        (r : List Text)
        → All (All IsCode) r
        → All
            (All IsCode)
            (if d == c then [] ∷ r else (elim r [ [] ↦ (d ∷ []) ∷ [] | p ∷ ps ↦ (d ∷ p) ∷ ps ]))
    go [] k = ground (arith, h)
    go (p ∷ ps) k = ground (arith, h, k)

fields_of-IsField : (ps : List Text) → All (All IsCode) ps → All IsField (fields_of ps)
unfolding fields_of
fields_of-IsField [] h = tt
fields_of-IsField (p ∷ ps) h = elim (Bool-cases (text_eq (read_pair p).0 (codes "submit"))) [
  | inl e ↦ rw e (fields_of-IsField ps h.1)
  | inr e ↦ rw e (read_pair-IsField p h.0, fields_of-IsField ps h.1)
]

query_string-IsCode : (s : Text) → All IsCode s → All IsCode (query_string s)
unfolding query_string
query_string-IsCode [] h = tt
query_string-IsCode (c ∷ s) h = ground (arith, h)

pub fields-IsField : (post_data : Text) → All IsCode post_data → All IsField (fields post_data)
unfolding fields
fields-IsField s h =
    fields_of-IsField (split b'&' (query_string s))
      (split-IsCode b'&' (query_string s) (query_string-IsCode s h))
