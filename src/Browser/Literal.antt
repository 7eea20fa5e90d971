-- ===== src/Browser/Literal.antt =====
-- How JavaScript reads what `json.dumps` writes of a text.
use solverr.Base.{
  ℕ, ltb→lt, ◌&&◌, suc, ◌+◌, ◌*◌, ◌/◌, ◌%◌, ◌<◌, ◌≤◌, ◌≡◌, refl, ap, sym, ◌∙◌, Option, none, some,
  List, [], ◌∷◌, ◌++◌, ltb, leb, if◌then◌else◌, arith, Bool-cases, inl, inr, append_assoc,
}
use solverr.Base.Text.{Text}
use solverr.Postform.Decode.{hex_value}
use solverr.Browser.Json.{
  hex_code, unicode_escape, high_half, low_half, letter_of, escape_code, escape, escape_all,
  dumps_text, units_of, units, letter_unit, Mode, plain, escaped, hex, goes, hex_move, move, emit,
  read_literal,
}

hex_value-hex_code : (d : ℕ) → d < 16 → hex_value (hex_code d) ≡ some d
unfolding hex_value
hex_value-hex_code d h = ground arith

move-hex_code : (n acc d : ℕ) → d < 16 → move (hex n acc) (hex_code d) ≡ hex_move n acc (some d)
unfolding move
move-hex_code n acc d h = ap (hex_move n acc) (hex_value-hex_code d h)

emit-nil : (o : Option (List ℕ × Text)) → emit [] o ≡ o
emit-nil none = refl
emit-nil (some o) = refl

emit-append : (a b : List ℕ) (o : Option (List ℕ × Text)) → emit (a ++ b) o ≡ emit a (emit b o)
emit-append a b none = refl
emit-append a b (some (us, rest)) = ap (λ l. some (l, rest)) (append_assoc a b us)

read-quote : (t : Text) → read_literal plain (b'"' ∷ t) ≡ some ([], t)
unfolding read_literal move
read-quote t = refl

read-goes :
    (m k : Mode) (c : ℕ) (s : Text) (out : List ℕ)
    → move m c ≡ goes out k
    → read_literal m (c ∷ s) ≡ emit out (read_literal k s)
unfolding read_literal
read-goes m k c s out h = ground arith

read-on :
    (m k : Mode) (c : ℕ) (s : Text)
    → move m c ≡ goes [] k
    → read_literal m (c ∷ s) ≡ read_literal k s
read-on m k c s h = read-goes m k c s [] h ∙ emit-nil (read_literal k s)

read-hex_code :
    (n acc d : ℕ) (s : Text)
    → d < 16
    → read_literal (hex (suc n) acc) (hex_code d ∷ s) ≡ read_literal (hex n (acc * 16 + d)) s
unfolding hex_move
read-hex_code n acc d s h =
    read-on (hex (suc n) acc) (hex n (acc * 16 + d)) (hex_code d) s (move-hex_code (suc n) acc d h)

read-hex_code_last :
    (acc d : ℕ) (s : Text)
    → d < 16
    → read_literal (hex 0 acc) (hex_code d ∷ s) ≡ emit ((acc * 16 + d) ∷ []) (read_literal plain s)
unfolding hex_move
read-hex_code_last acc d s h =
    read-goes (hex 0 acc) plain (hex_code d) s ((acc * 16 + d) ∷ []) (move-hex_code 0 acc d h)

digits_lem :
    (n : ℕ)
    → n < 65536
    → (((0 * 16 + n / 4096 % 16) * 16 + n / 256 % 16) * 16 + n / 16 % 16) * 16 + n % 16 ≡ n
digits_lem n h = omega (arith, h)

read-unicode_escape :
    (n : ℕ) (s : Text)
    → n < 65536
    → read_literal plain (unicode_escape n ++ s) ≡ emit (n ∷ []) (read_literal plain s)
unfolding unicode_escape move
read-unicode_escape n s h =
    let a = n / 4096 % 16 in
    let b = n / 256 % 16 in
    let c = n / 16 % 16 in
    let d = n % 16 in
    let t3 = hex_code d ∷ s in
    let t2 = hex_code c ∷ t3 in
    let t1 = hex_code b ∷ t2 in
    let t0 = hex_code a ∷ t1 in
    read-on plain escaped b'\\' (b'u' ∷ t0) refl
    ∙ read-on escaped (hex 3 0) b'u' t0 refl
    ∙ read-hex_code 2 0 a t1 (omega arith)
    ∙ read-hex_code 1 (0 * 16 + a) b t2 (omega arith)
    ∙ read-hex_code 0 ((0 * 16 + a) * 16 + b) c t3 (omega arith)
    ∙ read-hex_code_last (((0 * 16 + a) * 16 + b) * 16 + c) d s (omega arith)
    ∙ ap (λ u. emit (u ∷ []) (read_literal plain s)) (digits_lem n h)

-- A character that has a letter of its own behind the backslash.
read-letter :
    (l c : ℕ) (s : Text)
    → move escaped l ≡ goes (c ∷ []) plain
    → read_literal plain (b'\\' ∷ l ∷ s) ≡ emit (c ∷ []) (read_literal plain s)
unfolding move
read-letter l c s h =
    read-on plain escaped b'\\' (l ∷ s) refl ∙ read-goes escaped plain l s (c ∷ []) h

read-pair :
    (c : ℕ) (s : Text)
    → read_literal plain ((unicode_escape (high_half c) ++ unicode_escape (low_half c)) ++ s)
      ≡ emit (high_half c ∷ low_half c ∷ []) (read_literal plain s)
read-pair c s =
    ap (read_literal plain)
      (append_assoc (unicode_escape (high_half c)) (unicode_escape (low_half c)) s)
    ∙ read-unicode_escape (high_half c) (unicode_escape (low_half c) ++ s) (omega arith)
    ∙ ap (emit (high_half c ∷ [])) (read-unicode_escape (low_half c) s (omega arith))
    ∙ sym (emit-append (high_half c ∷ []) (low_half c ∷ []) (read_literal plain s))

read-plain :
    (c : ℕ) (s : Text)
    → move plain c ≡ goes (c ∷ []) plain
    → read_literal plain (c ∷ s) ≡ emit (c ∷ []) (read_literal plain s)
read-plain c s h = read-goes plain plain c s (c ∷ []) h

letter_of-some :
    (c l : ℕ) → letter_of c ≡ some l → (move escaped l ≡ goes (c ∷ []) plain) × (c < 65536)
unfolding letter_of move letter_unit
letter_of-some c l h = (ground (arith, h), ground (arith, h))

letter_of-none :
    (c : ℕ) → letter_of c ≡ none → 32 ≤ c → c < 65536 → move plain c ≡ goes (c ∷ []) plain
unfolding letter_of move
letter_of-none c h k b = ground (arith, h)

read-escape_code :
    (c : ℕ) (s : Text)
    → read_literal plain (escape_code c ++ s) ≡ emit (units_of c) (read_literal plain s)
unfolding escape_code
read-escape_code c s = elim (Bool-cases (ltb c 65536)) [
  | inl e ↦ rw (e, escape_code) (read-unicode_escape c s (ltb→lt c 65536 e))
  | inr e ↦ rw (e, escape_code) (read-pair c s)
]

read-escape :
    (c : ℕ) (s : Text)
    → read_literal plain (escape c ++ s) ≡ emit (units_of c) (read_literal plain s)
unfolding escape
read-escape c s = go (letter_of c) refl
  where
    small :
        c < 65536 → emit (c ∷ []) (read_literal plain s) ≡ emit (units_of c) (read_literal plain s)
    small h = ground arith

    go :
        (o : Option ℕ)
        → letter_of c ≡ o
        → read_literal plain (
            (elim o [
              | some l ↦ b'\\' ∷ l ∷ []
              | none ↦ if leb 32 c && leb c 126 then c ∷ [] else escape_code c
            ])
            ++ s)
          ≡ emit (units_of c) (read_literal plain s)
    go (some l) e = let f = letter_of-some c l e in read-letter l c s f.0 ∙ small f.1
    go none e = elim (Bool-cases (leb 32 c && leb c 126)) [
      | inl p ↦
          let h : 32 ≤ c × c < 65536 = ground arith in
          rw p (read-plain c s (letter_of-none c e h.0 h.1) ∙ small h.1)
      | inr p ↦ rw p (read-escape_code c s)
    ]

read-escape_all : (s t : Text) → read_literal plain (escape_all s ++ b'"' ∷ t) ≡ some (units s, t)
unfolding escape_all units
read-escape_all [] t = read-quote t
read-escape_all (c ∷ s) t =
    ap (read_literal plain) (append_assoc (escape c) (escape_all s) (b'"' ∷ t))
    ∙ read-escape c (escape_all s ++ b'"' ∷ t)
    ∙ ap (emit (units_of c)) (read-escape_all s t)

-- Whatever a text holds, JavaScript reads the literal that `json.dumps` makes of it as that text, and
-- ends it exactly where it was written: what stands behind it is read as the program has it, so no
-- character of the text can reach the code around it.
pub read_literal-dumps_text :
    (s t : Text)
    → (rest : Text) × (dumps_text s ++ t ≡ b'"' ∷ rest)
      × (read_literal plain rest ≡ some (units s, t))
unfolding dumps_text
read_literal-dumps_text s t = (
  escape_all s ++ b'"' ∷ t,
  ap (λ r. b'"' ∷ r) (append_assoc (escape_all s) (b'"' ∷ []) t),
  read-escape_all s t,
)
