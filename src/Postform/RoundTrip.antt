-- ===== src/Postform/RoundTrip.antt =====
-- What a browser makes of the form's page: it decodes the percent signs of the whole URL, then
-- reads the markup, and in each attribute the character references.
use mathlib.Core.List.{append_assoc}
use solverr.Base.{
  All-append, ℕ, zero, suc, ◌+◌, ◌*◌, ◌/◌, ◌%◌, ◌<◌, ◌≡◌, ◌≢◌, refl, ap, sym, ◌∙◌, true, Option,
  none, some, [], ◌∷◌, ◌++◌, if◌then◌else◌, All, arith, Bool-cases, inl, inr,
}
use solverr.Base.Text.{Text, codes, cut, starts_with, Lacks, Lacks-append, cut-append}
use solverr.Postform.Decode.{hex_value, hex_pair, percent_decode}
use solverr.Postform.{
  escape_code, escape, utf8_code, utf8, is_safe, hex_digit, quote_byte, quote_bytes, quote, attr,
}

abbrev pub IsCode : ℕ → Type 0
IsCode c = c < 1114112

abbrev pub IsByte : ℕ → Type 0
IsByte b = b < 256

-- The character reference that a text begins with: its character, and the length behind the
-- ampersand.
unfoldable pub reference : Text → Option (ℕ × ℕ)
reference s =
    if starts_with s (codes "&amp;")
    then some (38, 4)
    else if starts_with s (codes "&lt;")
    then some (60, 3)
    else if starts_with s (codes "&gt;")
    then some (62, 3)
    else if starts_with s (codes "&quot;")
    then some (34, 5)
    else if starts_with s (codes "&#x27;")
    then some (39, 5)
    else none

-- A text with its character references read. The number is what is still to skip of one.
unfoldable pub unescape : ℕ → Text → Text
unfolding reference
unescape skip [] = []
unescape (suc skip) (c ∷ s) = unescape skip s
unescape zero (c ∷ s) = elim (reference (c ∷ s)) [
  | none ↦ c ∷ unescape 0 s
  | some (d, n) ↦ d ∷ unescape n s
]

-- The value of an attribute, up to its quotation mark, and what stands behind it.
unfoldable pub read_attr : Text → Text × Option Text
unfolding unescape cut
read_attr s = (unescape 0 (cut b'"' s).0, (cut b'"' s).1)

pub percent_decode-cons :
    (c : ℕ) (t : Text) → c ≢ b'%' → percent_decode (c ∷ t) ≡ c ∷ percent_decode t
unfolding percent_decode
percent_decode-cons c [] h = refl
percent_decode-cons c (d ∷ []) h = refl
percent_decode-cons c (d ∷ e ∷ t) h = ground arith

hex_value-hex_digit : (n : ℕ) → n < 16 → hex_value (hex_digit n) ≡ some n
unfolding hex_value hex_digit
hex_value-hex_digit n h = ground arith

percent_decode-pair :
    (d e h l : ℕ) (t : Text)
    → hex_value d ≡ some h
    → hex_value e ≡ some l
    → percent_decode (b'%' ∷ d ∷ e ∷ t) ≡ (16 * h + l) ∷ percent_decode t
unfolding percent_decode hex_pair
percent_decode-pair d e h l t p q = ground (arith, p, q)

percent_decode-hex :
    (b : ℕ) (t : Text)
    → IsByte b
    → percent_decode (b'%' ∷ hex_digit (b / 16) ∷ hex_digit (b % 16) ∷ t) ≡ b ∷ percent_decode t
percent_decode-hex b t h =
    percent_decode-pair (hex_digit (b / 16)) (hex_digit (b % 16)) (b / 16) (b % 16) t
      (hex_value-hex_digit (b / 16) (omega (arith, h)))
      (hex_value-hex_digit (b % 16) (omega (arith, h)))
    ∙ ap (λ n. n ∷ percent_decode t) (omega arith)

is_safe-percent : (b : ℕ) → is_safe b ≡ true → b ≢ b'%'
unfolding is_safe
is_safe-percent b h = ground arith

percent_decode-quote_byte :
    (b : ℕ) (t : Text) → IsByte b → percent_decode (quote_byte b ++ t) ≡ b ∷ percent_decode t
unfolding quote_byte
percent_decode-quote_byte b t h = elim (Bool-cases (is_safe b)) [
  | inl e ↦ rw e (percent_decode-cons b t (is_safe-percent b e))
  | inr e ↦ rw e (percent_decode-hex b t h)
]

percent_decode-quote_bytes :
    (bs t : Text) → All IsByte bs → percent_decode (quote_bytes bs ++ t) ≡ bs ++ percent_decode t
unfolding quote_bytes
percent_decode-quote_bytes [] t h = refl
percent_decode-quote_bytes (b ∷ bs) t h = rw append_assoc (
    percent_decode-quote_byte b (quote_bytes bs ++ t) h.0
    ∙ ap (λ r. b ∷ r) (percent_decode-quote_bytes bs t h.1))

utf8_code-IsByte : (c : ℕ) → IsCode c → All IsByte (utf8_code c)
unfolding utf8_code
utf8_code-IsByte c h = ground arith

utf8-IsByte : (s : Text) → All IsCode s → All IsByte (utf8 s)
unfolding utf8
utf8-IsByte [] h = tt
utf8-IsByte (c ∷ s) h =
    All-append IsByte (utf8_code c) (utf8 s) (utf8_code-IsByte c h.0) (utf8-IsByte s h.1)

escape_code-IsCode : (c : ℕ) → IsCode c → All IsCode (escape_code c)
unfolding escape_code
escape_code-IsCode c h = ground arith

escape-IsCode : (s : Text) → All IsCode s → All IsCode (escape s)
unfolding escape
escape-IsCode [] h = tt
escape-IsCode (c ∷ s) h =
    All-append IsCode (escape_code c) (escape s) (escape_code-IsCode c h.0) (escape-IsCode s h.1)

pub percent_decode-attr :
    (s t : Text) → All IsCode s → percent_decode (attr s ++ t) ≡ utf8 (escape s) ++ percent_decode t
unfolding attr quote
percent_decode-attr s t h =
    percent_decode-quote_bytes (utf8 (escape s)) t (utf8-IsByte (escape s) (escape-IsCode s h))

-- No quotation mark is left, so that the attribute is not closed early.
utf8_code-Lacks : (c : ℕ) → c ≢ b'"' → Lacks b'"' (utf8_code c)
unfolding utf8_code
utf8_code-Lacks c h = ground arith

utf8-append : (s t : Text) → utf8 (s ++ t) ≡ utf8 s ++ utf8 t
unfolding utf8
utf8-append [] t = refl
utf8-append (c ∷ s) t =
    ap (λ r. utf8_code c ++ r) (utf8-append s t)
    ∙ sym (append_assoc (utf8_code c) (utf8 s) (utf8 t))

utf8-Lacks : (s : Text) → Lacks b'"' s → Lacks b'"' (utf8 s)
unfolding utf8
utf8-Lacks [] h = tt
utf8-Lacks (c ∷ s) h =
    Lacks-append b'"' (utf8_code c) (utf8 s) (utf8_code-Lacks c h.0) (utf8-Lacks s h.1)

escape_code-Lacks : (c : ℕ) → Lacks b'"' (escape_code c)
unfolding escape_code
escape_code-Lacks c = ground arith

escape-Lacks : (s : Text) → Lacks b'"' (escape s)
unfolding escape
escape-Lacks [] = tt
escape-Lacks (c ∷ s) =
    Lacks-append b'"' (escape_code c) (escape s) (escape_code-Lacks c) (escape-Lacks s)

-- A text in which no character reference begins is read as it is.
unescape-Lacks : (s t : Text) → Lacks b'&' s → unescape 0 (s ++ t) ≡ s ++ unescape 0 t
unfolding unescape reference
unescape-Lacks [] t h = refl
unescape-Lacks (c ∷ s) t h = ground (arith, unescape-Lacks s t h.1, h.0)

utf8_code-reference : (c : ℕ) → c ≢ b'&' → Lacks b'&' (utf8_code c)
unfolding utf8_code
utf8_code-reference c h = ground arith

unescape-escape_code :
    (c : ℕ) (t : Text) → unescape 0 (utf8 (escape_code c) ++ t) ≡ utf8_code c ++ unescape 0 t
unfolding unescape reference escape_code utf8 utf8_code
unescape-escape_code c t = ground (arith, unescape-Lacks (utf8_code c) t, utf8_code-reference c)

unescape-escape : (s : Text) → unescape 0 (utf8 (escape s)) ≡ utf8 s
unfolding escape utf8 unescape
unescape-escape [] = refl
unescape-escape (c ∷ s) =
    ap (unescape 0) (utf8-append (escape_code c) (escape s))
    ∙ unescape-escape_code c (utf8 (escape s))
    ∙ ap (λ r. utf8_code c ++ r) (unescape-escape s)

pub read_attr-attr :
    (s t : Text)
    → All IsCode s
    → read_attr (percent_decode (attr s ++ b'"' ∷ t)) ≡ (utf8 s, some (percent_decode t))
unfolding read_attr
read_attr-attr s t h =
    let decoded : percent_decode (attr s ++ b'"' ∷ t) ≡ utf8 (escape s) ++ b'"' ∷ percent_decode t =
      percent_decode-attr s (b'"' ∷ t) h
      ∙ ap (λ r. utf8 (escape s) ++ r) (percent_decode-cons b'"' t (ground arith)) in
    let parted : cut b'"' (percent_decode (attr s ++ b'"' ∷ t))
        ≡ (utf8 (escape s), some (percent_decode t)) =
      ap (cut b'"') decoded
      ∙ cut-append b'"' (utf8 (escape s)) (percent_decode t)
          (utf8-Lacks (escape s) (escape-Lacks s)) in
    ap (λ r. (unescape 0 r.0, r.1)) parted
    ∙ ap (λ u. (u, some (percent_decode t))) (unescape-escape s)
