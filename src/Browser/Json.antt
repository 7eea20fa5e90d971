-- ===== src/Browser/Json.antt =====
-- `json.dumps` of a text, and the text that JavaScript reads in such a literal. JavaScript's texts are
-- lists of UTF-16 units.
use solverr.Base.{
  ℕ, zero, suc, ◌||◌, ◌+◌, ◌-◌, ◌*◌, ◌/◌, ◌%◌, ◌&&◌, Option, none, some, List, [], ◌∷◌, ◌++◌, ltb,
  leb, ◌==◌, if◌then◌else◌,
}
use solverr.Base.Text.{Text}
use solverr.Postform.Decode.{hex_value}

abbrev pub hex_code : ℕ → ℕ
hex_code d = if ltb d 10 then d + 48 else d + 87

-- `'\\u{0:04x}'.format(n)`
unfoldable pub unicode_escape : ℕ → Text
unicode_escape n =
    b'\\'
    ∷ b'u'
    ∷ hex_code (n / 4096 % 16)
    ∷ hex_code (n / 256 % 16)
    ∷ hex_code (n / 16 % 16)
    ∷ hex_code (n % 16)
    ∷ []

-- The halves of a code point beyond the first 65536.
abbrev pub high_half : ℕ → ℕ
high_half c = 55296 + (c - 65536) / 1024 % 1024

abbrev pub low_half : ℕ → ℕ
low_half c = 56320 + (c - 65536) % 1024

-- The letter that stands for a character behind a backslash.
unfoldable pub letter_of : ℕ → Option ℕ
letter_of c =
    if c == b'"'
    then some b'"'
    else if c == b'\\'
    then some b'\\'
    else if c == 10
    then some b'n'
    else if c == 13
    then some b'r'
    else if c == 9
    then some b't'
    else if c == 12
    then some b'f'
    else if c == 8
    then some b'b'
    else none

unfoldable pub escape_code : ℕ → Text
unfolding unicode_escape
escape_code c =
    if ltb c 65536
    then unicode_escape c
    else unicode_escape (high_half c) ++ unicode_escape (low_half c)

-- One character of a literal, where `ensure_ascii` holds.
unfoldable pub escape : ℕ → Text
unfolding letter_of escape_code
escape c = elim (letter_of c) [
  | some l ↦ b'\\' ∷ l ∷ []
  | none ↦ if leb 32 c && leb c 126 then c ∷ [] else escape_code c
]

unfoldable pub escape_all : Text → Text
unfolding escape
escape_all [] = []
escape_all (c ∷ s) = escape c ++ escape_all s

unfoldable pub dumps_text : Text → Text
unfolding escape_all
dumps_text s = b'"' ∷ (escape_all s ++ (b'"' ∷ []))

-- The units of a character, and of a text.
abbrev pub units_of : ℕ → List ℕ
units_of c = if ltb c 65536 then c ∷ [] else high_half c ∷ low_half c ∷ []

unfoldable pub units : Text → List ℕ
units [] = []
units (c ∷ s) = units_of c ++ units s

-- The unit that a letter behind a backslash stands for.
unfoldable pub letter_unit : ℕ → ℕ
letter_unit c =
    if c == b'n'
    then 10
    else if c == b'r'
    then 13
    else if c == b't'
    then 9
    else if c == b'f'
    then 12
    else if c == b'b'
    then 8
    else if c == b'v'
    then 11
    else c

-- Where a reader of a literal stands: in its text, behind a backslash, or in the digits behind `\u`,
-- with how many are to come and what the ones in front stand for.
pub data Mode : Type 0 where
  plain : Mode
  escaped : Mode
  hex : ℕ → ℕ → Mode

-- What a character does: it ends the literal, it is no part of one, or it goes on with some units.
pub data Move : Type 0 where
  ends : Move
  bad : Move
  goes : List ℕ → Mode → Move

unfoldable pub hex_move : ℕ → ℕ → Option ℕ → Move
hex_move n acc none = bad
hex_move zero acc (some k) = goes ((acc * 16 + k) ∷ []) plain
hex_move (suc n) acc (some k) = goes [] (hex n (acc * 16 + k))

unfoldable pub move : Mode → ℕ → Move
unfolding hex_move letter_unit hex_value
move plain c =
    if c == b'"'
    then ends
    else if c == b'\\'
    then goes [] escaped
    else if c == 10 || c == 13
    then bad
    else goes (units_of c) plain
move escaped c = if c == b'u' then goes [] (hex 3 0) else goes (letter_unit c ∷ []) plain
move (hex n acc) c = hex_move n acc (hex_value c)

abbrev pub emit : List ℕ → Option (List ℕ × Text) → Option (List ℕ × Text)
emit out none = none
emit out (some (us, rest)) = some (out ++ us, rest)

-- A text between double quotes as JavaScript reads it, behind its first quote: its units, and what
-- stands behind its last quote; `none` where it does not end. `\x`, `\u{}`, octal escapes and line
-- continuations are left out.
unfoldable pub read_literal : Mode → Text → Option (List ℕ × Text)
unfolding move
read_literal m [] = none
read_literal m (c ∷ s) = elim (move m c) [
  | ends ↦ some ([], s)
  | bad ↦ none
  | goes out n ↦ emit out (read_literal n s)
]
