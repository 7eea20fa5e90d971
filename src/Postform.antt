-- ===== src/Postform.antt =====
-- src/postform.py: the HTML form that submits itself, by which a POST is made from a page load.
-- A text is a list of code points, none of them a surrogate. `html.escape`, `quote` and `unquote`
-- are the standard library's; `quote` and `unquote` go through UTF-8.
mod Codes
pub mod Decode
mod Document
mod Fragment
mod Page
pub mod RoundTrip
mod Tests
use solverr.Base.{
  ℕ, zero, suc, ◌+◌, ◌-◌, ◌*◌, ◌/◌, ◌%◌, Bool, true, false, not, ◌&&◌, ◌||◌, Option, none, some,
  List, [], ◌∷◌, ◌++◌, ltb, leb, ◌==◌, if◌then◌else◌,
}
use solverr.Base.Text.{Text, codes, cut, split, text_eq}

-- `html.escape(s, quote=True)` on a code point.
unfoldable pub escape_code : ℕ → Text
escape_code c =
    if c == b'&'
    then codes "&amp;"
    else if c == b'<'
    then codes "&lt;"
    else if c == b'>'
    then codes "&gt;"
    else if c == b'"'
    then codes "&quot;"
    else if c == 39
    then codes "&#x27;"
    else c ∷ []

unfoldable pub escape : Text → Text
unfolding escape_code
escape [] = []
escape (c ∷ s) = escape_code c ++ escape s

-- The bytes of a code point in UTF-8.
unfoldable pub utf8_code : ℕ → Text
utf8_code c =
    if ltb c 128
    then c ∷ []
    else if ltb c 2048
    then (192 + c / 64) ∷ (128 + c % 64) ∷ []
    else if ltb c 65536
    then (224 + c / 4096) ∷ (128 + c / 64 % 64) ∷ (128 + c % 64) ∷ []
    else (240 + c / 262144) ∷ (128 + c / 4096 % 64) ∷ (128 + c / 64 % 64) ∷ (128 + c % 64) ∷ []

unfoldable pub utf8 : Text → Text
unfolding utf8_code
utf8 [] = []
utf8 (c ∷ s) = utf8_code c ++ utf8 s

-- The bytes that `quote` leaves alone: letters, digits, `_.-~`, and `/`, its default `safe`.
unfoldable pub is_safe : ℕ → Bool
is_safe b =
    (leb b'a' b && leb b b'z')
    || (leb b'A' b && leb b b'Z')
    || (leb b'0' b && leb b b'9')
    || b == b'_'
    || b == b'.'
    || b == b'-'
    || b == b'~'
    || b == b'/'

unfoldable pub hex_digit : ℕ → ℕ
hex_digit n = if ltb n 10 then b'0' + n else 55 + n

unfoldable pub quote_byte : ℕ → Text
unfolding is_safe hex_digit
quote_byte b = if is_safe b then b ∷ [] else b'%' ∷ hex_digit (b / 16) ∷ hex_digit (b % 16) ∷ []

unfoldable pub quote_bytes : Text → Text
unfolding quote_byte
quote_bytes [] = []
quote_bytes (b ∷ bs) = quote_byte b ++ quote_bytes bs

-- `quote(text)`, for a text without surrogates; of one with a surrogate it raises.
unfoldable pub quote : Text → Text
unfolding quote_bytes utf8
quote s = quote_bytes (utf8 s)

-- `_attr`
unfoldable pub attr : Text → Text
unfolding quote escape
attr text = quote (escape text)
