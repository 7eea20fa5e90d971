-- ===== src/Postform/Decode.antt =====
-- `unquote` of the standard library, with the two decoders under it: the percent signs of a text
-- of bytes, and UTF-8 with `errors='replace'`.
use solverr.Base.{
  ℕ, ◌+◌, ◌-◌, ◌*◌, ◌&&◌, Option, none, some, [], ◌∷◌, ◌++◌, ltb, leb, ◌==◌, if◌then◌else◌,
}
use mathlib.Core.List.{reverse}
use solverr.Base.Text.{Text}

-- The value of a hex digit; `none` for any other byte.
unfoldable pub hex_value : ℕ → Option ℕ
hex_value b =
    if leb b'0' b && leb b b'9'
    then some (b - 48)
    else if leb b'A' b && leb b b'F'
    then some (b - 55)
    else if leb b'a' b && leb b b'f'
    then some (b - 87)
    else none

-- The byte that `%de` stands for.
unfoldable pub hex_pair : ℕ → ℕ → Option ℕ
unfolding hex_value
hex_pair d e = elim (hex_value d) [
  | none ↦ none
  | some h ↦ elim (hex_value e) [ none ↦ none | some l ↦ some (16 * h + l) ]
]

-- `unquote_to_bytes`, and a browser's decoding of the URL: a percent sign without two hex digits
-- behind it stays.
unfoldable pub percent_decode : Text → Text
unfolding hex_pair
percent_decode [] = []
percent_decode (c ∷ []) = c ∷ []
percent_decode (c ∷ d ∷ []) = c ∷ percent_decode (d ∷ [])
percent_decode (c ∷ d ∷ e ∷ s) =
    let coded = percent_decode s in
    let plain = percent_decode (d ∷ e ∷ s) in
    elim (if c == b'%' then hex_pair d e else none) [ none ↦ c ∷ plain | some b ↦ b ∷ coded ]

-- A character of several bytes that is not complete: how many bytes are still to come, the bounds
-- of the next one, and the bits so far.
pub record Pending : Type 0 where
  pub missing : ℕ
  pub low : ℕ
  pub high : ℕ
  pub bits : ℕ

-- What a byte begins: a character of its own, a longer one, or nothing that is valid.
pub data Start : Type 0 where
  whole : ℕ → Start
  begin : Pending → Start

abbrev pub replacement : ℕ
replacement = 65533

unfoldable pub start : ℕ → Start
start b =
    if ltb b 128
    then whole b
    else if leb 194 b && leb b 223
    then begin (record { missing = 1; low = 128; high = 191; bits = b - 192 })
    else if b == 224
    then begin (record { missing = 2; low = 160; high = 191; bits = 0 })
    else if b == 237
    then begin (record { missing = 2; low = 128; high = 159; bits = 13 })
    else if leb 225 b && leb b 239
    then begin (record { missing = 2; low = 128; high = 191; bits = b - 224 })
    else if b == 240
    then begin (record { missing = 3; low = 144; high = 191; bits = 0 })
    else if leb 241 b && leb b 243
    then begin (record { missing = 3; low = 128; high = 191; bits = b - 240 })
    else if b == 244
    then begin (record { missing = 3; low = 128; high = 143; bits = 4 })
    else whole replacement

-- The pending character after a byte within its bounds: complete, or still pending.
unfoldable pub extend : Pending → ℕ → Start
extend p b =
    let bits = p.bits * 64 + (b - 128) in
    if p.missing == 1
    then whole bits
    else begin (record { missing = p.missing - 1; low = 128; high = 191; bits = bits })

-- `bytes.decode('utf-8', 'replace')`: a broken character is replaced, and the byte that broke it
-- begins the next one.
unfoldable pub utf8_decode : Option Pending → Text → Text
unfolding start extend
utf8_decode none [] = []
utf8_decode (some p) [] = replacement ∷ []
utf8_decode pending (b ∷ bs) =
    let follow : Start → Text =
      λ s. elim s [ whole c ↦ c ∷ utf8_decode none bs | begin q ↦ utf8_decode (some q) bs ] in
    elim pending [
      | none ↦ follow (start b)
      | some p ↦
          if leb p.low b && leb b p.high
          then follow (extend p b)
          else replacement ∷ follow (start b)
    ]

-- `unquote`: the runs of ASCII are decoded, what is between them stays. The accumulator is the run
-- so far, turned around.
unfoldable pub unquote_runs : Text → Text → Text
unfolding percent_decode utf8_decode
unquote_runs run [] = utf8_decode none (percent_decode (reverse run))
unquote_runs run (c ∷ s) =
    let further = unquote_runs (c ∷ run) s in
    let beyond = unquote_runs [] s in
    if ltb c 128 then further else utf8_decode none (percent_decode (reverse run)) ++ c ∷ beyond

unfoldable pub unquote : Text → Text
unfolding unquote_runs
unquote s = unquote_runs [] s
