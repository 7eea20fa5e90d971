-- ===== src/Postform/Document.antt =====
-- The whole page of the form, as a browser reads it that was sent to it as a `data:` URL.
use mathlib.Core.Option
use solverr.Base.{
  ℕ, zero, suc, ◌<◌, ◌⊎◌, Option, none, some, List, [], ◌∷◌, map, if◌then◌else◌, ◌==◌,
}
use solverr.Base.Text.{Text, codes}
use solverr.Postform.Page.{name_markup, page_start, action_markup}
use solverr.Postform.RoundTrip.{IsCode, read_attr}
use solverr.Postform.{utf8}

-- What stands behind a piece of markup that the text must begin with.
unfoldable pub expect : Text → Text → Option Text
expect [] s = some s
expect (c ∷ m) [] = none
expect (c ∷ m) (d ∷ s) = if d == c then expect m s else none

abbrev closed : Text × Option Text → Option (Text × Text)
closed (v, none) = none
closed (v, some t) = some (v, t)

-- An attribute behind a piece of markup, and the text behind its quotation mark.
unfoldable pub read_field : Text → Text → Option (Text × Text)
unfolding expect read_attr
read_field markup s = elim (expect markup s) [ none ↦ none | some t ↦ closed (read_attr t) ]

abbrev value_start : Text
value_start = codes " value=\""

abbrev input_close : Text
input_close = codes "><br>"

abbrev method_start : Text
method_start = codes " method=\"POST\">"

-- The input elements in front of anything else, with what stands behind them; at most the given
-- number less one.
unfoldable pub read_inputs : ℕ → Text → Option (List (Text × Text) × Text)
unfolding read_field expect
read_inputs zero s = none
read_inputs (suc n) s = elim (read_field name_markup s) [
  | none ↦ some ([], s)
  | some (name, t) ↦ elim (read_field value_start t) [
    | none ↦ none
    | some (value, u) ↦ elim (expect input_close u) [
      | none ↦ none
      | some w ↦ Option.map (λ r. ((name, value) ∷ r.0, r.1)) (read_inputs n w)
    ]
  ]
]

-- The action of the form and its fields, from the page.
unfoldable pub read_form : ℕ → Text → Option (Text × (List (Text × Text) × Text))
unfolding read_inputs read_field expect
read_form n s = elim (expect page_start s) [
  | none ↦ none
  | some t ↦ elim (read_field action_markup t) [
    | none ↦ none
    | some (action, u) ↦ elim (expect method_start u) [
      | none ↦ none
      | some w ↦ Option.map (λ r. (action, r)) (read_inputs n w)
    ]
  ]
]

-- The bytes that a field is sent as.
abbrev pub bytes_of : Text × Text → Text × Text
bytes_of (name, value) = (utf8 name, utf8 value)

-- A code point that UTF-8 has bytes for: no surrogate.
abbrev pub IsScalar : ℕ → Type 0
IsScalar c = IsCode c × ((c < 55296) ⊎ (57343 < c))
