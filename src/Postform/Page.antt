-- ===== src/Postform/Page.antt =====
-- src/postform.py: `build_post_html`.
use solverr.Base.{none, some, List, [], ◌∷◌, ◌++◌, ◌==◌, if◌then◌else◌}
use solverr.Base.Text.{Text, Text-discrete, codes, cut, split, text_eq}
use native.Mathlib.Decide.{ℕ_discrete}
use solverr.Postform.Decode.{unquote}
use solverr.Postform.{attr}

-- The post data without one question mark in front.
unfoldable pub query_string : Text → Text
query_string [] = []
query_string (c ∷ s) = if c == b'?' then s else c ∷ s

-- A pair's name and value; a pair without `=` has the empty value. `unquote` raises on no text.
unfoldable pub read_pair : Text → Text × Text
unfolding cut unquote
read_pair pair =
    let (name, value) = cut b'=' pair in
    (unquote name, elim value [ none ↦ [] | some v ↦ unquote v ])

-- The fields of the form, in order: a field named `submit` would hide the form's own method.
unfoldable pub fields_of : List Text → List (Text × Text)
unfolding read_pair Text-discrete ℕ_discrete
fields_of [] = []
fields_of (pair ∷ pairs) =
    let rest = fields_of pairs in
    if text_eq (read_pair pair).0 (codes "submit") then rest else read_pair pair ∷ rest

unfoldable pub fields : Text → List (Text × Text)
unfolding fields_of query_string split
fields post_data = fields_of (split b'&' (query_string post_data))

-- The markup in front of a field's name, between its name and its value, and behind its value.
abbrev pub name_markup : Text
name_markup = codes "<input type=\"text\" name=\""

abbrev pub value_markup : Text
value_markup = codes "\" value=\""

abbrev pub input_end : Text
input_end = codes "\"><br>"

unfoldable pub input : Text × Text → Text
unfolding attr
input (name, value) = name_markup ++ (attr name ++ (value_markup ++ (attr value ++ input_end)))

unfoldable pub inputs : List (Text × Text) → Text
unfolding input
inputs [] = []
inputs (f ∷ fs) = input f ++ inputs fs

abbrev pub page_start : Text
page_start = codes "\n        <!DOCTYPE html>\n        <html>\n        <body>\n            "

abbrev pub action_markup : Text
action_markup = codes "<form id=\"hackForm\" action=\""

abbrev pub method_markup : Text
method_markup = codes "\" method=\"POST\">"

abbrev pub page_end : Text
page_end =
    codes
      "</form>\n            <script>document.getElementById('hackForm').submit();</script>\n        </body>\n        </html>"

-- `build_post_html`
unfoldable pub build_post_html : Text → Text → Text
unfolding attr inputs fields
build_post_html url post_data =
    page_start
    ++ (action_markup ++ (attr url ++ (method_markup ++ (inputs (fields post_data) ++ page_end))))
