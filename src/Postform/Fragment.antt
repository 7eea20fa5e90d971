-- ===== src/Postform/Fragment.antt =====
-- A browser takes what stands behind a `#` of a `data:` URL for its fragment: the page has no `#`.
use solverr.Base.{ℕ, ◌≡◌, refl, List, [], ◌∷◌, ◌++◌, arith}
use solverr.Base.Text.{Text, Lacks, Lacks-append, cut, before}
use solverr.Postform.{is_safe, hex_digit, quote_byte, quote_bytes, quote, utf8, escape, attr}
use solverr.Postform.Page.{
  fields, name_markup, value_markup, method_markup, input_end, input, inputs, page_start,
  action_markup, page_end, build_post_html,
}

quote_byte-Lacks : (b : ℕ) → Lacks b'#' (quote_byte b)
unfolding quote_byte hex_digit is_safe
quote_byte-Lacks b = ground arith

quote_bytes-Lacks : (bs : Text) → Lacks b'#' (quote_bytes bs)
unfolding quote_bytes
quote_bytes-Lacks [] = tt
quote_bytes-Lacks (b ∷ bs) =
    Lacks-append b'#' (quote_byte b) (quote_bytes bs) (quote_byte-Lacks b) (quote_bytes-Lacks bs)

attr-Lacks : (s : Text) → Lacks b'#' (attr s)
unfolding attr quote
attr-Lacks s = quote_bytes-Lacks (utf8 (escape s))

input-Lacks : (f : Text × Text) → Lacks b'#' (input f)
unfolding input
input-Lacks (name, value) =
    Lacks-append b'#' name_markup (attr name ++ (value_markup ++ (attr value ++ input_end)))
      (ground arith)
      (Lacks-append b'#' (attr name) (value_markup ++ (attr value ++ input_end)) (attr-Lacks name) (
        Lacks-append b'#' value_markup (attr value ++ input_end) (ground arith)
          (Lacks-append b'#' (attr value) input_end (attr-Lacks value) (ground arith))))

inputs-Lacks : (fs : List (Text × Text)) → Lacks b'#' (inputs fs)
unfolding inputs
inputs-Lacks [] = tt
inputs-Lacks (f ∷ fs) = Lacks-append b'#' (input f) (inputs fs) (input-Lacks f) (inputs-Lacks fs)

build_post_html-Lacks : (url post_data : Text) → Lacks b'#' (build_post_html url post_data)
unfolding build_post_html
build_post_html-Lacks url post_data =
    let form = inputs (fields post_data) ++ page_end in
    let action = attr url ++ (method_markup ++ form) in
    let form_lacks : Lacks b'#' form =
      Lacks-append b'#' (inputs (fields post_data)) page_end (inputs-Lacks (fields post_data))
        (ground arith) in
    let action_lacks : Lacks b'#' action =
      Lacks-append b'#' (attr url) (method_markup ++ form) (attr-Lacks url)
        (Lacks-append b'#' method_markup form (ground arith) form_lacks) in
    Lacks-append b'#' page_start (action_markup ++ action) (ground arith)
      (Lacks-append b'#' action_markup action (ground arith) action_lacks)

before-Lacks : (c : ℕ) (s : Text) → Lacks c s → before c s ≡ s
unfolding cut
before-Lacks c [] h = refl
before-Lacks c (d ∷ s) h = ground (arith, before-Lacks c s h.1, h.0)

pub before-build_post_html :
    (url post_data : Text)
    → before b'#' (build_post_html url post_data) ≡ build_post_html url post_data
before-build_post_html url post_data =
    before-Lacks b'#' (build_post_html url post_data) (build_post_html-Lacks url post_data)
