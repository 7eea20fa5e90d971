-- ===== src/Detection.antt =====
-- detection.py: the markers of challenge pages, and the test of returned HTML.
use solverr.Base.{Bool, false, ◌||◌, Option, none, some, List, [], ◌∷◌, if◌then◌else◌}
use solverr.Base.Text.{Text, codes, starts_with, contains, lower, strip, cut}

abbrev pub access_denied_titles : List Text
access_denied_titles = codes "Access denied" ∷ codes "Attention Required! | Cloudflare" ∷ []

abbrev pub access_denied_selectors : List Text
access_denied_selectors =
    codes "div.cf-error-title span.cf-code-label span"
    ∷ codes "#cf-error-details div.cf-error-overview h1"
    ∷ []

abbrev pub challenge_titles : List Text
challenge_titles = codes "Just a moment..." ∷ codes "DDoS-Guard" ∷ []

abbrev pub challenge_selectors : List Text
challenge_selectors =
    codes "#cf-challenge-running"
    ∷ codes ".ray_id"
    ∷ codes ".attack-box"
    ∷ codes "#cf-please-wait"
    ∷ codes "#challenge-spinner"
    ∷ codes "#trk_jschal_js"
    ∷ codes "#turnstile-wrapper"
    ∷ codes ".lds-ring"
    ∷ codes "script[src*=\"/cdn-cgi/challenge-platform/\"]"
    ∷ codes "#challenge-form"
    ∷ codes "#challenge-stage"
    ∷ codes "td.info #js_info"
    ∷ codes "div.vc div.text-box h2"
    ∷ []

abbrev pub turnstile_selectors : List Text
turnstile_selectors = codes "input[name='cf-turnstile-response']" ∷ []

abbrev pub challenge_html_markers : List Text
challenge_html_markers =
    codes "window._cf_chl_opt"
    ∷ codes "cf-challenge-running"
    ∷ codes "id=\"challenge-form\""
    ∷ codes "id=\"challenge-stage\""
    ∷ codes "id=\"challenge-error"
    ∷ []

-- The text in front of the first `</title>`, if there is one.
unfoldable pub until_close : Text → Option Text
until_close [] = none
until_close (c ∷ s) =
    let rest = until_close s in
    if starts_with (c ∷ s) (codes "</title>")
    then some []
    else (elim rest [ none ↦ none | some t ↦ some (c ∷ t) ])

-- The first match of `<title[^>]*>(.*?)</title>` in lower-case text, with the dot for any
-- character: the group's text.
unfoldable pub find_title : Text → Option Text
unfolding until_close cut
find_title [] = none
find_title (c ∷ s) =
    let later = find_title s in
    let opened : Option Text = elim (cut b'>' s).1 [ none ↦ none | some body ↦ until_close body ] in
    if starts_with (c ∷ s) (codes "<title")
    then (elim opened [ none ↦ later | some t ↦ some t ])
    else later

unfoldable pub any_in : List Text → Text → Bool
unfolding contains
any_in [] s = false
any_in (t ∷ ts) s = contains s t || any_in ts s

unfoldable pub lower_all : List Text → List Text
unfolding lower
lower_all [] = []
lower_all (t ∷ ts) = lower t ∷ lower_all ts

-- `looks_like_challenge_html`; no text and the empty text are none. The markers are compared with
-- the text in lower case.
unfoldable pub looks_like_challenge_html : Option Text → Bool
unfolding find_title any_in lower_all strip
looks_like_challenge_html none = false
looks_like_challenge_html (some []) = false
looks_like_challenge_html (some (c ∷ html)) =
    let low = lower (c ∷ html) in
    let titled : Bool = elim (find_title low) [
      | none ↦ false
      | some t ↦ any_in (lower_all challenge_titles) (strip t)
    ] in
    titled || any_in challenge_html_markers low
