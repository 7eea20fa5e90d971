-- ===== src/Postform/Tests.antt =====
-- src/postform.py at concrete inputs.
use native.Mathlib.Decide.{ℕ_discrete}
use solverr.Base.{◌≡◌, refl, [], ◌∷◌, ◌++◌}
use solverr.Base.Text.{Text, Text-discrete, codes}
use solverr.Postform.Decode.{unquote, replacement}
use solverr.Postform.Page.{fields}
use solverr.Postform.{attr}

abbrev url : Text
url = codes "http://a/?q=\"50%\"#top"

abbrev post_data : Text
post_data = codes "?a=%22&submit=x&b=%3C%C3%A9"

attr-quotes : attr (codes "a\"<b") ≡ codes "a%26quot%3B%26lt%3Bb"
unfolding attr
attr-quotes = refl

unquote-broken : unquote (codes "%C3%A9%zz%E2%82+") ≡ 233 ∷ codes "%zz" ++ replacement ∷ codes "+"
unfolding unquote
unquote-broken = refl

fields-submit : fields post_data ≡ (codes "a", codes "\"") ∷ (codes "b", b'<' ∷ 233 ∷ []) ∷ []
unfolding fields unquote Text-discrete ℕ_discrete
fields-submit = refl
