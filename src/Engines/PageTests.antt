-- ===== src/Engines/PageTests.antt =====
-- src/engines/chrome_engine.py: the settle loop and the response headers at concrete inputs.
use native.Mathlib.Decide.{ℕ_discrete}
use solverr.Base.{◌*◌, ◌≡◌, refl, true, Option, none, some, List, [], ◌∷◌}
use solverr.Base.Text.{Text-discrete, codes, cut}
use solverr.Engines.Headers.{Entry, response_headers, same_document}
use solverr.Engines.Pressing.{PageState, settle, quiet, moving}

abbrev loaded : PageState
loaded = record {
  href = codes "http://a/";
  ready_state = codes "complete";
  time_origin = 5;
  resources = 2;
}

settle-quiet : settle 50 9_000_000 none 0 0 (λ i. (i * 100_000, some loaded)) ≡ quiet
unfolding settle Text-discrete ℕ_discrete
settle-quiet = refl

settle-moving : settle 50 9_000_000 none 0 0 (λ i. (i * 100_000, none)) ≡ moving
unfolding settle
settle-moving = refl

-- A frame's document comes behind the page's.
abbrev log : List (Option Entry)
log =
    none
    ∷ some (record {
      is_response = true;
      is_document = true;
      url = codes "http://a/x";
      headers = (codes "server", codes "a") ∷ [];
    })
    ∷ some (record {
      is_response = true;
      is_document = true;
      url = codes "http://frame/";
      headers = (codes "server", codes "b") ∷ [];
    })
    ∷ []

headers-page :
    response_headers true (codes "http://a/x#top") (some log) ≡ (codes "server", codes "a") ∷ []
unfolding response_headers same_document Text-discrete ℕ_discrete cut
headers-page = refl

headers-last :
    response_headers true (codes "http://other/") (some log) ≡ (codes "server", codes "b") ∷ []
unfolding response_headers same_document Text-discrete ℕ_discrete cut
headers-last = refl
