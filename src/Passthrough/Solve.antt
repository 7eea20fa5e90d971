-- ===== src/Passthrough/Solve.antt =====
-- passthrough.py: `_solve`, the request that is put to the service and what is made of its answer.
use solverr.Base.{ℕ, zero, suc, Bool, false, Option, none, some, List, [], if◌then◌else◌}
use solverr.Base.Int.{pos}
use solverr.Base.Text.{Text, codes, text_eq}
use solverr.Base.Value.{Value, int, str, Fields, field, end}
use solverr.Service.{Result, ok, err, SolveResult}
use solverr.Passthrough.{Settings, target, session_of}
use solverr.Passthrough.Handle.{Solved}

-- The request, with the configured proxy if there is one.
unfoldable pub request_for : Settings → Option Value → Text × Text → Fields
unfolding target session_of
request_for s proxy place = field (codes "cmd") (str (codes "request.get")) (
    field (codes "url") (str (target place)) (
      field (codes "maxTimeout") (int (pos s.timeout_ms)) (
        field (codes "session") (str (session_of place.0))
          (elim proxy [ none ↦ end | some p ↦ field (codes "proxy") p end ]))))

abbrev pub text_or_empty : Option Text → Text
text_or_empty none = []
text_or_empty (some t) = t

-- `res.solution.status or 200`
abbrev pub status_or : ℕ → ℕ
status_or zero = 200
status_or (suc n) = suc n

abbrev pub is_pdf : Option Text → Bool
is_pdf none = false
is_pdf (some kind) = text_eq kind (codes "application/pdf")

-- What `_solve` returns for an answer of the service, with `base64.b64decode`, which may raise, and
-- the encoding as UTF-8. `none` is an exception.
unfoldable pub solved_page :
    (Text → Option (List ℕ)) → (Text → List ℕ) → Result SolveResult → Option Solved
solved_page decode encode (err e) = none
solved_page decode encode (ok r) =
    let raw = text_or_empty r.response in
    if is_pdf r.content_type
    then (elim (decode raw) [
      | none ↦ none
      | some bytes ↦ some (record {
        answer = record {
          status = status_or r.status;
          body = bytes;
          content_type = codes "application/pdf";
        };
        page = r.response;
      })
    ])
    else some (record {
      answer = record {
        status = status_or r.status;
        body = encode raw;
        content_type = codes "text/html; charset=utf-8";
      };
      page = r.response;
    })
