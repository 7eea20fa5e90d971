-- ===== src/Engines/Headers.antt =====
-- src/engines/chrome_engine.py: the response headers, from the browser's network log.
use solverr.Base.{Bool, true, false, ◌&&◌, Option, none, some, List, [], ◌∷◌, if◌then◌else◌}
use solverr.Base.Text.{Text, text_eq, before}

abbrev pub HeaderMap : Type 0
HeaderMap = List (Text × Text)

-- What an entry of the log says, read from its JSON text. A URL is a text, empty if there is none.
pub record Entry : Type 0 where
  -- Its method is `Network.responseReceived`, and its type `Document`.
  pub is_response : Bool
  pub is_document : Bool
  pub url : Text
  pub headers : HeaderMap

-- `_same_document`: without the fragments; an empty URL is no document's.
unfoldable pub same_document : Text → Text → Bool
same_document [] page_url = false
same_document (c ∷ logged_url) [] = false
same_document (c ∷ logged_url) (d ∷ page_url) =
    text_eq (before b'#' (c ∷ logged_url)) (before b'#' (d ∷ page_url))

-- The headers of the page and of the last document, behind the entries; `none` is an entry that raises
-- while it is read.
unfoldable pub pick : Text → HeaderMap × HeaderMap → List (Option Entry) → HeaderMap × HeaderMap
unfolding same_document
pick page_url found [] = found
pick page_url found (none ∷ es) = pick page_url found es
pick page_url (page, last) (some e ∷ es) =
    let skipped = pick page_url (page, last) es in
    let matched = pick page_url (e.headers, e.headers) es in
    let other = pick page_url (page, e.headers) es in
    elim e.headers [
      | [] ↦ skipped
      | _ ∷ _ ↦
          if e.is_response && e.is_document
          then (if same_document e.url page_url then matched else other)
          else skipped
    ]

-- `page or last`
abbrev pub page_or_last : HeaderMap × HeaderMap → HeaderMap
page_or_last ([], last) = last
page_or_last (h ∷ page, last) = h ∷ page

-- `_response_headers`; `none` is a browser without a log.
unfoldable pub response_headers : Bool → Text → Option (List (Option Entry)) → HeaderMap
unfolding pick
response_headers false page_url log = []
response_headers true page_url none = []
response_headers true page_url (some entries) = page_or_last (pick page_url ([], []) entries)
