-- ===== src/Redact/Url.antt =====
-- redact.py: `url` and `proxy_url`. The part of `urlsplit` that Base.Split leaves open is
-- a parameter.
use solverr.Base.{Bool, ◌&&◌, none, some, [], ◌∷◌, ◌++◌, if◌then◌else◌}
use solverr.Base.Split.{Parts, urlsplit, urlunsplit, userinfo, password, hostport, text_or_empty}
use solverr.Base.Text.{Text, Text-discrete, text_eq, codes, before, contains}
use solverr.Redact.{redacted}

-- The part of a user's name in front of a network location's password.
unfoldable pub username : Text → Text
unfolding userinfo
username netloc = before b':' (text_or_empty (userinfo netloc))

abbrev pub masked_netloc : Text → Text
masked_netloc netloc = username netloc ++ (b':' ∷ redacted ++ (b'@' ∷ hostport netloc))

-- The URL of some parts, with the password replaced, for the URL that they come from.
unfoldable pub mask_parts : Text → Parts → Text
unfolding urlunsplit password username
mask_parts value p = elim (password p.netloc) [
  | none ↦ value
  | some _ ↦ urlunsplit record {
    scheme = p.scheme;
    netloc = masked_netloc p.netloc;
    path = p.path;
    query = p.query;
    fragment = p.fragment;
  }
]

-- `url`, of a text
unfoldable pub url : (Text → Bool) → Text → Text
unfolding urlsplit mask_parts
url refuses value = elim (urlsplit refuses value) [ none ↦ redacted | some p ↦ mask_parts value p ]

-- `proxy_url`, of a text
unfoldable pub proxy_url : (Text → Bool) → Text → Text
unfolding url Text-discrete contains
proxy_url refuses [] = []
proxy_url refuses (c ∷ s) =
    if text_eq (url refuses (c ∷ s)) (c ∷ s)
    then (if contains (c ∷ s) (codes "@") && contains (before b'@' (c ∷ s)) (codes ":")
        then redacted
        else c ∷ s)
    else url refuses (c ∷ s)
