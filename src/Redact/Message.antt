-- ===== src/Redact/Message.antt =====
-- redact.py: `proxy_text`, on the messages of exceptions that the program did not write.
use solverr.Base.{
  ℕ, zero, suc, ◌-◌, ◌≡◌, refl, Bool, Option, none, some, List, [], ◌∷◌, ◌++◌, length, ◌==◌,
  if◌then◌else◌,
}
use solverr.Base.Int.{pos}
use solverr.Base.Split.{urlsplit, password}
use solverr.Base.Text.{Text, codes, starts_with}
use solverr.Base.Value.{Value, null, str, int}
use solverr.Geo.Egress.{Proxy, given}
use solverr.Postform.{quote}
use solverr.Redact.{redacted}
use solverr.Redact.Body.{is_true}
use solverr.Redact.Url.{url}

-- `s.replace(old, new)`, for an `old` that is not empty; the number is that of the letters of an `old`
-- that are still to be dropped.
unfoldable pub replace_text : Text → Text → ℕ → Text → Text
replace_text old new n [] = []
replace_text old new (suc n) (c ∷ s) = replace_text old new n s
replace_text old new zero (c ∷ s) =
    let hit = new ++ replace_text old new (length old - 1) s in
    let miss = c ∷ replace_text old new 0 s in if starts_with (c ∷ s) old then hit else miss

-- `quote(s, safe="")`, from `quote(s)`.
unfoldable pub quote_slashes : Text → Text
quote_slashes [] = []
quote_slashes (c ∷ s) =
    let rest = quote_slashes s in if c == b'/' then codes "%2F" ++ rest else c ∷ rest

-- `_password_in`, of a text
unfoldable pub password_in : (Text → Bool) → Text → Value
unfolding urlsplit password
password_in refuses server = elim (urlsplit refuses server) [
  | none ↦ null
  | some p ↦ elim (password p.netloc) [ none ↦ null | some s ↦ str s ]
]

-- The encoded forms of a password that is a text and not empty.
unfoldable pub quoted_forms : Value → List Value
unfolding quote quote_slashes
quoted_forms (str (c ∷ s)) = str (quote_slashes (quote (c ∷ s))) ∷ str (quote (c ∷ s)) ∷ []
quoted_forms other = []

-- The loop over the secrets; `none` is the `TypeError` of a secret that is no text.
unfoldable pub hide : List Value → Text → Option Text
unfolding replace_text is_true
hide [] value = some value
hide (str [] ∷ secrets) value = hide secrets value
hide (str (c ∷ s) ∷ secrets) value = hide secrets (replace_text (c ∷ s) redacted 0 value)
hide (other ∷ secrets) value = let rest = hide secrets value in if is_true other then none else rest

abbrev pub value_or_null : Option Value → Value
value_or_null none = null
value_or_null (some v) = v

abbrev pub hide_server : (Text → Bool) → Text → Text → Text
hide_server refuses [] value = value
hide_server refuses (c ∷ s) value = replace_text (c ∷ s) (url refuses (c ∷ s)) 0 value

-- `proxy_text`
unfoldable pub proxy_text : (Text → Bool) → Text → Option Proxy → Option Text
unfolding hide quoted_forms password_in url replace_text
proxy_text refuses value none = some value
proxy_text refuses value (some p) =
    let secret = value_or_null p.password in
    elim (hide (secret ∷ password_in refuses p.server ∷ quoted_forms secret) value) [
      | none ↦ none
      | some t ↦ some (hide_server refuses p.server t)
    ]

-- A password that is a number other than 0 raises, whatever the message is.
proxy_text-number :
    (refuses : Text → Bool) (value server : Text) (user : Option Value) (n : ℕ)
    → proxy_text refuses value
        (some record { server = server; username = user; password = some (int (pos (suc n))) })
      ≡ none
unfolding proxy_text hide is_true given
proxy_text-number refuses value server user n = refl
