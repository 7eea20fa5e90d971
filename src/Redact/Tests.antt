-- ===== src/Redact/Tests.antt =====
-- The log's copies at concrete inputs.
use solverr.Base.{◌≡◌, refl, Bool, false, ◌++◌, ℕ_discrete}
use solverr.Base.Split.{urlsplit}
use solverr.Base.Text.{Text, Text-discrete, codes}
use solverr.Base.Value.{Value, str, obj, arr, field, end, cons, nil}
use solverr.Base.Url.{behind_last}
use solverr.Redact.{redacted}
use solverr.Redact.Alike.{Alike}
use solverr.Redact.Url.{url, proxy_url}

abbrev accepts_all : Text → Bool
accepts_all n = false

abbrev cookie : Text → Value
cookie value = obj (field (codes "name") (str (codes "cf")) (field (codes "value") (str value) end))

abbrev signing : Text → Value
signing secret =
    obj (field (codes "username") (str (codes "u")) (field (codes "password") (str secret) end))

-- A request with a cookie and a proxy's password.
abbrev request : Text → Text → Value
request value secret = obj (
    field (codes "cmd") (str (codes "request.get")) (
      field (codes "cookies") (arr (cons (cookie value) nil))
        (field (codes "proxy") (signing secret) end)))

-- A password with an `@` in front of a `/`: what stands behind its `@` is shown.
proxy_url-shown :
    proxy_url accepts_all (codes "http://u:p@q/r@proxy.org:1")
    ≡ codes "http://u:" ++ (redacted ++ codes "@q/r@proxy.org:1")
unfolding proxy_url url Text-discrete ℕ_discrete urlsplit behind_last
proxy_url-shown = refl

proxy_url-password :
    proxy_url accepts_all (codes "socks5://u:p@proxy.org:1")
    ≡ codes "socks5://u:" ++ (redacted ++ codes "@proxy.org:1")
unfolding proxy_url url Text-discrete ℕ_discrete urlsplit behind_last
proxy_url-password = refl
