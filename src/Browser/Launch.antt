-- ===== src/Browser/Launch.antt =====
-- utils.py: `get_webdriver`. The proxy is an object that `proxy_to_config` accepts, or none.
use solverr.Base.{
  ◌⊎◌, inl, inr, Bool, true, false, not, ◌&&◌, Option, none, some, is_some, List, [], ◌∷◌, ◌++◌,
  if◌then◌else◌, map,
}
use solverr.Base.Text.{Text, Text-discrete, codes, text_eq}
use solverr.Base.Value.{Value, null, str, obj, Fields, field, end, attr}
use solverr.Base.Split.{Parts, urlsplit, hostport}
use solverr.Geo.Egress.{Proxy, proxy_to_config, accept_language, not_an_object, no_url, ProxyError}
use solverr.Redact.{join}
use solverr.Browser.Run.{
  Run, Event, started_display, launched, start_failed, orphaned, copied, return, call, read,
  then_run, finally,
}
use solverr.Browser.Extension.{
  Machine, started, refused, left_behind, removal, create_proxy_extension, await_proxy_extension,
}

-- `key in proxy`
unfoldable pub has : Text → Fields → Bool
unfolding Text-discrete
has name end = false
has name (field k v fs) = if text_eq name k then true else has name fs

abbrev pub disabled_features : List Text
disabled_features = map codes (
    "LocalNetworkAccessChecks" ∷ "OptimizationGuideOnDeviceModel" ∷ "GlicActor" ∷ "GlicActorUi"
    ∷ "PromptAPIForGeminiNano" ∷ "PromptAPIX" ∷ "PromptAPINoTranslation"
    ∷ "SummarizationAPIForGeminiNano" ∷ "WriterAPIForGeminiNano" ∷ "TranslationAPI"
    ∷ "LanguageDetectionAPI" ∷ "AIPromptAPI" ∷ "AIRewriteAPI" ∷ "AIWritingAssistant"
    ∷ "AIGenerativeSuggestions" ∷ "AIGeneratedFlags" ∷ "AICompositionFeature" ∷ "HistoryAI"
    ∷ "TabOrganizer" ∷ "SmartSuggestion" ∷ [])

-- The arguments that are added in front of the proxy's.
unfoldable pub base_arguments : Machine → Text → List Text
unfolding accept_language
base_arguments m language =
    map codes (
      "--no-sandbox" ∷ "--window-size=1920,1080" ∷ "--disable-search-engine-choice-screen"
      ∷ "--disable-setuid-sandbox" ∷ "--disable-dev-shm-usage" ∷ "--no-zygote" ∷ [])
    ++ ((if m.is_arm then codes "--disable-gpu-sandbox" ∷ [] else [])
        ++ ((map codes (
              "--ignore-certificate-errors" ∷ "--ignore-ssl-errors" ∷ "--disable-component-update"
              ∷ []))
            ++ ((codes "--accept-lang=" ++ accept_language language)
                  ∷ (codes "--lang=" ++ language)
                  ∷ []
                ++ (elim m.user_agent [
                  | none ↦ []
                  | some agent ↦ (codes "--user-agent=" ++ agent) ∷ []
                ]))))

-- What the proxy adds: its argument, and the extension's directory.
pub record Route : Type 0 where
  pub argument : List Text
  pub dir : Option Text

abbrev pub server_argument : Text → Text
server_argument server = codes "--proxy-server=" ++ server

-- `parsed.scheme://parsed.netloc.rsplit('@', 1)[-1]`
unfoldable pub bare_server : Parts → Text
bare_server p = p.scheme ++ (codes "://" ++ hostport p.netloc)

-- The extension's server, for a URL that `create_proxy_extension` has parsed.
unfoldable pub parsed_server : Machine → Text → Text ⊎ Text
unfolding urlsplit bare_server
parsed_server m url = elim (urlsplit m.refuses url) [
  | none ↦ inl (codes "ValueError")
  | some p ↦ inr (bare_server p)
]

abbrev pub text_of : Value → Text
text_of (str s) = s
text_of other = []

-- The options of a proxy with a username and a password.
unfoldable pub extension_route : Machine → Text → Value → Value → Run Route
unfolding then_run create_proxy_extension parsed_server
extension_route m url username password =
    then_run (create_proxy_extension m url username password) (λ dir.
      then_run (read (parsed_server m url))
        (λ server. return record { argument = server_argument server ∷ []; dir = some dir }))

-- The options of a proxy without.
unfoldable pub plain_route : Fields → Route
unfolding has attr
plain_route fs = record {
  argument =
      if has (codes "url") fs
      then server_argument (text_of (attr (codes "url") fs null)) ∷ []
      else [];
  dir = none;
}

abbrev pub is_authenticated : Fields → Bool
is_authenticated fs = has (codes "url") fs && has (codes "username") fs && has (codes "password") fs

-- The proxy's part of the options.
unfoldable pub route : Machine → Value → Run Route
unfolding extension_route plain_route
route m (obj fs) =
    if is_authenticated fs
    then extension_route m (text_of (attr (codes "url") fs null)) (attr (codes "username") fs null)
        (attr (codes "password") fs null)
    else return (plain_route fs)
route m other = return record { argument = []; dir = none }

-- The driver's path, if it is known before the start.
unfoldable pub known_driver : Machine → Text ⊎ Option Text
known_driver m =
    if m.in_docker
    then inr (some (codes "/app/chromedriver"))
    else elim m.major_version [ inl e ↦ inl e | inr version ↦ inr m.patched_driver ]

abbrev pub extension_arguments : Option Text → List Text
extension_arguments none = (codes "--disable-features=" ++ join b',' disabled_features) ∷ []
extension_arguments (some dir) =
    (codes "--load-extension=" ++ dir)
    ∷ (codes "--disable-features="
        ++ join b',' (disabled_features ++ codes "DisableLoadExtensionCommandLineSwitch" ∷ []))
    ∷ []

-- `start_xvfb_display`, where a display is wanted.
unfoldable pub display : Machine → Run Unit
display m =
    if m.headless && not m.is_nt && not m.has_display
    then call started_display m.start_display
    else return tt

-- `uc.Chrome`
unfoldable pub start_chrome : Machine → List Text → Run Unit
start_chrome m arguments = elim (m.start arguments) [
  | started ↦ (launched m.response_headers arguments ∷ [], inr tt)
  | refused e ↦ (start_failed arguments ∷ [], inl e)
  | left_behind e ↦ (orphaned arguments ∷ [], inl e)
]

-- The extension is waited for, if there is one.
unfoldable pub await_if : Machine → Option Text → Run Unit
unfolding await_proxy_extension
await_if m none = return tt
await_if m (some dir) = await_proxy_extension m

-- The browser is started, behind the display and the reads of its paths.
unfoldable pub start : Machine → List Text → Run Bool
unfolding then_run start_chrome display known_driver
start m arguments = then_run (display m) (λ _. then_run (read (known_driver m)) (λ known.
    then_run (read m.chrome_path)
      (λ path. then_run (start_chrome m arguments) (λ _. return (is_some known)))))

-- The `try` block: whether the driver's path was known.
unfoldable pub launch : Machine → List Text → Option Text → Run Bool
unfolding then_run start await_if
launch m arguments dir =
    then_run (start m (arguments ++ extension_arguments dir))
      (λ known. then_run (await_if m dir) (λ _. return known))

unfoldable pub cleanup : Machine → Option Text → List Event
unfolding removal
cleanup m none = []
cleanup m (some dir) = removal m dir ∷ []

-- The patched driver's path is saved, and the driver copied there.
unfoldable pub save_driver : Machine → Bool → Run Unit
save_driver m true = return tt
save_driver m false = if m.copies_itself then return tt else call copied m.copy

abbrev pub error_text : ProxyError → Text
error_text not_an_object = codes "Request parameter 'proxy' must be an object with a 'url' field."
error_text no_url =
    codes "Request parameter 'proxy' must have a 'url' field naming the proxy server."

unfoldable pub checked : Value → Text ⊎ Option Proxy
unfolding proxy_to_config
checked proxy = elim (proxy_to_config proxy) [ inl e ↦ inl (error_text e) | inr p ↦ inr p ]

-- `get_webdriver`, for what `geo.browser_language` answers.
unfoldable pub get_webdriver : Machine → (Option Proxy → Text) → Value → Run Unit
unfolding checked then_run route launch base_arguments save_driver cleanup
get_webdriver m language proxy = then_run (read (checked proxy)) (λ config.
    then_run (route m proxy) (λ r.
      then_run
        (finally (launch m (base_arguments m (language config) ++ r.argument) r.dir)
          (cleanup m r.dir))
        (save_driver m)))
