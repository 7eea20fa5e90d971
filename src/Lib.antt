-- ===== src/Lib.antt =====
-- Solverr answers requests for pages that stand behind a challenge: it drives browsers, keeps them
-- as sessions, chooses between two engines, and can serve what they solved as a plain proxy.
--
-- The parts and where they are modelled:
-- * Sessions is src/sessions.py. `Store` is a SessionStore, with its dictionary as a list in insertion
--   order. A session is an object that threads share, so its identity is a handle, and what changes of
--   it under the store's lock, `last_used` and `in_use`, is kept by handle. Each critical section is a
--   function of `Store`; `create`, `get` and `destroy` (Sessions/Create) are those in a row, for a
--   thread that no other one disturbs. Sessions/Steps is a step relation for any number of threads,
--   where a step is one critical section. Sessions/Evict is the reaper and the cap, Sessions/Proxies
--   the memory of proxies that both stores share. Sessions/Refine is the abstract view of a store, a map
--   from ids to proxies, and the calls that one thread makes.
-- * Service is src/flaresolverr_service.py: Request (the checks), Routing (the plan), Resolve (the loop
--   over engines), Commands (the commands and their choice). Dtos is the type check of src/dtos.py.
-- * Detection is src/detection.py, Pipeline src/pipeline.py with its generators as trees that `run`
--   drives, Assembly src/assembly.py, Budget src/budget.py.
-- * Passthrough is src/passthrough.py: where a path leads, the cache (Cache), and the slots of
--   `_handle` (Handle), with a step relation for concurrent requests (Slots).
-- * Postform is src/postform.py: the form's page (Page), `unquote` (Decode), and a reader that finds the
--   form again as a browser does, which cuts the URL at a `#` (Fragment) and decodes it and then the
--   markup (RoundTrip, Document).
-- * Engines is src/engines: `solve` of chrome_engine.py (Chrome) and of stealth_engine.py (Stealth), whose
--   calls Hold checks against the rules of what a request holds; of the stealth engine the work on a page
--   (Navigate), the wait for a challenge (Polling) and the cookies (Cookies), of the Chrome engine
--   `_evil_logic` (Evil), the loops over a page (Pressing) and the response headers (Headers).
-- * Config is src/config.py, Reaper src/session_reaper.py, Metrics the labels of
--   src/bottle_plugins/prometheus_plugin.py.
-- * Redact is src/redact.py: forms, URLs (Url), messages (Message) and whole requests (Body). Alike says,
--   by tables of its own, which requests differ in credentials alone.
-- * Geo is src/geo.py: the cache of exits, the system's table of time zones (Zones), what a browser is given
--   (Egress) and the services that an exit's address is asked of (Lookup).
-- * Browser is src/utils.py: the launch of Chrome (Launch) with the extension that signs in to its proxy
--   (Extension), what JavaScript reads in the extension's code (Json, Worker) and the read of the
--   browser's name (Agent). A run of it is the list of the calls that it makes (Run), and Measure counts
--   over such lists.
-- * Base has what these share. Its Dict is Python's ordered dictionary, Value the JSON values with
--   Python's `int()`, Url and Split what is used of `urllib.parse`.
--
-- How the program is read: text is a list of code points, and letters change case and blanks are
-- stripped as in ASCII. Times are natural numbers: one unit for sessions and the cache, microseconds
-- for the loop over engines and the budget, where the source has floats. Memory, locks and threads are
-- explicit: a lock's section is one function, and what several threads do is a list of steps. Loops are
-- structural recursions, so no fuel is needed, but for three loops of the engines, whose fuel counts
-- passes. Two run until a deadline: their passes are a sleep apart, so that the time to the deadline divided
-- by the sleep is enough. The loop on a challenge in `_evil_logic` is ended by the page, or by the time limit,
-- which raises in one of its calls: enough is more than the passes that time out. The reader of a form's page counts fields, and one more than there are is enough. The
-- browser libraries, the clock, `uuid` and base64 are parameters: a call of one
-- is given by what comes back from it, a value or an exception, and the theorems quantify over it. To the
-- service an engine is a function of the share of the time.
--
-- Not modelled: the PDF bodies and the clicks of src/engines, which
-- are calls of the browser libraries for the most part, the web server and its plugins, logging, and
-- src/undetected_chromedriver, which is a copy of a third-party library. Of src/utils.py the search for
-- Chrome's path and version is left out, and of src/config.py the start timeout.
pub mod Assembly
pub mod Base
pub mod Browser
pub mod Budget
pub mod Config
pub mod Detection
pub mod Dtos
pub mod Engines
pub mod Geo
pub mod Metrics
pub mod Passthrough
pub mod Pipeline
pub mod Reaper
pub mod Postform
pub mod Redact
pub mod Service
pub mod Sessions
pub mod Tests
