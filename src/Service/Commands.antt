-- ===== src/Service/Commands.antt =====
-- flaresolverr_service.py: the commands, and `_controller_v1_handler` over them.
pub mod Pools
use solverr.Base.{
  ℕ, ◌+◌, ◌≡◌, Bool, true, false, not, ◌&&◌, ◌||◌, Option, none, some, List, [], ◌∷◌, ◌++◌,
  if◌then◌else◌,
}
use solverr.Base.Int.{ℤ}
use solverr.Base.Text.{Text, codes, text_eq, lower}
use solverr.Base.Value.{null, Fields, Value}
use solverr.Sessions.{Session, Store, session_ids}
use solverr.Sessions.Create.{Shared, Launch, create, destroy}
use solverr.Dtos.{get_attr}
use solverr.Service.{
  Engine, chrome, stealth, is_engine, Error, engine_unavailable, no_such_session, build_failed,
  cmd_missing, cmd_invalid, url_missing, url_missing_in_get, post_data_on_get, post_data_missing,
  Result, ok, err, ◌>>=◌, ◌>>◌, Config, State, SolveResult, raise_if,
}
use solverr.Service.Request.{
  Request, read_request, validate_url, validate_session_ttl, validate_engine, text_of,
}
use solverr.Service.Routing.{engine_plan, engine_named, holders, host_of}
use solverr.Service.Resolve.{Attempt, Loop, resolve_challenge}

-- The bodies of the answers that the commands give.
pub data Response : Type 0 where
  created : Text → Response
  already_there : Text → Response
  listed : List Text → Response
  removed : Response
  solved : SolveResult → Response

-- `list(dict.fromkeys(ids))`: each id once, where it comes first.
unfoldable pub has_id : Text → List Text → Bool
has_id id [] = false
has_id id (x ∷ xs) = if text_eq x id then true else has_id id xs

unfoldable pub once_each : List Text → List Text → List Text
unfolding has_id
once_each seen [] = []
once_each seen (x ∷ xs) =
    let rest = once_each (x ∷ seen) xs in if has_id x seen then rest else x ∷ rest

-- The engine of `sessions.create` for a forced engine's name: any default but the stealth engine's
-- name is Chrome.
unfoldable pub creating_engine : Config → Text → Engine
unfolding engine_named lower
creating_engine config forced = elim (engine_named forced) [
  | some e ↦ e
  | none ↦ elim (engine_named (lower config.default_engine)) [ some e ↦ e | none ↦ chrome ]
]

abbrev pub creation : {P Z : Type 0} → Option (Session P Z × Bool) → Result Response
creation none = err build_failed
creation (some (s, fresh)) = ok (if fresh then created s.session_id else already_there s.session_id)

-- What the engines and the clock give to one request.
abbrev pub Solver : Type 0
Solver = (Engine → ℕ → ℕ → Attempt) × ℕ

-- The checks of `_cmd_request_get`.
unfoldable pub check_get : Request → Result (Unit {0})
unfolding validate_url validate_session_ttl
check_get req = do
  elim req.url [ none ↦ err url_missing_in_get | some _ ↦ ok tt ]
  _url ← validate_url req.url
  validate_session_ttl req.session_ttl_minutes
  elim req.post_data [ none ↦ ok tt | some _ ↦ err post_data_on_get ]

-- The checks of `_cmd_request_post`.
unfoldable pub check_post : Request → Result (Unit {0})
unfolding validate_url validate_session_ttl
check_post req = do
  elim req.post_data [ none ↦ err post_data_missing | some _ ↦ ok tt ]
  _url ← validate_url req.url
  validate_session_ttl req.session_ttl_minutes

-- What the commands take from outside: the proxy of the request, and the launches.
pub record Outside (P X Y : Type 0) : Type 0 where
  pub proxy : Option P
  pub chrome_launch : Launch P X
  pub stealth_launch : Launch P Y
  pub solver : Solver

module _ {P X Y : Type 0} where
  -- A session is made in the engine's pool.
  unfoldable pub create_in :
      Engine
      → Option Text
      → Option P
      → Launch P X
      → Launch P Y
      → State P X Y
      → State P X Y × Result Response
  unfolding create
  create_in chrome session proxy lx ly st =
      let (w, found) =
        create session proxy false lx (record { store = st.chrome_pool; proxies = st.proxies }) in
      (record st { chrome_pool = w.store; proxies = w.proxies }, creation found)
  create_in stealth session proxy lx ly st = elim st.stealth_pool [
    | none ↦ (st, err (engine_unavailable stealth))
    | some pool ↦
        let (w, found) =
          create session proxy false ly (record { store = pool; proxies = st.proxies }) in
        (record st { stealth_pool = some w.store; proxies = w.proxies }, creation found)
  ]

  -- `_cmd_sessions_create`; a session id that a pool has already is not made again in either.
  unfoldable pub sessions_create :
      Config
      → Request
      → Option P
      → Launch P X
      → Launch P Y
      → State P X Y
      → State P X Y × Result Response
  unfolding holders validate_engine creating_engine create_in
  sessions_create config req proxy lx ly st = elim (validate_engine req.engine) [
    | err e ↦ (st, err e)
    | ok forced ↦ elim (holders req.session st) [
      | e ∷ es ↦ (st, ok (already_there (elim req.session [ some id ↦ id | none ↦ [] ])))
      | [] ↦ create_in (creating_engine config forced) req.session proxy lx ly st
    ]
  ]

  -- `_cmd_sessions_list`
  unfoldable pub sessions_list : State P X Y → List Text
  unfolding session_ids once_each
  sessions_list st = elim st.stealth_pool [
    | none ↦ session_ids st.chrome_pool
    | some pool ↦ once_each [] (session_ids st.chrome_pool ++ session_ids pool)
  ]

  -- Both pools' `destroy`, and whether a session was there. No session has the id `None`.
  unfoldable pub destroy_both : Text → State P X Y → State P X Y × Bool
  unfolding destroy
  destroy_both id st =
      let (w, existed) = destroy id (record { store = st.chrome_pool; proxies = st.proxies }) in
      elim st.stealth_pool [
        | none ↦ (record st { chrome_pool = w.store; proxies = w.proxies }, existed)
        | some pool ↦
            let (v, other) = destroy id (record { store = pool; proxies = w.proxies }) in
            (
              record st { chrome_pool = w.store; stealth_pool = some v.store; proxies = v.proxies },
              other || existed,
            )
      ]

  -- `_cmd_sessions_destroy`
  unfoldable pub sessions_destroy : Option Text → State P X Y → State P X Y × Result Response
  unfolding destroy_both
  sessions_destroy none st = (st, err no_such_session)
  sessions_destroy (some id) st =
      let (st', existed) = destroy_both id st in
      (st', if existed then ok removed else err no_such_session)

  -- `_resolve_challenge`, from the plan on.
  unfoldable pub solve_request :
      Config → Solver → Request → State P X Y → State P X Y × Result Response
  unfolding engine_plan resolve_challenge host_of
  solve_request config (solve, now) req st = elim (engine_plan config req st) [
    | err e ↦ (st, err e)
    | ok order ↦
        let (r, left) =
          resolve_challenge solve (host_of req.url) order req.max_timeout now st.domain_engine in
        (record st { domain_engine = left.domain_engine }, r >>= λ x. ok (solved x))
  ]

  -- A request command: its checks, then the engines.
  unfoldable pub checked :
      Result (Unit {0}) → Config → Solver → Request → State P X Y → State P X Y × Result Response
  unfolding solve_request
  checked (err e) config solver req st = (st, err e)
  checked (ok _) config solver req st = solve_request config solver req st

  -- The choice of the command.
  unfoldable pub run_command :
      Config → Outside P X Y → Text → Request → State P X Y → State P X Y × Result Response
  unfolding sessions_create sessions_list sessions_destroy check_get check_post checked
  run_command config out cmd req st =
      if text_eq cmd (codes "sessions.create")
      then sessions_create config req out.proxy out.chrome_launch out.stealth_launch st
      else (if text_eq cmd (codes "sessions.list")
          then (st, ok (listed (sessions_list st)))
          else (if text_eq cmd (codes "sessions.destroy")
              then sessions_destroy req.session st
              else (if text_eq cmd (codes "request.get")
                  then checked (check_get req) config out.solver req st
                  else (if text_eq cmd (codes "request.post")
                      then checked (check_post req) config out.solver req st
                      else (st, err cmd_invalid)))))

  -- `_controller_v1_handler`: an error is the exception that `controller_v1_endpoint` answers with.
  unfoldable pub controller_v1_handler :
      Config → Outside P X Y → Fields → State P X Y → State P X Y × Result Response
  unfolding read_request run_command
  controller_v1_handler config out req st = elim (get_attr req (codes "cmd")) [
    | null ↦ (st, err cmd_missing)
    | cmd ↦ elim (read_request config.max_timeout_ms req) [
      | err e ↦ (st, err e)
      | ok r ↦ run_command config out (elim (text_of cmd) [ some c ↦ c | none ↦ [] ]) r st
    ]
  ]
