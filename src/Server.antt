-- ===== src/Server.antt =====
-- platform_sdk/mcp_server_base.py: the resources of an MCP server, the lifespan of the older base
-- class and the health router. How a call into another component or a hook ends is an argument. A
-- resource is known by a name.
pub mod Lifespan
pub mod Readiness
use ai_platform_sdk.Prelude.{
  ℕ, String, Bool, true, false, not, ◌&&◌, Option, none, some, List, [], ◌∷◌, ◌++◌, map, ◌==◌,
  if◌then◌else◌,
}
use ai_platform_sdk.Prelude.Dict.{Dict, insert}

pub record McpConfig : Type 0 where
  pub enable_tool_cache : Bool

pub record BaseResources : Type 0 where
  pub config : McpConfig
  pub opa : String
  pub cache : Option String
  pub db_pool : Option String

-- The class attributes of the server, its `_resources`, and the resources that were opened and
-- closed so far.
pub record McpServer : Type 0 where
  pub requires_database : Bool
  pub assert_secrets : Bool
  pub resources : Option BaseResources
  pub opened : List String
  pub closed : List String

-- `asyncpg.create_pool`, which is imported for the call.
pub data PoolAttempt : Type 0 where
  not_installed : PoolAttempt
  raises : PoolAttempt
  ready : String → PoolAttempt

-- How the calls of a startup end: whether the secrets are configured; the configuration, if it can
-- be read; the authorizer and the cache that are built (`from_config` may give none); the pool;
-- whether `on_startup` returns.
pub record Startup : Type 0 where
  pub secrets_configured : Bool
  pub config : Option McpConfig
  pub opa_client : String
  pub tool_result_cache : Option String
  pub pool : PoolAttempt
  pub starts : Bool

-- Whether `on_shutdown` returns, and whether the call that closes a resource does.
pub record Shutdown : Type 0 where
  pub shuts_down : Bool
  pub closes : String → Bool

abbrev pub listed : Option String → List String
listed none = []
listed (some r) = r ∷ []

-- `cache` of `create_base_resources`
abbrev pub created_cache : Startup → McpConfig → Option String
created_cache u c = if c.enable_tool_cache then u.tool_result_cache else none

-- `db_pool` of `create_base_resources`: `none` if `create_pool` raises.
abbrev pub created_pool : Bool → PoolAttempt → Option (Option String)
created_pool false attempt = some none
created_pool true not_installed = some none
created_pool true raises = none
created_pool true (ready p) = some (some p)

abbrev open_all : List String → McpServer → McpServer
open_all rs s = record s { opened = s.opened ++ rs }

-- `create_base_resources` up to `yield`: the resources, or `none` if it raises. The configuration is
-- what `MCPConfig.from_env()` gives, `none` if that raises, as it does while the class has no such
-- method.
unfoldable pub create_base_resources : Startup → McpServer → Option BaseResources × McpServer
create_base_resources u s =
    if s.assert_secrets && not u.secrets_configured then (none, s) else elim u.config [
      | none ↦ (none, s)
      | some c ↦
          let s' = open_all ((u.opa_client ∷ []) ++ listed (created_cache u c)) s in
          elim (created_pool s.requires_database u.pool) [
            | none ↦ (none, s')
            | some pool ↦ (
              some (record {
                config = c;
                opa = u.opa_client;
                cache = created_cache u c;
                db_pool = pool;
              }),
              open_all (listed pool) s',
            )
          ]
    ]

-- Closes the resources in turn: a call that raises ends it.
unfoldable pub close_all : (String → Bool) → List String → McpServer → Bool × McpServer
close_all closes [] s = (true, s)
close_all closes (r ∷ rs) s =
    let rest = close_all closes rs (record s { closed = s.closed ++ (r ∷ []) }) in
    if closes r then rest else (false, s)

abbrev pub teardown_order : BaseResources → List String
teardown_order r = listed r.db_pool ++ (r.opa ∷ []) ++ listed r.cache

-- The `finally` of `create_base_resources`.
unfoldable pub teardown : Shutdown → BaseResources → McpServer → Bool × McpServer
unfolding close_all
teardown d r s = close_all d.closes (teardown_order r) s

-- `on_startup`: an exception of it passes through `create_base_resources`.
unfoldable pub start :
    Startup → Shutdown → Option BaseResources → McpServer → Option BaseResources × McpServer
unfolding teardown
start u d none s = (none, s)
start u d (some r) s =
    let s' = record s { resources = some r } in
    if u.starts then (some r, s') else (none, (teardown d r s').1)

-- The part of `lifespan` up to `yield`: the resources it holds there, or `none` if it raises.
unfoldable pub enter : Startup → Shutdown → McpServer → Option BaseResources × McpServer
unfolding create_base_resources start
enter u d s = let (created, s') = create_base_resources u s in start u d created s'

-- The part behind `yield`: what is closed are the resources that were created at the start.
unfoldable pub exit : Shutdown → BaseResources → McpServer → Bool × McpServer
unfolding teardown
exit d r s =
    if d.shuts_down
    then teardown d r (record s { resources = none })
    else (false, (teardown d r s).1)

abbrev finish : Shutdown → Option BaseResources → McpServer → Bool × McpServer
finish d none s = (false, s)
finish d (some r) s = exit d r s

-- `lifespan`, and whether it ends without an exception.
unfoldable pub lifespan : Startup → Shutdown → McpServer → Bool × McpServer
unfolding enter exit
lifespan u d s = let (entered, s') = enter u d s in finish d entered s'

-- The properties `opa`, `cache`, `db_pool` and `config`: the first and the last one are
-- assertions.
unfoldable pub opa : McpServer → Option String
opa s = elim s.resources [ none ↦ none | some r ↦ some r.opa ]

unfoldable pub cache : McpServer → Option String
cache s = elim s.resources [ none ↦ none | some r ↦ r.cache ]

unfoldable pub db_pool : McpServer → Option String
db_pool s = elim s.resources [ none ↦ none | some r ↦ r.db_pool ]

unfoldable pub config : McpServer → Option McpConfig
config s = elim s.resources [ none ↦ none | some r ↦ some r.config ]

-- A check of the router returns a Boolean or raises.
pub data Check : Type 0 where
  fails : Check
  returns : Bool → Check

abbrev pub check_result : Check → String
check_result fails = "error"
check_result (returns true) = "ok"
check_result (returns false) = "not_ready"

unfoldable pub check_all : Dict Check → Dict String → Dict String
check_all [] results = results
check_all ((name, c) ∷ checks) results = check_all checks (insert name (check_result c) results)

unfoldable pub all_ok : Dict String → Bool
all_ok [] = true
all_ok ((name, v) ∷ results) = v == "ok" && all_ok results

pub record JsonResponse : Type 0 where
  pub status_code : ℕ
  pub status : String
  pub checks : Dict String

-- `readiness` of `make_health_router`
unfoldable pub readiness : Dict Check → JsonResponse
unfolding check_all all_ok
readiness checks =
    let results = check_all checks [] in
    let ok = all_ok results in
    record {
      status_code = if ok then 200 else 503;
      status = if ok then "ok" else "degraded";
      checks = results;
    }
