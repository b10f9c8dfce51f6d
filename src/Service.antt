-- ===== src/Service.antt =====
-- platform_sdk/base/mcp_service.py: the lifespan of an MCP service, which creates the resources
-- that were not injected and closes what it created. Whether a call into another component or a
-- hook raises is an argument.
pub mod Lifespan
pub mod Handles
use ai_platform_sdk.Prelude.{
  ℕ, String, Bool, true, false, not, ◌&&◌, ◌||◌, Option, none, some, List, [], ◌∷◌, ◌++◌,
  if◌then◌else◌,
}

-- An authorizer, a cache or a pool: which one it is, and whether it has `aclose` or `close`.
pub record Resource : Type 0 where
  pub name : String
  pub has_aclose : Bool
  pub has_close : Bool

-- The service, and the resources that have been closed so far.
pub record McpService : Type 0 where
  pub assert_secrets : Bool
  pub enable_tool_cache : Bool
  pub requires_database : Bool
  pub authorizer : Option Resource
  pub cache : Option Resource
  pub db_pool : Option Resource
  pub owns_authorizer : Bool
  pub owns_cache : Bool
  pub owns_db_pool : Bool
  pub registry : Bool
  pub closed : List Resource

-- How the calls of a startup end: whether the secrets are configured; whether `_register` returns,
-- and whether it sets `self.registry`; the authorizer and the cache that are built (`from_config` may give none);
-- the pool, or none if `create_pool` raises; whether `on_startup` returns.
pub record Startup : Type 0 where
  pub secrets_configured : Bool
  pub registers : Bool
  pub registered : Bool
  pub opa_client : Resource
  pub tool_result_cache : Option Resource
  pub pool : Option Resource
  pub starts : Bool

-- How the calls of a shutdown end: whether `on_shutdown` and the request that deregisters return.
-- The calls that close a resource return.
pub record Shutdown : Type 0 where
  pub shuts_down : Bool
  pub deregisters : Bool

unfoldable pub create_authorizer : Startup → McpService → McpService
create_authorizer u s = elim s.authorizer [
  | some a ↦ s
  | none ↦ record s { authorizer = some u.opa_client; owns_authorizer = true }
]

unfoldable pub create_cache : Startup → McpService → McpService
create_cache u s = elim s.cache [
  | some c ↦ s
  | none ↦
      if s.enable_tool_cache then record s { cache = u.tool_result_cache; owns_cache = true } else s
]

-- Whether the pool is there or was created, and the service.
unfoldable pub create_pool : Startup → McpService → Bool × McpService
create_pool u s = elim s.db_pool [
  | some p ↦ (true, s)
  | none ↦
      if s.requires_database
      then elim u.pool [
        | none ↦ (false, s)
        | some p ↦ (true, record s { db_pool = some p; owns_db_pool = true })
      ]
      else (true, s)
]

-- The part of `lifespan` up to `yield`, and whether it is reached.
unfoldable pub enter : Startup → McpService → Bool × McpService
unfolding create_authorizer create_cache create_pool
enter u s =
    if s.assert_secrets && not u.secrets_configured
    then (false, s)
    else let s' = record s { registry = s.registry || u.registered } in
      if not u.registers
      then (false, s')
      else let (created, s'') = create_pool u (create_cache u (create_authorizer u s')) in
        (created && u.starts, s'')

-- `aclose` or `close`, by what the resource has.
abbrev pub close : Resource → List Resource → List Resource
close r closed = if r.has_aclose || r.has_close then closed ++ (r ∷ []) else closed

unfoldable pub close_authorizer : McpService → McpService
close_authorizer s = elim s.authorizer [
  | none ↦ s
  | some a ↦
      if s.owns_authorizer then record s { authorizer = none; closed = close a s.closed } else s
]

unfoldable pub close_cache : McpService → McpService
close_cache s = elim s.cache [
  | none ↦ s
  | some c ↦ if s.owns_cache then record s { cache = none; closed = close c s.closed } else s
]

unfoldable pub close_pool : McpService → McpService
close_pool s = elim s.db_pool [
  | none ↦ s
  | some p ↦
      if s.owns_db_pool then record s { db_pool = none; closed = s.closed ++ (p ∷ []) } else s
]

-- `_deregister`: whether it returns. The registry is given up either way.
unfoldable pub deregister : Shutdown → McpService → Bool × McpService
deregister d s = if s.registry then (d.deregisters, record s { registry = false }) else (true, s)

-- The `finally` of `lifespan`, and whether it runs to its end.
unfoldable pub exit : Shutdown → McpService → Bool × McpService
unfolding close_authorizer close_cache close_pool deregister
exit d s =
    if not d.shuts_down
    then (false, s)
    else let (returned, s') = deregister d s in
      if returned then (true, close_pool (close_cache (close_authorizer s'))) else (false, s')
