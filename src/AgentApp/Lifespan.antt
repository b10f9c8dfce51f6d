-- ===== src/AgentApp/Lifespan.antt =====
-- `BaseAgentApp.lifespan` of platform_sdk/fastapi_app/base.py, with the registration of
-- platform_sdk/base/application.py. Whether a hook or a call into another component returns is an
-- argument.
pub mod Release
use ai_platform_sdk.Prelude.{
  String, Bool, true, false, not, ◌&&◌, Option, none, some, List, [], ◌∷◌, if◌then◌else◌,
}
use ai_platform_sdk.Prelude.Dict.{Dict}
use ai_platform_sdk.Registry.Tasks.{Reply}
use ai_platform_sdk.Application.{
  Application, Registration, disabled, service_url_missing, self_skip, running, raises, register,
  Deletion, deregister,
}
use ai_platform_sdk.AgentApp.{Bridge, Surroundings, service_agent_context, connect_bridges}

-- A conversation store, by the methods it has.
pub record Store : Type 0 where
  pub has_connect : Bool
  pub has_disconnect : Bool

-- The class attributes, the bridges that were built, the store, if there is one, with whether it is
-- connected, and whether there is a checkpointer.
pub record AgentApp : Type 0 where
  pub application : Application
  pub mcp_dependencies : List String
  pub mcp_servers : Dict String
  pub requires_checkpointer : Bool
  pub requires_conversation_store : Bool
  pub bridges : Dict Bridge
  pub store : Option Store
  pub store_connected : Bool
  pub checkpointer : Bool

-- How the calls of a startup end: the registration; whether the checkpointer is set up; the store
-- that is built, if one is; whether it connects; whether `build_dependencies` and `on_started`
-- return.
pub record Startup : Type 0 where
  pub reply : Reply
  pub world : Surroundings
  pub sets_up : Bool
  pub conversation_store : Option Store
  pub store_connects : Bool
  pub builds : Bool
  pub starts : Bool

pub record Shutdown : Type 0 where
  pub shuts_down : Bool
  pub deletion : Deletion
  pub store_disconnects : Bool
  pub disconnects : String → Bool

abbrev pub returns_ : Registration → Bool
returns_ service_url_missing = false
returns_ (raises e) = false
returns_ _ = true

-- `_make_store`: a store that is required must be built.
abbrev pub make_store : Bool → Option Store → Option (Option Store)
make_store false built = some none
make_store true none = none
make_store true (some s) = some (some s)

-- The part of `lifespan` behind the bridges, and whether `yield` is reached.
unfoldable pub open_store : Startup → Option (Option Store) → AgentApp → Bool × AgentApp
open_store u none app = (false, app)
open_store u (some none) app = (u.builds && u.starts, app)
open_store u (some (some s)) app =
    if s.has_connect && not u.store_connects
    then (false, record app { store = some s })
    else (u.builds && u.starts, record app { store = some s; store_connected = s.has_connect })

unfoldable pub connected : Startup → Application → AgentApp → AgentApp
connected u a app =
    let (bridges, r) =
      connect_bridges u.world (service_agent_context a.name) app.mcp_dependencies app.mcp_servers
        a.registry in
    record app { application = record a { registry = r }; bridges = bridges }

-- `lifespan` up to `yield`, and whether it is reached.
unfoldable pub enter : Startup → AgentApp → Bool × AgentApp
unfolding connected open_store
enter u app =
    let (o, a) = register u.reply app.application in
    if not (returns_ o)
    then (false, record app { application = a })
    else let app' = connected u a app in
      if app.requires_checkpointer && not u.sets_up
      then (false, app')
      else open_store u (make_store app.requires_conversation_store u.conversation_store)
          (record app' { checkpointer = app.requires_checkpointer })

-- The loop over the bridges; the first `disconnect` that raises ends it.
unfoldable pub disconnect_all : (String → Bool) → Dict Bridge → Bool × Dict Bridge
disconnect_all disconnects [] = (true, [])
disconnect_all disconnects ((name, b) ∷ bridges) =
    let (returned, rest) = disconnect_all disconnects bridges in
    if disconnects name
    then (returned, (name, record b { is_connected = false }) ∷ rest)
    else (false, (name, b) ∷ bridges)

abbrev pub can_disconnect : Option Store → Bool
can_disconnect none = false
can_disconnect (some s) = s.has_disconnect

unfoldable pub close_bridges : Shutdown → AgentApp → Bool × AgentApp
unfolding disconnect_all
close_bridges d app =
    let (returned, bridges) = disconnect_all d.disconnects app.bridges in
    (returned, record app { bridges = bridges })

unfoldable pub close_store : Shutdown → AgentApp → Bool × AgentApp
unfolding close_bridges
close_store d app =
    if can_disconnect app.store
    then (if d.store_disconnects
        then close_bridges d (record app { store_connected = false })
        else (false, app))
    else close_bridges d app

-- The `finally` of `lifespan`, which leaves the checkpointer alone, and whether it runs to its end.
unfoldable pub exit : Shutdown → AgentApp → Bool × AgentApp
unfolding close_store
exit d app =
    if not d.shuts_down
    then (false, app)
    else let (returned, a) = deregister d.deletion app.application in
      let app' = record app { application = a } in
      if returned then close_store d app' else (false, app')
