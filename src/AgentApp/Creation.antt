-- ===== src/AgentApp/Creation.antt =====
-- What `BaseAgentApp` of platform_sdk/fastapi_app/base.py makes of its class attributes: the FastAPI
-- application, the checkpointer and the warning about the deprecated mapping. A router and the
-- dependencies are names, and the application's own handlers of exceptions are left out.
use mathlib.Core.List.{append-nil, append_assoc}
use ai_platform_sdk.Prelude.{
  ap, ◌∙◌, String, ◌≡◌, ◌≢◌, refl, Bool, true, false, not, ◌&&◌, Option, none, some, List, [], ◌∷◌,
  ◌++◌, ◌==◌, is_empty, eq_iff, arith, if◌then◌else◌,
}
use ai_platform_sdk.Prelude.Dict.{Dict}
use ai_platform_sdk.Agents.{Checkpointer}
use ai_platform_sdk.Agents.Building.{LlmConfig, setup_checkpointer}
use ai_platform_sdk.Application.Construction.{ConfigModel, made, agent_app}
use ai_platform_sdk.AgentApp.Origins.{Cors, add_cors}

pub record FastApi : Type 0 where
  pub title : String
  pub description : String
  pub version : String
  pub deps : Option String
  pub cors : Cors
  pub routers : List String

-- The loop over `self.routes()`
unfoldable pub include_routers : List String → FastApi → FastApi
include_routers [] app = app
include_routers (router ∷ routers) app =
    include_routers routers (record app { routers = app.routers ++ (router ∷ []) })

-- `create_app`, for the value of `ALLOWED_ORIGINS`
unfoldable pub create_app :
    String → String → String → List String → Option String → Option String → FastApi
unfolding include_routers add_cors
create_app service_name service_title service_description routes deps allowed_origins =
    include_routers routes (record {
      title = if service_title == "" then service_name else service_title;
      description = service_description;
      version = "1.0.0";
      deps = deps;
      cors = add_cors allowed_origins;
      routers = [];
    })

-- `_warn_if_using_legacy_mcp_servers`, whether it warns
unfoldable pub warns_legacy : List String → Dict String → Bool
warns_legacy mcp_dependencies mcp_servers = is_empty mcp_dependencies && not (is_empty mcp_servers)

-- `_make_checkpointer`: the outer `none` is an exception, the inner one no checkpointer.
unfoldable pub make_checkpointer :
    (Checkpointer → Bool)
    → Bool
    → Bool
    → Bool
    → Option LlmConfig
    → Option (Option (Checkpointer × Bool))
unfolding setup_checkpointer
make_checkpointer has_setup sets_up installed false config = some none
make_checkpointer has_setup sets_up installed true config =
    elim (setup_checkpointer has_setup sets_up installed config) [
      | none ↦ none
      | some c ↦ some (some c)
    ]

include_routers_lem :
    (routers : List String) (app : FastApi)
    → include_routers routers app ≡ record app { routers = app.routers ++ routers }
unfolding include_routers
include_routers_lem [] app = rw append-nil refl
include_routers_lem (router ∷ routers) app =
    include_routers_lem routers (record app { routers = app.routers ++ (router ∷ []) })
    ∙ ap (λ rs. record app { routers = rs }) (append_assoc app.routers (router ∷ []) routers)

agent_app_named :
    {C : Type 0} (config_model : ConfigModel C) (service_name name : String) (config : Option C)
    (c : C)
    → agent_app config_model service_name config ≡ made name c
    → service_name ≢ ""
unfolding agent_app
agent_app_named config_model service_name name config c h e = ground (arith, eq_iff service_name "")

title_given :
    (service_name service_title : String)
    → service_name ≢ ""
    → (if service_title == "" then service_name else service_title) ≢ ""
title_given service_name service_title named e = ground (arith, eq_iff service_title "")

-- Of an agent application that can be constructed, the FastAPI application has a title, all the
-- routes in their order and the origins of the environment.
pub create_app_complete :
    {C : Type 0} (config_model : ConfigModel C) (service_name name : String) (config : Option C)
    (c : C) (service_title service_description : String) (routes : List String)
    (deps allowed_origins : Option String)
    → agent_app config_model service_name config ≡ made name c
    → let app =
        create_app service_name service_title service_description routes deps allowed_origins in
      (app.title ≢ "") × (app.routers ≡ routes) × (app.cors ≡ add_cors allowed_origins)
unfolding create_app
create_app_complete config_model service_name name config c service_title service_description routes
      deps allowed_origins h =
    rw include_routers_lem (
      λ e.
          title_given service_name service_title
            (agent_app_named config_model service_name name config c h) e,
      refl,
      refl,
    )
