-- ===== src/Application/Construction.antt =====
-- The constructors of platform_sdk/base/application.py, base/agent.py, base/mcp_service.py and
-- fastapi_app/base.py, as far as they find the configuration. A configuration is of any type, and
-- what the model of the configuration loads is an argument.
use ai_platform_sdk.Prelude.{String, ◌≡◌, refl, Option, none, some, ◌==◌, if◌then◌else◌}

-- The class attribute `config_model`, and how its `load` ends.
pub data ConfigModel (C : Type 0) : Type 0 where
  unset : ConfigModel C
  loads : C → ConfigModel C
  fails : ConfigModel C

-- The object with its name and configuration, or an exception: `NotImplementedError`, what `load`
-- raises, or the `ValueError` for the empty name of an agent application.
pub data Constructed (C : Type 0) : Type 0 where
  made : String → C → Constructed C
  not_implemented load_error empty_name : Constructed C

module _ {C : Type 0} where
  abbrev pub from_model : String → ConfigModel C → Constructed C
  from_model name unset = not_implemented
  from_model name (loads c) = made name c
  from_model name fails = load_error

  -- `Application.__init__`
  unfoldable pub application : ConfigModel C → String → Option C → Constructed C
  application config_model name none = from_model name config_model
  application config_model name (some c) = made name c

  -- `Agent.__init__`, which keeps `config` for a method that nothing calls.
  unfoldable pub agent : ConfigModel C → String → Option C → Constructed C
  unfolding application
  agent config_model name config = application config_model name none

  -- `McpService.__init__`
  unfoldable pub mcp_service : ConfigModel C → String → Option C → Constructed C
  unfolding application
  mcp_service config_model name config = application config_model name config

  -- `BaseAgentApp.__init__`
  unfoldable pub agent_app : ConfigModel C → String → Option C → Constructed C
  unfolding application
  agent_app config_model service_name config =
      if service_name == "" then empty_name else application config_model service_name config

  -- An injected configuration is the one that an MCP service and a named agent application have,
  -- whatever the model of the configuration loads. An agent never has it: it is made from the model,
  -- and raises where its class sets none.
  pub agent_ignores_config :
      (config_model : ConfigModel C) (name : String) (c : C)
      → (mcp_service config_model name (some c) ≡ made name c)
        × (agent_app config_model name (some c) ≡ (if name == "" then empty_name else made name c))
        × (agent config_model name (some c) ≡ mcp_service config_model name none)
        × (agent unset name (some c) ≡ not_implemented)
  unfolding mcp_service agent_app agent
  agent_ignores_config config_model name c = (refl, refl, refl, refl)
