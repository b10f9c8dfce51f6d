-- ===== src/Agents/Building.antt =====
-- The assembly of an agent: `build_agent`, `build_specialist_agent` and `setup_checkpointer` of
-- platform_sdk/agent.py, and `AgentBuilder` of platform_sdk/services/agent_builder.py. The agent
-- itself is LangGraph's, so it is what is handed to `create_react_agent`; a tool is its name.
use ai_platform_sdk.Prelude.{ℕ, String, Bool, true, false, Option, none, some, List, if◌then◌else◌}
use ai_platform_sdk.Compaction.{Message, State}
use ai_platform_sdk.Agents.{
  Checkpointer, make_checkpointer, ChatOpenAi, make_chat_llm, is_override, agent_modifier,
  builder_modifier,
}

pub record LlmConfig : Type 0 where
  pub model_route : String
  pub litellm_base_url : String
  pub internal_api_key : String
  pub enable_compaction : Bool
  pub context_token_limit : ℕ
  pub checkpointer_type : String
  pub checkpointer_db_url : String

-- The parameter of `create_react_agent` that takes a modifier, by the ones that it has.
pub data Kwarg : Type 0 where
  state_modifier : Kwarg
  messages_modifier : Kwarg

unfoldable pub modifier_kwarg : Bool → Bool → Option Kwarg
modifier_kwarg has_state has_messages =
    if has_state then some state_modifier else if has_messages then some messages_modifier else none

-- A version of LangGraph without the parameter gets the prompt alone.
pub data Steering : Type 0 where
  modified : Kwarg → (State → List Message) → Steering
  prompted : String → Steering

pub record ReactAgent : Type 0 where
  pub llm : ChatOpenAi
  pub tools : List String
  pub steering : Steering

-- The agent, or what is raised: the `ValueError` for a missing key, the `AttributeError` of
-- `AgentConfig.from_env`, which the configuration models do not have, or the `TypeError` of
-- `dataclasses.replace`.
pub data Built : Type 0 where
  react_agent : ReactAgent → Built
  value_error attribute_error type_error : Built

-- The keyword argument and the modifier, or the prompt.
abbrev pub steering : Option Kwarg → String → (State → List Message) → Steering
steering none prompt modifier = prompted prompt
steering (some kwarg) prompt modifier = modified kwarg modifier

abbrev pub with_llm : Option ChatOpenAi → List String → Steering → Built
with_llm none tools s = value_error
with_llm (some llm) tools s = react_agent (record { llm = llm; tools = tools; steering = s })

-- `setup_checkpointer`: what it returns and whether that was set up; `none` is an exception. Whether
-- a checkpointer has the method `setup` and whether it returns is LangGraph's.
unfoldable pub setup_checkpointer :
    (Checkpointer → Bool) → Bool → Bool → Option LlmConfig → Option (Checkpointer × Bool)
unfolding make_checkpointer
setup_checkpointer has_setup sets_up installed none = none
setup_checkpointer has_setup sets_up installed (some config) =
    let saver = make_checkpointer installed config.checkpointer_type config.checkpointer_db_url in
    if has_setup saver then (if sets_up then some (saver, true) else none) else some (saver, false)

module _ (counter : List Message → ℕ) (trim_messages : ℕ → List Message → List Message)
    (kwarg : Option Kwarg) where
  -- `AgentBuilder.build`, with the configuration and the one of the factory.
  unfoldable pub build :
      LlmConfig → LlmConfig → List String → String → Option String → Option String → Built
  unfolding make_chat_llm builder_modifier
  build config factory tools prompt base_url api_key =
      with_llm
        (make_chat_llm factory.litellm_base_url factory.internal_api_key config.model_route base_url
          api_key)
        tools
        (steering kwarg prompt (
          builder_modifier counter trim_messages config.enable_compaction config.context_token_limit
            prompt))

  -- `AgentBuilder.build_specialist`
  unfoldable pub build_specialist :
      LlmConfig
      → LlmConfig
      → List String
      → String
      → Option String
      → Option String
      → Option String
      → Built
  unfolding build
  build_specialist config factory tools prompt model_override base_url api_key =
      if is_override model_override config.model_route
      then type_error
      else build config factory tools prompt base_url api_key

  -- `make_chat_llm` as `build_agent` calls it, with its configuration or without.
  abbrev pub chat_llm_or_error :
      Option LlmConfig
      → String
      → Option String
      → Option String
      → (Option ChatOpenAi → Built)
      → Built
  chat_llm_or_error none model_route base_url api_key k = attribute_error
  chat_llm_or_error (some config) model_route base_url api_key k =
      k (make_chat_llm config.litellm_base_url config.internal_api_key model_route base_url api_key)

  -- `build_agent`, which gives `make_chat_llm` no configuration.
  unfoldable pub build_agent :
      Option LlmConfig → List String → String → Option String → Option String → Built
  unfolding make_chat_llm agent_modifier
  build_agent none tools prompt base_url api_key = attribute_error
  build_agent (some config) tools prompt base_url api_key =
      chat_llm_or_error none config.model_route base_url api_key (λ llm. with_llm llm tools (
        steering kwarg prompt (
          agent_modifier counter trim_messages config.enable_compaction config.context_token_limit
            prompt)))

  -- `build_specialist_agent`
  unfoldable pub build_specialist_agent :
      Option LlmConfig
      → List String
      → String
      → Option String
      → Option String
      → Option String
      → Built
  unfolding build_agent
  build_specialist_agent none tools prompt model_override base_url api_key = attribute_error
  build_specialist_agent (some config) tools prompt model_override base_url api_key =
      if is_override model_override config.model_route
      then type_error
      else build_agent (some config) tools prompt base_url api_key
