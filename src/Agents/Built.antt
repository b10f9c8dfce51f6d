-- ===== src/Agents/Built.antt =====
-- Which agents platform_sdk/agent.py and platform_sdk/services/agent_builder.py build.
use ai_platform_sdk.Prelude.{
  ℕ, String, ◌≡◌, ◌≢◌, refl, Bool, true, false, Option, none, some, List, arith, eq_iff, Bool-cases,
  ◌⊎◌, inl, inr,
}
use ai_platform_sdk.Compaction.{Message, State}
use ai_platform_sdk.Agents.{
  ChatOpenAi, or_text, make_chat_llm, is_override, begins_system, builder_modifier,
}
use ai_platform_sdk.Agents.Prompted.{KeepsSystem, modifiers_begin_system}
use ai_platform_sdk.Agents.Building.{
  LlmConfig, Kwarg, Steering, modified, prompted, ReactAgent, react_agent, attribute_error,
  type_error, with_llm, build, build_specialist, build_agent, build_specialist_agent,
}

make_chat_llm_made :
    (url key route : String) (base_url api_key : Option String) (llm : ChatOpenAi)
    → make_chat_llm url key route base_url api_key ≡ some llm
    → (llm.model ≡ route) × (llm.api_key ≢ "")
unfolding make_chat_llm
make_chat_llm_made url key route base_url api_key llm h =
    (ground arith, λ e. ground (arith, eq_iff (or_text api_key key) ""))

with_llm-react_agent :
    (o : Option ChatOpenAi) (tools : List String) (s : Steering) (a : ReactAgent)
    → with_llm o tools s ≡ react_agent a
    → (o ≡ some a.llm) × (a.tools ≡ tools) × (a.steering ≡ s)
with_llm-react_agent none tools s a h = cc
with_llm-react_agent (some llm) tools s a h = (ground arith, ground arith, ground arith)

-- Whether what the model gets for a state begins with a system message.
abbrev pub first_is_system : Steering → State → Bool
first_is_system (modified kwarg f) state = begins_system (f state)
first_is_system (prompted prompt) state = false

module _ (counter : List Message → ℕ) (trim : ℕ → List Message → List Message) where
  build_of_specialist :
      (kwarg : Option Kwarg) (config factory : LlmConfig) (tools : List String) (prompt : String)
      (model_override base_url api_key : Option String) (a : ReactAgent)
      → build_specialist counter trim kwarg config factory tools prompt model_override base_url
          api_key
        ≡ react_agent a
      → build counter trim kwarg config factory tools prompt base_url api_key ≡ react_agent a
  unfolding build_specialist
  build_of_specialist kwarg config factory tools prompt model_override base_url api_key a h =
      ground arith

  -- An agent that `AgentBuilder` builds, as a specialist or not, with a LangGraph that takes a
  -- modifier and for a prompt that is not empty: its model is that of the configuration, its client
  -- has a key, its tools are the given ones, and what the model gets begins with a system message
  -- for every state of the conversation, if the trim keeps one at the beginning.
  pub build_specialist_built :
      (kwarg : Kwarg) (config factory : LlmConfig) (tools : List String) (prompt : String)
      (model_override base_url api_key : Option String) (a : ReactAgent)
      → KeepsSystem trim
      → prompt ≢ ""
      → build_specialist counter trim
          (some kwarg)
          config
          factory
          tools
          prompt
          model_override
          base_url
          api_key
        ≡ react_agent a
      → (a.llm.model ≡ config.model_route)
        × (a.llm.api_key ≢ "")
        × (a.tools ≡ tools)
        × ((state : State) → first_is_system a.steering state ≡ true)
  build_specialist_built kwarg config factory tools prompt model_override base_url api_key a keeps
        named h =
      let llm =
        make_chat_llm factory.litellm_base_url factory.internal_api_key config.model_route base_url
          api_key in
      let modifier =
        builder_modifier counter trim config.enable_compaction config.context_token_limit prompt in
      let (made, same_tools, same_steering) =
        with_llm-react_agent llm tools (modified kwarg modifier) a (
          unfold build in
          build_of_specialist (some kwarg) config factory tools prompt model_override base_url
            api_key a h) in
      let (model, key) =
        make_chat_llm_made factory.litellm_base_url factory.internal_api_key config.model_route
          base_url api_key a.llm made in
      (
        model,
        key,
        same_tools,
        λ state.
            rw same_steering
              (modifiers_begin_system counter trim config.enable_compaction
                config.context_token_limit prompt state keeps named).1,
      )

  -- `build_agent` and `build_specialist_agent` build no agent, whatever they are given: an exception
  -- ends them, the `AttributeError` of the configuration or the `TypeError` of the override.
  pub build_agent_raises :
      (kwarg : Option Kwarg) (config : Option LlmConfig) (tools : List String) (prompt : String)
      (model_override base_url api_key : Option String)
      → (build_agent counter trim kwarg config tools prompt base_url api_key ≡ attribute_error)
        × ((build_specialist_agent counter trim kwarg config tools prompt model_override base_url
                api_key
              ≡ attribute_error)
            ⊎ (build_specialist_agent counter trim kwarg config tools prompt model_override base_url
                  api_key
                ≡ type_error))
  unfolding build_agent build_specialist_agent
  build_agent_raises kwarg none tools prompt model_override base_url api_key = (refl, inl refl)
  build_agent_raises kwarg (some config) tools prompt model_override base_url api_key = (
    refl,
    elim (Bool-cases (is_override model_override config.model_route)) [
      | inl h ↦ rw h (inr refl)
      | inr h ↦ rw h (inl refl)
    ],
  )
