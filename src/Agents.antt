-- ===== src/Agents.antt =====
-- platform_sdk/agent.py and the classes of platform_sdk/services that wrap it: the choice of the
-- checkpointer, the client of the LLM, the model of a specialist and the two ways to put the system
-- prompt before a conversation. `trim_messages` and the token counter are arguments.
pub mod Prompted
pub mod Building
pub mod Built
pub mod Client
use ai_platform_sdk.Prelude.{
  ℕ, String, Bool, true, false, not, ◌&&◌, ◌||◌, Option, none, some, List, [], ◌∷◌, ◌==◌,
  if◌then◌else◌,
}
use ai_platform_sdk.Compaction.{Message, State, listed, messages_of, compaction_modifier}

pub data Checkpointer : Type 0 where
  memory_saver : Checkpointer
  postgres_saver : String → Checkpointer

-- `make_checkpointer` and `CheckpointerFactory.create`, for whether the Postgres saver is installed.
unfoldable pub make_checkpointer : Bool → String → String → Checkpointer
make_checkpointer installed checkpointer_type checkpointer_db_url =
    if checkpointer_type == "postgres" && not (checkpointer_db_url == "") && installed
    then postgres_saver checkpointer_db_url
    else memory_saver

pub record ChatOpenAi : Type 0 where
  pub model : String
  pub api_key : String
  pub base_url : String

-- `a or b`
abbrev pub or_text : Option String → String → String
or_text none b = b
or_text (some a) b = if a == "" then b else a

-- `make_chat_llm` with a config and `ChatLLMFactory.create`: `none` is the `ValueError`.
unfoldable pub make_chat_llm :
    String → String → String → Option String → Option String → Option ChatOpenAi
make_chat_llm litellm_base_url internal_api_key model_route base_url api_key =
    let key = or_text api_key internal_api_key in
    if key == ""
    then none
    else some (record {
      model = model_route;
      api_key = key;
      base_url = or_text base_url litellm_base_url;
    })

-- The model route of a specialist, or the `TypeError` of `dataclasses.replace`, which takes only
-- dataclasses: the configuration is a Pydantic model.
pub data Specialist : Type 0 where
  type_error : Specialist
  built : String → Specialist

abbrev pub is_override : Option String → String → Bool
is_override none model_route = false
is_override (some m) model_route = not (m == "") && not (m == model_route)

-- `AgentBuilder.build_specialist` and `build_specialist_agent`
unfoldable pub build_specialist : Option String → String → Specialist
build_specialist model_override model_route =
    if is_override model_override model_route then type_error else built model_route

abbrev pub begins_system : List Message → Bool
begins_system [] = false
begins_system (m ∷ ms) = m.is_system

-- The system prompt before messages that have none.
unfoldable pub with_prompt : String → List Message → List Message
with_prompt prompt messages =
    if prompt == "" || begins_system messages
    then messages
    else record { is_system = true; content = prompt } ∷ messages

module _ (counter : List Message → ℕ) (trim_messages : ℕ → List Message → List Message) where
  -- `_combined_modifier` of `build_agent`: the prompt is put first and compacted with the rest.
  unfoldable pub agent_modifier : Bool → ℕ → String → State → List Message
  unfolding with_prompt
  agent_modifier enabled limit prompt state =
      compaction_modifier counter trim_messages enabled limit
        (listed (with_prompt prompt (messages_of state)))

  -- `_combined_modifier` of `AgentBuilder.build`: the prompt is put before what is compacted.
  unfoldable pub builder_modifier : Bool → ℕ → String → State → List Message
  unfolding with_prompt
  builder_modifier enabled limit prompt state =
      with_prompt prompt (compaction_modifier counter trim_messages enabled limit state)
