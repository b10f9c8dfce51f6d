-- ===== src/Agents/Client.antt =====
-- `EnterpriseLLMClient` of platform_sdk/llm_client.py. The OpenAI client is the address and the key
-- that it is made with, and the completion that it brings back is an argument.
use ai_platform_sdk.Prelude.{String, ◌≡◌, Option, none, some, List, ◌==◌, arith, if◌then◌else◌}
use ai_platform_sdk.Json.{Fields}
use ai_platform_sdk.Agents.{ChatOpenAi, make_chat_llm}
use ai_platform_sdk.Agents.Building.{LlmConfig}

pub record Client : Type 0 where
  pub base_url : String
  pub api_key : String

-- The `AttributeError` of `AgentConfig.from_env`, which the configuration models do not have, and
-- the `ValueError` for a missing key.
pub data Constructed : Type 0 where
  client : Client → Constructed
  attribute_error value_error : Constructed

-- `__init__`
unfoldable pub enterprise_llm_client : Option LlmConfig → Constructed
enterprise_llm_client none = attribute_error
enterprise_llm_client (some config) =
    if config.internal_api_key == ""
    then value_error
    else client (record { base_url = config.litellm_base_url; api_key = config.internal_api_key })

pub record Request : Type 0 where
  pub model : String
  pub messages : List Fields
  pub kwargs : Fields

-- `generate`: the request that is sent, and what comes back, an exception included.
unfoldable pub generate {ℓ} :
    {R : Type ℓ} → (Request → Option R) → String → List Fields → Fields → Option R
generate create model_route messages kwargs =
    create (record { model = model_route; messages = messages; kwargs = kwargs })

abbrev pub chat_of : String → Constructed → Option ChatOpenAi
chat_of route (client c) =
    some (record { model = route; api_key = c.api_key; base_url = c.base_url })
chat_of route attribute_error = none
chat_of route value_error = none

-- The client and the LangChain client without overrides are made under the same condition, with the
-- same address and the same key.
pub enterprise_llm_client-make_chat_llm :
    (config : LlmConfig) (route : String)
    → make_chat_llm config.litellm_base_url config.internal_api_key route none none
      ≡ chat_of route (enterprise_llm_client (some config))
unfolding enterprise_llm_client make_chat_llm
enterprise_llm_client-make_chat_llm config route = ground arith
