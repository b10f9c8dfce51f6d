-- ===== src/Bridge/Listing.antt =====
-- `get_langchain_tools` of platform_sdk/mcp_bridge.py: the tools of a server as the agent gets them.
use ai_platform_sdk.Prelude.{
  ℕ, String, ◌<>◌, Bool, false, Option, none, some, List, [], ◌∷◌, map, ◌==◌, ◌⊎◌, inl, inr,
  if◌then◌else◌,
}
use ai_platform_sdk.Json
use ai_platform_sdk.Json.{Json, Fields, truthy}
use ai_platform_sdk.Bridge.Schema.{
  Converted, unsupported, model, conversion_error, ModelField, first_key, unsupported_keywords,
  build_args_model, convert_schema,
}

-- A tool as the server lists it: `inputSchema or {}`.
pub record McpTool : Type 0 where
  pub name : String
  pub description : Option String
  pub input_schema : Fields

-- A tool of LangChain: what `_make_invoke_fn` is given, and the arguments' model if there is one.
pub record StructuredTool : Type 0 where
  pub name : String
  pub description : String
  pub args_schema : Option (List ModelField)
  pub input_schema : Fields
  pub bridge_session_id : Option String
  pub auth_token : Option String

-- `session.list_tools()`: the tools, or an exception.
pub data Listed : Type 0 where
  list_error : Listed
  listed : List McpTool → Listed

-- Why a tool cannot be converted: an unsupported keyword, or another exception of the conversion.
pub data Refusal : Type 0 where
  keyword : String → Refusal
  conversion : Refusal

-- The exceptions of `get_langchain_tools`: that of the request, and for a tool
-- `UnsupportedSchemaError` with the keyword, or another one.
pub data Tools : Type 0 where
  raises : Tools
  refuses : String → Refusal → Tools
  tools : List StructuredTool → Tools

abbrev pub description_or : String → Option String → String
description_or name none = "Executes the " <> name <> " tool."
description_or name (some s) = if s == "" then "Executes the " <> name <> " tool." else s

abbrev pub has_properties : Option Json → Bool
has_properties none = false
has_properties (some v) = truthy v

module _ (creates : List ModelField → Bool) (depth : ℕ)
    (bridge_session_id auth_token : Option String) where
  abbrev pub structured : McpTool → Option (List ModelField) → StructuredTool
  structured t args = record {
    name = t.name;
    description = description_or t.name t.description;
    args_schema = args;
    input_schema = t.input_schema;
    bridge_session_id = bridge_session_id;
    auth_token = auth_token;
  }

  -- One round of the loop: the tool, or why it cannot be converted.
  abbrev pub converted_tool : McpTool → Converted → Refusal ⊎ StructuredTool
  converted_tool t (unsupported k) = inl (keyword k)
  converted_tool t conversion_error = inl conversion
  converted_tool t (model fields) = inr (structured t (some fields))

  unfoldable pub convert_tool : McpTool → Refusal ⊎ StructuredTool
  convert_tool t =
      if has_properties (Json.get "properties" t.input_schema)
      then converted_tool t (convert_schema creates depth t.input_schema)
      else inr (structured t none)

  abbrev pub prepend : String → Refusal ⊎ StructuredTool → Tools → Tools
  prepend name (inl refusal) rest = refuses name refusal
  prepend name (inr t) (tools ts) = tools (t ∷ ts)
  prepend name (inr t) rest = rest

  -- The loop over the tools; the first one that cannot be converted ends it.
  unfoldable pub convert_tools : List McpTool → Tools
  unfolding convert_tool
  convert_tools [] = tools []
  convert_tools (t ∷ ts) = prepend t.name (convert_tool t) (convert_tools ts)

  -- `get_langchain_tools`, without a session or on the listing of the session.
  unfoldable pub get_langchain_tools : Option Listed → Tools
  unfolding convert_tools
  get_langchain_tools none = tools []
  get_langchain_tools (some list_error) = raises
  get_langchain_tools (some (listed ts)) = convert_tools ts

  -- Why a tool with properties is refused: for a keyword at the top of its schema, or because its
  -- fields cannot be converted.
  abbrev pub refusal : Option String → Option (List ModelField) → Option Refusal
  refusal (some k) fields = some (keyword k)
  refusal none none = some conversion
  refusal none (some fields) = none

  abbrev pub refused : McpTool → Option Refusal
  refused t =
      if has_properties (Json.get "properties" t.input_schema)
      then refusal (first_key unsupported_keywords t.input_schema)
          (build_args_model creates depth t.input_schema)
      else none

  abbrev pub first_of :
      String → Option Refusal → Option (String × Refusal) → Option (String × Refusal)
  first_of name none later = later
  first_of name (some r) later = some (name, r)

  -- The first tool of a list that is refused, with the reason.
  abbrev pub first_refused : List McpTool → Option (String × Refusal)
  first_refused [] = none
  first_refused (t ∷ ts) = first_of t.name (refused t) (first_refused ts)

  abbrev pub model_of : McpTool → Option (List ModelField)
  model_of t =
      if has_properties (Json.get "properties" t.input_schema)
      then build_args_model creates depth t.input_schema
      else none

  abbrev pub listing : List McpTool → Option (String × Refusal) → Tools
  listing ts none = tools (map (λ t. structured t (model_of t)) ts)
  listing ts (some (name, r)) = refuses name r

  converted : McpTool → Option Refusal → Refusal ⊎ StructuredTool
  converted t none = inr (structured t (model_of t))
  converted t (some r) = inl r
