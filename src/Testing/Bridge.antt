-- ===== src/Testing/Bridge.antt =====
-- `FakeToolBridge` of platform_sdk/testing/__init__.py. A tool is what is handed to LangChain's
-- `StructuredTool.from_function`; its coroutine is `invoke`.
use ai_platform_sdk.Prelude.{
  String, ◌<>◌, ◌≡◌, refl, Bool, true, false, Option, none, some, List, [], ◌∷◌, map, ◌==◌, arith,
  if◌then◌else◌,
}
use ai_platform_sdk.Prelude.Dict.{Dict, lookup}
use ai_platform_sdk.Json.{Json, str}

pub record FakeToolBridge : Type 0 where
  pub tool_results : Dict String
  pub connected : Bool

-- `connect` and `disconnect`
unfoldable pub connect : FakeToolBridge → FakeToolBridge
connect b = record b { connected = true }

unfoldable pub disconnect : FakeToolBridge → FakeToolBridge
disconnect b = record b { connected = false }

pub record FakeTool : Type 0 where
  pub name : String
  pub description : String
  pub tool_result : String

abbrev pub given_or : Json → Option Json → Json
given_or default none = default
given_or default (some v) = v

-- The coroutine of a tool. The result is the default of a parameter of its own.
unfoldable pub invoke : FakeTool → Dict Json → Json
unfolding lookup
invoke t kwargs = given_or (str t.tool_result) (lookup "tool_result" kwargs)

abbrev pub fake_tool : String × String → FakeTool
fake_tool (name, result) = record {
  name = name;
  description = "Fake tool: " <> name;
  tool_result = result;
}

unfoldable pub get_langchain_tools : FakeToolBridge → List FakeTool
get_langchain_tools b = map fake_tool b.tool_results

-- The call of the tool with a name, if there is one.
abbrev pub call_tool : String → Dict Json → List FakeTool → Option Json
call_tool name kwargs [] = none
call_tool name kwargs (t ∷ ts) =
    let rest = call_tool name kwargs ts in if name == t.name then some (invoke t kwargs) else rest

abbrev pub as_text : Option String → Option Json
as_text none = none
as_text (some s) = some (str s)

fake_tools_answer :
    (results : Dict String) (name : String) (kwargs : Dict Json)
    → lookup "tool_result" kwargs ≡ none
    → call_tool name kwargs (map fake_tool results) ≡ as_text (lookup name results)
unfolding invoke lookup
fake_tools_answer [] name kwargs absent = refl
fake_tools_answer ((n, r) ∷ results) name kwargs absent =
    ground (arith, fake_tools_answer results name kwargs absent)

-- A tool of the fake bridge answers the result that was given under its name, with whatever
-- arguments but `tool_result`, and whether the bridge is connected or not; under a name without a
-- result there is no tool.
pub get_langchain_tools_answer :
    (b : FakeToolBridge) (name : String) (kwargs : Dict Json)
    → lookup "tool_result" kwargs ≡ none
    → (call_tool name kwargs (get_langchain_tools (connect b))
        ≡ as_text (lookup name b.tool_results))
      × (call_tool name kwargs (get_langchain_tools (disconnect b))
          ≡ as_text (lookup name b.tool_results))
unfolding get_langchain_tools connect disconnect
get_langchain_tools_answer b name kwargs absent = (
  fake_tools_answer b.tool_results name kwargs absent,
  fake_tools_answer b.tool_results name kwargs absent,
)
