-- ===== src/Bridge/Invoke.antt =====
-- `_make_invoke_fn` of platform_sdk/mcp_bridge.py: the call of one tool through the current session.
use ai_platform_sdk.Prelude.{
  String, ◌<>◌, ◌≡◌, Bool, true, false, Option, none, some, arith, ◌==◌, eq_iff, if◌then◌else◌,
}
use ai_platform_sdk.Prelude.Dict.{Dict, lookup, insert, lookup-insert}
use ai_platform_sdk.Json
use ai_platform_sdk.Json.{Json, Fields, str, obj}

-- How `session.call_tool` ends within its timeout: not at all, by an exception with its text, or
-- with the text of its first content, if it has any.
pub data Reply : Type 0 where
  timed_out : Reply
  raised : String → Reply
  replied : Option String → Reply

-- The bridge as a tool sees it: its session at the time of the call, if it is connected.
pub record BridgeView : Type 0 where
  pub session : Option (String → Dict Json → Reply)
  pub tool_call_timeout : String

-- `"session_id" in input_schema.get("properties", {})`
unfoldable pub is_session_scoped : Fields → Bool
is_session_scoped schema = elim (Json.get "properties" schema) [
  | some (obj d) ↦ Json.has "session_id" d
  | _ ↦ false
]

-- `bridge_session_id or _session_id_ctx.get()`, with an empty text as none.
abbrev non_empty : Option String → Option String
non_empty none = none
non_empty (some s) = if s == "" then none else some s

unfoldable pub trusted_id : Option String → Option String → Option String
trusted_id bridge_session_id ctx = elim (non_empty bridge_session_id) [
  | some s ↦ some s
  | none ↦ non_empty ctx
]

unfoldable pub inject_session : Bool → Option String → Dict Json → Dict Json
inject_session false id kwargs = kwargs
inject_session true none kwargs = kwargs
inject_session true (some id) kwargs = insert "session_id" (str id) kwargs

unfoldable pub inject_auth : Option String → Dict Json → Dict Json
inject_auth none kwargs = kwargs
inject_auth (some token) kwargs = insert "auth_context" (str token) kwargs

-- The arguments of the tool as the session gets them.
unfoldable pub call_arguments :
    Fields → Option String → Option String → Option String → Dict Json → Dict Json
unfolding is_session_scoped inject_session inject_auth trusted_id
call_arguments schema bridge_session_id ctx auth_token kwargs =
    inject_auth auth_token
      (inject_session (is_session_scoped schema) (trusted_id bridge_session_id ctx) kwargs)

abbrev describe : String → BridgeView → Reply → String
describe tool_name bridge timed_out =
    "Tool '" <> tool_name <> "' timed out after " <> bridge.tool_call_timeout
    <> "s. The query may be too complex. Please try a simpler request."
describe tool_name bridge (raised message) = "Tool execution error: " <> message
describe tool_name bridge (replied none) = "Tool returned no content."
describe tool_name bridge (replied (some text)) = text

-- `invoke`: the answer that the model reads, whatever happens.
unfoldable pub invoke :
    BridgeView
    → String
    → Fields
    → Option String
    → Option String
    → Option String
    → Dict Json
    → String
unfolding call_arguments
invoke bridge tool_name schema bridge_session_id ctx auth_token kwargs = elim bridge.session [
  | none ↦
      "Tool '" <> tool_name
      <> "' is temporarily unavailable: the MCP server is reconnecting. Please try again in a moment."
  | some call_tool ↦
      describe tool_name bridge
        (call_tool tool_name (call_arguments schema bridge_session_id ctx auth_token kwargs))
]

abbrev pub value_or : Option String → Option Json → Option Json
value_or none given = given
value_or (some s) given = some (str s)

inject_session-lookup :
    (id : Option String) (kwargs : Dict Json) (k : String)
    → lookup k (inject_session true id kwargs)
      ≡ (if k == "session_id" then value_or id (lookup k kwargs) else lookup k kwargs)
unfolding inject_session
inject_session-lookup none kwargs k = ground arith
inject_session-lookup (some s) kwargs k = lookup-insert k "session_id" (str s) kwargs

inject_auth-lookup :
    (token : Option String) (kwargs : Dict Json) (k : String)
    → lookup k (inject_auth token kwargs)
      ≡ (if k == "auth_context" then value_or token (lookup k kwargs) else lookup k kwargs)
unfolding inject_auth
inject_auth-lookup none kwargs k = ground arith
inject_auth-lookup (some s) kwargs k = lookup-insert k "auth_context" (str s) kwargs

-- For a tool that declares a session id, the session gets, under `session_id` and `auth_context`,
-- the values that the server trusts, whatever the model wrote there; where the server has none,
-- what the model wrote goes through; and every other argument is the model's.
pub call_arguments_trusted :
    (schema : Fields) (bridge_session_id ctx auth_token : Option String) (kwargs : Dict Json)
    (k : String)
    → is_session_scoped schema ≡ true
    → lookup k (call_arguments schema bridge_session_id ctx auth_token kwargs) ≡ (
        if k == "auth_context"
        then value_or auth_token (lookup k kwargs)
        else if k == "session_id"
        then value_or (trusted_id bridge_session_id ctx) (lookup k kwargs)
        else lookup k kwargs)
unfolding call_arguments
call_arguments_trusted schema b c token kwargs k scoped =
    let kwargs' = inject_session true (trusted_id b c) kwargs in
    rw (scoped, inject_auth-lookup, inject_session-lookup)
      (ground
        (arith, eq_iff k "auth_context", eq_iff k "session_id", eq_iff "auth_context" "session_id"))
