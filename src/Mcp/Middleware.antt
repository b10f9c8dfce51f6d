-- ===== src/Mcp/Middleware.antt =====
-- `verify_auth_context` and `AgentContextMiddleware` of platform_sdk/mcp_auth.py. The check of a
-- header, `AgentContext.from_header`, is the argument `from_header`.
use ai_platform_sdk.Prelude.{
  String, ◌≡◌, refl, ◌⊎◌, inl, inr, Bool, not, ◌||◌, ◌&&◌, Option, none, some, List, [], arith,
  ◌==◌, if◌then◌else◌, strip, Bool-cases,
}
use ai_platform_sdk.Prelude.Dict.{lookup, update}
use ai_platform_sdk.Auth.{AgentContext, anonymous}
use ai_platform_sdk.Auth.Token.{Checked, yields, raises}

abbrev or_anonymous : Checked AgentContext → AgentContext
or_anonymous (yields ctx) = ctx
or_anonymous (raises e) = anonymous

-- How the wrapped application ends.
pub data Exit : Type 0 where
  returned raised : Exit

-- An ASGI scope: its type and its headers. A value that is no UTF-8 text is `none`.
pub record Scope : Type 0 where
  pub kind : String
  pub headers : List (String × Option String)

abbrev header_or_empty : Option (Option String) → Option String
header_or_empty none = some ""
header_or_empty (some raw) = raw

-- `dict(headers).get(b"x-agent-context", b"").decode()`: `none` where that raises.
unfoldable pub raw_header : Scope → Option String
unfolding lookup update
raw_header scope = header_or_empty (lookup "x-agent-context" (update [] scope.headers))

abbrev pub carries_headers : String → Bool
carries_headers kind = kind == "http" || kind == "websocket"

module _ (from_header : String → Checked AgentContext) where
  unfoldable pub verify_auth_context : String → AgentContext
  verify_auth_context raw_token =
      if raw_token == "" || strip raw_token == ""
      then anonymous
      else or_anonymous (from_header raw_token)

  -- A token grants what its signed payload says, or the anonymous context.
  pub verify_auth_context_cases :
      (raw_token : String)
      → (verify_auth_context raw_token ≡ anonymous)
        ⊎ (from_header raw_token ≡ yields (verify_auth_context raw_token))
  unfolding verify_auth_context
  verify_auth_context_cases raw_token = ground arith

  module _ {S : Type 0} (app : Option AgentContext → S → Exit × S) where
    -- The value of the context variable, the state of the application, and how the call ends.
    abbrev Run : Type 0
    Run = Exit × S × Option AgentContext

    -- The application runs with a binding of the context variable, which is undone afterwards.
    abbrev pub run_with : Option AgentContext → Option AgentContext → S → Run
    run_with bound before s = let (exit, s') = app bound s in (exit, s', before)

    unfoldable pub with_header : Option String → Option AgentContext → S → Run
    with_header none before s = (raised, s, before)
    with_header (some raw) before s =
        if raw == "" then run_with before before s else elim (from_header raw) [
          | yields ctx ↦ run_with (some ctx) before s
          | raises e ↦ run_with before before s
        ]

    -- `AgentContextMiddleware.__call__`
    unfoldable pub call : Scope → Option AgentContext → S → Run
    unfolding with_header
    call scope before s =
        if carries_headers scope.kind
        then with_header (raw_header scope) before s
        else run_with before before s

-- Under which value of the context variable a request is to be served: the context of its header,
-- where it is a request with a header that verifies, and else the value that there is.
abbrev pub checked_or {ℓ} : {A : Type ℓ} → Option A → Checked A → Option A
checked_or before (yields ctx) = some ctx
checked_or before (raises e) = before

abbrev pub binding :
    (String → Checked AgentContext) → String → String → Option AgentContext → Option AgentContext
binding from_header kind raw before =
    if (kind == "http" || kind == "websocket") && not (raw == "")
    then checked_or before (from_header raw)
    else before

module _ (from_header : String → Checked AgentContext) {S : Type 0}
    (app : Option AgentContext → S → Exit × S) where
  served_by :
      (c : Checked AgentContext) (before : Option AgentContext) (s : S)
      → let served = app (checked_or before c) s in
        (elim c [
          | yields ctx ↦ run_with from_header app (some ctx) before s
          | raises e ↦ run_with from_header app before before s
        ])
        ≡ (served.0, served.1, before)
  served_by (yields ctx) before s = refl
  served_by (raises e) before s = refl

  -- A request whose header is text reaches the application exactly once, and with the application's
  -- own ending: under the context of its header, if it is an HTTP or WebSocket request whose header
  -- is not empty and verifies, and else under the value of the context variable that there is.
  -- Afterwards the variable has the value that it had before, whether the application returned or
  -- raised.
  pub call_once :
      (scope : Scope) (raw : String) (before : Option AgentContext) (s : S)
      → raw_header scope ≡ some raw
      → let served = app (binding from_header scope.kind raw before) s in
        call from_header app scope before s ≡ (served.0, served.1, before)
  unfolding call with_header
  call_once scope raw before s text = elim (Bool-cases (carries_headers scope.kind)) [
    | inl carries ↦ elim (Bool-cases (raw == "")) [
      | inl empty ↦ rw (carries, text, with_header, empty) refl
      | inr given ↦ rw (carries, text, with_header, given) (served_by (from_header raw) before s)
    ]
    | inr other ↦ rw other refl
  ]
