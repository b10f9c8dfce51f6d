-- ===== src/Bridge/SessionId.antt =====
-- The context variable of the session id in platform_sdk/mcp_bridge.py, under the use that is
-- documented for it: the token of `set_session_id` is given back when the agent has run.
use mathlib.Core.List.{map-append}
use ai_platform_sdk.Prelude.{
  String, ◌≡◌, refl, ap, ◌∙◌, true, Option, none, some, List, [], ◌∷◌, ◌++◌, map, ◌==◌, arith,
  if◌then◌else◌,
}
use ai_platform_sdk.Prelude.Dict.{Dict, lookup}
use ai_platform_sdk.Json.{Json, Fields}
use ai_platform_sdk.Bridge.Invoke.{
  is_session_scoped, trusted_id, call_arguments, value_or, call_arguments_trusted,
}

-- What `ContextVar.set` returns: the value before.
pub record Token : Type 0 where
  pub old_value : Option String

unfoldable pub set_session_id : String → Option String → Token × Option String
set_session_id session_id ctx = (record { old_value = ctx }, some session_id)

unfoldable pub reset_session_id : Token → Option String → Option String
reset_session_id token ctx = token.old_value

-- What an agent does: it calls a tool, or it runs another agent for a session.
pub data Script : Type 0 where
  done : Script
  call_tool : Dict Json → Script → Script
  run_agent : String → Script → Script → Script

-- The session of a call: that of the bridge, where it has one, or else that of the agent. An empty
-- text is none.
abbrev pub session_of : Option String → Option String → Option String
session_of none none = none
session_of none (some agent) = if agent == "" then none else some agent
session_of (some bridge) none = if bridge == "" then none else some bridge
session_of (some bridge) (some agent) =
    if bridge == "" then (if agent == "" then none else some agent) else some bridge

trusted_id-session_of : (b c : Option String) → trusted_id b c ≡ session_of b c
unfolding trusted_id
trusted_id-session_of none none = refl
trusted_id-session_of none (some agent) = refl
trusted_id-session_of (some bridge) none = ground arith
trusted_id-session_of (some bridge) (some agent) = ground arith

module _ (schema : Fields) (bridge_session_id auth_token : Option String) where
  -- The arguments of the calls, with the variable as state.
  unfoldable pub run_script : Script → Option String → List (Dict Json) × Option String
  unfolding set_session_id reset_session_id call_arguments
  run_script done ctx = ([], ctx)
  run_script (call_tool kwargs s) ctx =
      let (calls, ctx') = run_script s ctx in
      (call_arguments schema bridge_session_id ctx auth_token kwargs ∷ calls, ctx')
  run_script (run_agent session_id body s) ctx =
      let (token, bound) = set_session_id session_id ctx in
      let (inner, after) = run_script body bound in
      let (calls, ctx') = run_script s (reset_session_id token after) in (inner ++ calls, ctx')

  -- The value of an argument as the server trusts it, in a call of the model's.
  abbrev pub trusted : String → Option String → Dict Json → Option Json
  trusted k ctx kwargs =
      if k == "auth_context"
      then value_or auth_token (lookup k kwargs)
      else if k == "session_id"
      then value_or (session_of bridge_session_id ctx) (lookup k kwargs)
      else lookup k kwargs

  call_trusted :
      (ctx : Option String) (kwargs : Dict Json) (k : String)
      → is_session_scoped schema ≡ true
      → lookup k (call_arguments schema bridge_session_id ctx auth_token kwargs)
        ≡ trusted k ctx kwargs
  call_trusted ctx kwargs k scoped =
      call_arguments_trusted schema bridge_session_id ctx auth_token kwargs k scoped
      ∙ ap
          (λ o.
            if k == "auth_context"
            then value_or auth_token (lookup k kwargs)
            else if k == "session_id"
            then value_or o (lookup k kwargs)
            else lookup k kwargs)
          (trusted_id-session_of bridge_session_id ctx)

  -- The values of an argument when every call takes the session of the agent that makes it.
  abbrev pub by_agent : String → Script → Option String → List (Option Json)
  by_agent k done ctx = []
  by_agent k (call_tool kwargs s) ctx = trusted k ctx kwargs ∷ by_agent k s ctx
  by_agent k (run_agent session_id body s) ctx =
      by_agent k body (some session_id) ++ by_agent k s ctx

  -- However agents are nested, every call of a tool that declares a session id gets, under
  -- `session_id`, the session of the bridge, where it has one, or else that of the agent that makes
  -- the call, whatever the model wrote there; and under `auth_context` the identity that the bridge
  -- was given. Where there is none, what the model wrote goes through; and every other argument is
  -- the model's. Afterwards the session is as before.
  pub run_script_trusted :
      (s : Script) (ctx : Option String) (k : String)
      → is_session_scoped schema ≡ true
      → (map (lookup k) (run_script s ctx).0 ≡ by_agent k s ctx) × ((run_script s ctx).1 ≡ ctx)
  unfolding run_script set_session_id reset_session_id
  run_script_trusted done ctx k scoped = (refl, refl)
  run_script_trusted (call_tool kwargs s) ctx k scoped =
      let (calls, after) = run_script_trusted s ctx k scoped in
      (rw (call_trusted ctx kwargs k scoped, calls) refl, after)
  run_script_trusted (run_agent session_id body s) ctx k scoped =
      let (inner, ended) = run_script_trusted body (some session_id) k scoped in
      let (calls, after) = run_script_trusted s ctx k scoped in
      (rw (map-append, inner, calls) refl, after)
