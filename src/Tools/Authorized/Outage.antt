-- ===== src/Tools/Authorized/Outage.antt =====
-- A tool of platform_sdk/authorized_tool.py under the policy client of platform_sdk/security.py.
use ai_platform_sdk.Prelude.{
  ℕ, suc, ◌+◌, ◌≤◌, ◌<◌, String, ◌≡◌, refl, Bool, true, false, Option, none, some, ap,
}
use ai_platform_sdk.Prelude.Dict.{Dict}
use ai_platform_sdk.Json.{Json, obj}
use ai_platform_sdk.Resilience.{is_open}
use ai_platform_sdk.Security.Opa.{OpaClient, Reply, outcome, transient, input_data, authorize}
use ai_platform_sdk.Security.Opa.Laws.{authorize_outage}
use ai_platform_sdk.Tools.Errors.{
  JsonText, error_fields, is_error_response, is_error_response-make_error,
}
use ai_platform_sdk.Tools.Authorized.{ToolSpec, validate, wrapper, invalid_input}

-- The client as the wrapper's policy, beside the state of the function.
abbrev pub policy :
    {F : Type 0}
    → (ℕ → Dict Json → Reply)
    → (ℕ → ℕ)
    → ℕ
    → String
    → Dict Json
    → OpaClient × F
    → Bool × (OpaClient × F)
policy ask clock now tool_name kwargs (opa, f) =
    let (allowed, opa') = authorize ask clock now opa tool_name kwargs in (allowed, (opa', f))

module _ (json : JsonText) {S : Type 0} (decide : String → Dict Json → S → Bool × S) where
  -- A policy that denies without a change of state leaves the state to the wrapper's answer.
  wrapper_blocked :
      (fn : Dict Json → S → Option String × S) (spec : ToolSpec) (kwargs : Dict Json) (s : S)
      → ((code message : String)
          → json.loads (json.dumps (error_fields code message))
            ≡ some (obj (error_fields code message)))
      → ((k : Dict Json) → decide spec.tool_name k s ≡ (false, s))
      → let r = wrapper json decide fn true spec kwargs s in
        (r.1 ≡ s) × (is_error_response json r.0 ≡ true)
  unfolding wrapper
  wrapper_blocked fn spec kwargs s reads denies = go (validate spec spec.require_input kwargs) refl
    where
      invalid : (o : Option String) → is_error_response json (invalid_input json decide fn o) ≡ true
      invalid none = is_error_response-make_error json _ _ (reads _ _)
      invalid (some name) = is_error_response-make_error json _ _ (reads _ _)

      go :
          (o : Option (Dict Json))
          → validate spec spec.require_input kwargs ≡ o
          → let r = wrapper json decide fn true spec kwargs s in
            (r.1 ≡ s) × (is_error_response json r.0 ≡ true)
      go none e = rw (e, wrapper) (refl, invalid spec.require_input)
      go (some k) e =
          rw (e, wrapper, denies k) (refl, is_error_response-make_error json _ _ (reads _ _))

-- An outage of the policy engine blocks every tool: when every attempt of a call fails transiently
-- and with them the failures reach the threshold, then every tool that is called before the
-- recovery timeout has elapsed since the latest attempt answers with what is recognised as an
-- error, is not run, and leaves the policy client as it was, whatever the engine would answer.
pub outage_blocks_tools :
    {F : Type 0} (json : JsonText) (ask ask' : ℕ → Dict Json → Reply) (clock clock' : ℕ → ℕ)
    (now later n : ℕ) (opa : OpaClient) (tool_name : String) (payload : Dict Json)
    (fn : Dict Json → OpaClient × F → Option String × (OpaClient × F)) (spec : ToolSpec)
    (kwargs : Dict Json) (f : F)
    → ((code message : String)
        → json.loads (json.dumps (error_fields code message))
          ≡ some (obj (error_fields code message)))
    → is_open now opa.cb ≡ false
    → opa.max_retries ≡ suc n
    → ((j : ℕ) → j < suc n → outcome (ask j (input_data opa tool_name payload)) ≡ transient)
    → opa.cb.failure_threshold ≤ opa.cb.failures + suc n
    → later < clock n + opa.cb.recovery_timeout
    → let after = (authorize ask clock now opa tool_name payload).1 in
      let r = wrapper json (policy ask' clock' later) fn true spec kwargs (after, f) in
      (r.1 ≡ (after, f)) × (is_error_response json r.0 ≡ true)
outage_blocks_tools json ask ask' clock clock' now later n opa tool_name payload fn spec kwargs f
      reads closed tries fails enough soon =
    wrapper_blocked json (policy ask' clock' later) fn spec kwargs
      ((authorize ask clock now opa tool_name payload).1, f) reads
      (λ k.
        ap (λ r. (r.0, (r.1, f)))
          (authorize_outage ask ask' clock clock' now later n opa tool_name spec.tool_name payload k
            closed tries fails enough soon).1)
