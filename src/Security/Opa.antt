-- ===== src/Security/Opa.antt =====
-- `OpaClient` of platform_sdk/security.py. What the HTTP client brings back for the attempt with
-- a given number is the argument `ask`, and the time of its end is the argument `clock`.
pub mod Laws
use ai_platform_sdk.Prelude.{
  ℕ, zero, suc, String, Bool, true, false, Option, none, some, List, [], ◌∷◌,
}
use ai_platform_sdk.Prelude.Dict.{Dict, update}
use ai_platform_sdk.Json
use ai_platform_sdk.Json.{Json, Fields, str, truthy}
use ai_platform_sdk.Resilience.{
  CircuitBreaker, circuit_breaker, is_open, record_success, record_failure,
}

-- `MCPConfig`, as far as the client reads it.
pub record OpaConfig : Type 0 where
  pub environment : String
  pub agent_role : String
  pub opa_max_retries : ℕ
  pub cb_failure_threshold : ℕ
  pub cb_recovery_timeout : ℕ

pub record OpaClient : Type 0 where
  pub environment : String
  pub agent_role : String
  pub max_retries : ℕ
  pub cb : CircuitBreaker

unfoldable pub opa_client : OpaConfig → OpaClient
opa_client config = record {
  environment = config.environment;
  agent_role = config.agent_role;
  max_retries = config.opa_max_retries;
  cb = circuit_breaker "opa" config.cb_failure_threshold config.cb_recovery_timeout;
}

-- How a POST ends: a response that `raise_for_status` passes, with its body if that is JSON, or
-- an exception of `post` or `raise_for_status`.
pub data Reply : Type 0 where
  response : Option Json → Reply
  timeout_exception : Reply
  http_status_error : ℕ → Reply
  other_exception : Reply

-- One pass through the `try`: the decision, or which `except` clause is entered.
pub data Outcome : Type 0 where
  decision : Bool → Outcome
  refused : Outcome
  transient : Outcome

-- `data.get("result", False)`
abbrev result_of : Option Json → Json
result_of none = Json.bool false
result_of (some v) = v

-- A body that is no JSON, or no mapping, raises and is caught by `except Exception`.
unfoldable pub outcome : Reply → Outcome
outcome (response none) = transient
outcome (response (some (Json.obj d))) = decision (truthy (result_of (Json.get "result" d)))
outcome (response (some _)) = transient
outcome timeout_exception = transient
outcome (http_status_error status) = refused
outcome other_exception = transient

-- `input_data`: the caller's payload, overwritten by what the server stamps.
unfoldable pub input_data : OpaClient → String → Dict Json → Dict Json
input_data opa tool_name payload = update payload (
    ("tool", str tool_name)
    ∷ ("environment", str opa.environment)
    ∷ ("agent_role", str opa.agent_role)
    ∷ [])

module _ (ask : ℕ → Dict Json → Reply) (clock : ℕ → ℕ) (input : Dict Json) where
  -- The `for` loop, with the attempts left, the number of this attempt and the breaker.
  unfoldable pub attempts : ℕ → ℕ → CircuitBreaker → Bool × CircuitBreaker
  attempts zero attempt cb = (false, cb)
  attempts (suc left) attempt cb = elim (outcome (ask attempt input)) [
    | decision allowed ↦ (allowed, record_success cb)
    | refused ↦ (false, record_failure (clock attempt) cb)
    | transient ↦ attempts left (suc attempt) (record_failure (clock attempt) cb)
  ]

-- The decision, and the client after the call that starts at `now`.
unfoldable pub authorize :
    (ℕ → Dict Json → Reply) → (ℕ → ℕ) → ℕ → OpaClient → String → Dict Json → Bool × OpaClient
unfolding attempts
authorize ask clock now opa tool_name payload = elim (is_open now opa.cb) [
  | true ↦ (false, opa)
  | false ↦
      let (allowed, cb) =
        attempts ask clock (input_data opa tool_name payload) opa.max_retries 0 opa.cb in
      (allowed, record opa { cb = cb })
]
