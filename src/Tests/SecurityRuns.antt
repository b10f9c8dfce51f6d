-- ===== src/Tests/SecurityRuns.antt =====
-- platform_sdk/resilience.py and security.py at concrete inputs.
use ai_platform_sdk.Prelude.{
  ℕ, suc, zero, ◌+◌, String, ◌≡◌, ◌≢◌, ◌⊎◌, ◌↔◌, true, false, ◌&&◌, Option, none, some, List, [],
  ◌∷◌, arith, ltb, leb, is_ascii,
}
use ai_platform_sdk.Prelude.Dict.{Dict}
use ai_platform_sdk.Json.{Json, str, obj, end, field}
use ai_platform_sdk.Resilience.{circuit_breaker, is_open}
use ai_platform_sdk.Resilience.History.{
  Event, success, failure, replay, trailing_failures, deadline, is_open-replay,
}
use ai_platform_sdk.Security.Opa.{
  OpaClient, Reply, timeout_exception, response, outcome, input_data, authorize,
}
use ai_platform_sdk.Security.Opa.Laws.{GrantedAt, authorize_granted}
use ai_platform_sdk.Security.ApiKey.{accepted, text_or, verify}
use ai_platform_sdk.Security.ApiKey.Laws.{verify-accepted}

abbrev calls : List Event
calls = failure 40 ∷ failure 35 ∷ success ∷ failure 10 ∷ []

is_open-replay_example :
    is_open 60 (replay calls (circuit_breaker "opa" 2 30))
    ≡ (leb 2 (trailing_failures calls) && ltb 60 (deadline 30 calls))
is_open-replay_example = is_open-replay "opa" 2 30 calls 60 (omega arith)

abbrev opa : OpaClient
opa = record {
  environment = "prod";
  agent_role = "rm";
  max_retries = 2;
  cb = circuit_breaker "opa" 2 30;
}

abbrev payload : Dict Json
payload = ("tool", str "other") ∷ ("user", str "u-1") ∷ []

abbrev allow_second : ℕ → Dict Json → Reply
allow_second zero input = timeout_exception
allow_second (suc n) input = response (some (obj (field "result" (Json.bool true) end)))

abbrev ticks : ℕ → ℕ
ticks n = 10 + n

authorize_granted_example : ((authorize allow_second ticks 0 opa "search" payload).0 ≡ true) ↔ (
    (is_open 0 opa.cb ≡ false)
    × ((k : ℕ) × GrantedAt
          (λ j. outcome (allow_second j (input_data opa "search" payload)))
          opa.max_retries
          0
          k))
authorize_granted_example = authorize_granted allow_second ticks 0 opa "search" payload

abbrev key : String
key = "key-1"

verify-accepted_example :
    (verify (some key) none (some "prod") (some "prod") key ≡ accepted key) ↔ (
      (key ≡ key)
      × (key ≡ text_or (some key) none)
      × (key ≢ "")
      × (is_ascii key ≡ true)
      × ((◌≡◌ {A = Option String} (some "prod") none)
          ⊎ (◌≡◌ {A = Option String} (some "prod") (some "prod"))))
verify-accepted_example = verify-accepted (some key) none (some "prod") (some "prod") key key
