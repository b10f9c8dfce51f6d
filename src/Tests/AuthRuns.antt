-- ===== src/Tests/AuthRuns.antt =====
-- platform_sdk/auth.py and mcp_auth.py at concrete inputs.
use ai_platform_sdk.Prelude.{
  String, ◌≡◌, refl, inl, inr, Option, none, some, List, [], ◌∷◌, ◌==◌, if◌then◌else◌, Bool-cases,
  is_ascii, has_dot, eq_iff, arith, split_dots, compare_digest,
}
use ai_platform_sdk.Prelude.Dict.{lookup, update}
use ai_platform_sdk.Json
use ai_platform_sdk.Json.{Json, Fields, obj, str}
use ai_platform_sdk.Auth.{AgentContext, post_init, can_access_account, build_row_filters_crm}
use ai_platform_sdk.Auth.Secrets.{Environ, get_hmac_secret, get_previous_hmac_secret}
use ai_platform_sdk.Auth.Token.{
  Codec, yields, to_dict, sign, from_dict, verify_and_split, to_header_value, from_header,
}
use ai_platform_sdk.Auth.Rotation.{
  IsHex, Carries, IsSigned, from_header-to_header_value, from_header_rotation, from_header-IsSigned,
}
use ai_platform_sdk.Auth.Access.{admits, build_row_filters_crm-can_access_account}
use ai_platform_sdk.Mcp.Middleware.{Scope, Exit, returned, raw_header, binding, call_once}
use ai_platform_sdk.Mcp.Middleware.{call}
use ai_platform_sdk.Auth.Token.{Decoded, claims, bad_signature, from_jwt}
use ai_platform_sdk.Auth.Secrets.{get_previous_jwt_secret}
use ai_platform_sdk.Testing.{rm, persona_to_jwt_payload, jwt_claims, make_persona_jwt}
use ai_platform_sdk.Testing.Personas.{Verifies, context_of, from_jwt-make_persona_jwt}
use ai_platform_sdk.Bridge.Identity.{
  agent_context_header, build_auth_headers, call-build_auth_headers,
}

abbrev advisor : AgentContext
advisor = record {
  rm_id = "rm-7";
  rm_name = "Ada";
  role = "rm";
  team_id = "north";
  assigned_account_ids = "acc-1" ∷ "acc-2" ∷ [];
  compliance_clearance = [];
  user_email = "ada@example.com";
  user_role = "owner";
}

-- A digest by two secrets, and an encoding that knows one payload.
abbrev sample_digest : String → String → String
sample_digest key message = if key == "new-secret" then "aa11" else "bb22"

abbrev sample_codec : Codec
sample_codec = record {
  digest = sample_digest;
  encode = λ d. "e30=";
  decode = λ s. if s == "e30=" then some (obj (to_dict (post_init advisor))) else none;
}

sample_codec-IsHex : IsHex sample_codec
sample_codec-IsHex = record {
  no_dot = λ key message.
      unfold has_dot in
      elim (Bool-cases (key == "new-secret")) [
        | inl same ↦ rw same refl
        | inr other ↦ rw other refl
      ];
  ascii = λ key message.
      unfold is_ascii in
      elim (Bool-cases (key == "new-secret")) [
        | inl same ↦ rw same refl
        | inr other ↦ rw other refl
      ];
}

advisor-Carries : Carries sample_codec (post_init advisor)
unfolding has_dot
advisor-Carries = record { no_dot = refl; decodes = refl }

abbrev sender : Environ
sender = record {
  jwt_secret = some "jwt-secret";
  jwt_secret_previous = none;
  context_hmac_secret = some "old-secret";
  context_hmac_secret_previous = none;
  environment = some "prod";
}

abbrev receiver : Environ
receiver = record sender {
  context_hmac_secret = some "new-secret";
  context_hmac_secret_previous = some "old-secret";
}

from_header-to_header_value_example :
    from_header sample_codec sender (to_header_value sample_codec sender (post_init advisor))
    ≡ yields (post_init advisor)
from_header-to_header_value_example =
    from_header-to_header_value sample_codec sender advisor sample_codec-IsHex advisor-Carries

receiver_previous : get_previous_hmac_secret receiver ≡ some (get_hmac_secret sender)
unfolding get_previous_hmac_secret get_hmac_secret
receiver_previous = refl

from_header_rotation_example :
    from_header sample_codec receiver (to_header_value sample_codec sender (post_init advisor))
    ≡ yields (post_init advisor)
from_header_rotation_example =
    from_header_rotation sample_codec sender receiver advisor sample_codec-IsHex advisor-Carries
      receiver_previous

header_accepted : from_header sample_codec receiver "e30=.bb22" ≡ yields (post_init advisor)
unfolding from_header to_header_value post_init to_dict from_dict verify_and_split sign split_dots
    compare_digest get_hmac_secret get_previous_hmac_secret Json.get
header_accepted = refl

from_header-IsSigned_example :
    (payload : String) × ((sig : String) × (split_dots "e30=.bb22" ≡ payload ∷ sig ∷ [])
      × IsSigned sample_codec receiver payload sig)
    × (from_dict (sample_codec.decode payload) ≡ yields (post_init advisor))
from_header-IsSigned_example =
    from_header-IsSigned sample_codec receiver "e30=.bb22" (post_init advisor) header_accepted

build_row_filters_crm-can_access_account_example :
    admits (build_row_filters_crm advisor) "Account" "acc-2" ≡ can_access_account advisor "acc-2"
build_row_filters_crm-can_access_account_example =
    build_row_filters_crm-can_access_account advisor "acc-2" (λ h. cc)

abbrev request : Scope
request = record { kind = "http"; headers = ("x-agent-context", some "e30=.bb22") ∷ [] }

abbrev count_calls :
    Option AgentContext → List (Option AgentContext) → Exit × List (Option AgentContext)
count_calls bound seen = (returned, bound ∷ seen)

request_header : raw_header request ≡ some "e30=.bb22"
unfolding raw_header lookup update
request_header = refl

call_once_example :
    let served =
      count_calls (binding (from_header sample_codec receiver) "http" "e30=.bb22" none) [] in
    call (from_header sample_codec receiver) count_calls request none []
    ≡ (served.0, served.1, none)
call_once_example =
    call_once (from_header sample_codec receiver) count_calls request "e30=.bb22" none []
      request_header

-- The request that an agent's bridge sends, as the server sees it.
abbrev bridged : Scope
bridged = record {
  kind = "http";
  headers =
      ("x-agent-context", some (to_header_value sample_codec sender (post_init advisor))) ∷ [];
}

bridged_header :
    raw_header bridged
    ≡ lookup agent_context_header
        (build_auth_headers sample_codec sender (some (post_init advisor)))
unfolding raw_header lookup update build_auth_headers
bridged_header = refl

call-build_auth_headers_example :
    call (from_header sample_codec sender) count_calls bridged none []
    ≡ (returned, some (post_init advisor) ∷ [], none)
call-build_auth_headers_example =
    call-build_auth_headers sample_codec sender count_calls advisor bridged none []
      sample_codec-IsHex advisor-Carries refl bridged_header

-- Tokens that only say which secret signed them, of the claims of a persona.
abbrev rm_claims : Fields
rm_claims = jwt_claims 1000 (persona_to_jwt_payload rm)

abbrev secret_token : Fields → String → String
secret_token d secret = secret

abbrev read_token : String → String → Decoded
read_token token secret = if token == secret then claims rm_claims else bad_signature

secret_token-Verifies : Verifies secret_token read_token rm_claims
secret_token-Verifies = record {
  accepts = λ secret. ground (arith, eq_iff secret secret);
  rejects = λ secret other differ. ground (arith, eq_iff secret other, differ);
}

sender_previous : get_previous_jwt_secret sender ≡ none
unfolding get_previous_jwt_secret
sender_previous = refl

from_jwt-make_persona_jwt_example :
    from_jwt read_token sender
      (make_persona_jwt secret_token sender 1000 (persona_to_jwt_payload rm))
    ≡ yields (post_init (context_of rm))
from_jwt-make_persona_jwt_example =
    from_jwt-make_persona_jwt secret_token read_token sender 1000 rm secret_token-Verifies
      sender_previous
