-- ===== src/Testing.antt =====
-- The personas and the tokens of platform_sdk/testing/__init__.py and plugin.py. PyJWT's `encode` is
-- an argument, and the clock is in seconds.
pub mod Bridge
pub mod Fakes
pub mod Personas
use ai_platform_sdk.Prelude.{
  ℕ, ◌+◌, String, Bool, true, false, Option, none, some, List, [], ◌∷◌, ◌==◌, if◌then◌else◌,
}
use ai_platform_sdk.Prelude.Dict.{Dict}
use ai_platform_sdk.Json.{Json, nat, str, arr, Fields, end, field, put, texts}
use ai_platform_sdk.Auth.Secrets.{Environ, get_or}

pub record Persona : Type 0 where
  pub rm_id : String
  pub rm_name : String
  pub role : String
  pub team_id : String
  pub assigned_account_ids : List String
  pub compliance_clearance : List String

abbrev pub manager : Persona
manager = record {
  rm_id = "test-manager-001";
  rm_name = "Alice Manager (test)";
  role = "manager";
  team_id = "test-team";
  assigned_account_ids = [];
  compliance_clearance = "standard" ∷ "aml_view" ∷ "compliance_full" ∷ [];
}

abbrev pub senior_rm : Persona
senior_rm = record {
  rm_id = "test-senior-rm-001";
  rm_name = "Bob Senior RM (test)";
  role = "senior_rm";
  team_id = "test-team";
  assigned_account_ids = [];
  compliance_clearance = "standard" ∷ "aml_view" ∷ [];
}

abbrev pub rm : Persona
rm = record {
  rm_id = "test-rm-001";
  rm_name = "Carol RM (test)";
  role = "rm";
  team_id = "test-team";
  assigned_account_ids = "001000000000001AAA" ∷ "001000000000002AAA" ∷ [];
  compliance_clearance = "standard" ∷ [];
}

abbrev pub readonly : Persona
readonly = record {
  rm_id = "test-readonly-001";
  rm_name = "Dave Readonly (test)";
  role = "readonly";
  team_id = "test-team";
  assigned_account_ids = [];
  compliance_clearance = "standard" ∷ [];
}

abbrev pub test_personas : Dict Persona
test_personas =
    ("manager", manager) ∷ ("senior_rm", senior_rm) ∷ ("rm", rm) ∷ ("readonly", readonly) ∷ []

-- `_persona_to_jwt_payload`
unfoldable pub persona_to_jwt_payload : Persona → Fields
unfolding texts
persona_to_jwt_payload p = field "sub" (str p.rm_id) (
    field "name" (str p.rm_name) (
      field "role" (str p.role) (
        field "team_id" (str p.team_id) (
          field "assigned_account_ids" (arr (texts p.assigned_account_ids))
            (field "compliance_clearance" (arr (texts p.compliance_clearance)) end)))))

-- `{**d, **e}`
unfoldable pub updated : Fields → Fields → Fields
unfolding put
updated d end = d
updated d (field k v e) = updated (put k v d) e

-- The claims of `_make_jwt`
unfoldable pub jwt_claims : ℕ → Fields → Fields
unfolding updated
jwt_claims now payload =
    updated (field "iat" (nat now) (field "exp" (nat (now + 3600)) end)) payload

abbrev pub jwt_secret_default : String
jwt_secret_default = "test-secret-change-in-prod"

-- The fixture `jwt_secret`
abbrev pub jwt_secret : Environ → String
jwt_secret env = get_or env.jwt_secret jwt_secret_default

-- The fixture `make_persona_jwt`: it takes a payload as the fixtures of the personas give it.
unfoldable pub make_persona_jwt : (Fields → String → String) → Environ → ℕ → Fields → String
unfolding jwt_claims
make_persona_jwt encode env now payload = encode (jwt_claims now payload) (jwt_secret env)

-- The fixtures of the other secrets, and of the claims of each persona.
abbrev pub fixture_hmac_secret : Environ → String
fixture_hmac_secret env = get_or env.context_hmac_secret "test-context-secret-change-in-prod"

abbrev pub fixture_api_key : Option String → String
fixture_api_key variable = get_or variable "test-key"

unfoldable pub persona_claims : Dict Fields
unfolding persona_to_jwt_payload
persona_claims =
    ("manager", persona_to_jwt_payload manager)
    ∷ ("senior_rm", persona_to_jwt_payload senior_rm)
    ∷ ("rm", persona_to_jwt_payload rm)
    ∷ ("readonly", persona_to_jwt_payload readonly)
    ∷ []
