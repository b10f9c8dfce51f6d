-- ===== src/Testing/Personas.antt =====
-- Which tokens of the fixtures of platform_sdk/testing/plugin.py platform_sdk/auth.py accepts.
use ai_platform_sdk.Prelude.{
  ℕ, String, ◌≡◌, ◌≢◌, refl, sym, ap, ◌∙◌, Option, none, some, arith, eq_iff, Option-cases, inl,
  inr,
}
use ai_platform_sdk.Json
use ai_platform_sdk.Json.{Fields, texts}
use ai_platform_sdk.Auth.{AgentContext, post_init}
use ai_platform_sdk.Auth.Secrets.{
  Environ, get_or, default_dev_secret, get_jwt_secret, get_previous_jwt_secret,
}
use ai_platform_sdk.Auth.Token.{
  Checked, yields, raises, invalid_signature, Decoded, claims, bad_signature, from_claims,
  from_payload, from_jwt,
}
use ai_platform_sdk.Auth.Rotation.{text_items-texts}
use ai_platform_sdk.Testing.{
  Persona, jwt_secret_default, persona_to_jwt_payload, updated, jwt_claims, make_persona_jwt,
}

-- The identity that a persona stands for.
abbrev pub context_of : Persona → AgentContext
context_of p = record {
  rm_id = p.rm_id;
  rm_name = p.rm_name;
  role = p.role;
  team_id = p.team_id;
  assigned_account_ids = p.assigned_account_ids;
  compliance_clearance = p.compliance_clearance;
  user_email = "";
  user_role = "";
}

from_payload-jwt_claims :
    (now : ℕ) (p : Persona)
    → from_payload (claims (jwt_claims now (persona_to_jwt_payload p)))
      ≡ yields (post_init (context_of p))
unfolding from_payload from_claims Json.get Json.put updated jwt_claims persona_to_jwt_payload
from_payload-jwt_claims now p =
    simp (text_items-texts p.assigned_account_ids, text_items-texts p.compliance_clearance)

-- What PyJWT documents of a token with these claims: it decodes under the secret that signed it
-- and under no other.
pub record Verifies (encode : Fields → String → String) (decode : String → String → Decoded)
    (d : Fields) : Type 0 where
  pub accepts : (secret : String) → decode (encode d secret) secret ≡ claims d
  pub rejects :
      (secret other : String) → secret ≢ other → decode (encode d secret) other ≡ bad_signature

abbrev pub read_back : Option String → Persona → Checked AgentContext
read_back none p = raises invalid_signature
read_back (some secret) p = yields (post_init (context_of p))

module _ (decode : String → String → Decoded) (env : Environ) (token : String) where
  from_jwt-claims :
      (d : Fields)
      → decode token (get_jwt_secret env) ≡ claims d
      → from_jwt decode env token ≡ from_payload (claims d)
  unfolding from_jwt
  from_jwt-claims d h = rw (h, from_jwt) refl

  from_jwt-bad_signature :
      decode token (get_jwt_secret env) ≡ bad_signature
      → get_previous_jwt_secret env ≡ none
      → from_jwt decode env token ≡ raises invalid_signature
  unfolding from_payload from_jwt
  from_jwt-bad_signature h previous = rw (h, previous, from_jwt) refl

defaults_differ : jwt_secret_default ≢ default_dev_secret
defaults_differ h = ground (arith, eq_iff jwt_secret_default default_dev_secret)

-- How a token decodes in the library, by the variable that both sides read.
decode-make_persona_jwt :
    (encode : Fields → String → String) (decode : String → String → Decoded) (env : Environ)
    (now : ℕ) (p : Persona) (variable : Option String)
    → env.jwt_secret ≡ variable
    → decode (make_persona_jwt encode env now (persona_to_jwt_payload p)) (get_jwt_secret env)
      ≡ decode
          (encode (jwt_claims now (persona_to_jwt_payload p)) (get_or variable jwt_secret_default))
          (get_or variable default_dev_secret)
unfolding make_persona_jwt get_jwt_secret
decode-make_persona_jwt encode decode env now p variable e =
    ap
      (λ v.
        decode (encode (jwt_claims now (persona_to_jwt_payload p)) (get_or v jwt_secret_default))
          (get_or v default_dev_secret))
      e

-- Where `JWT_SECRET` is set, the token of a persona is read back as the persona's identity, with its
-- role, its accounts and its clearance. Where it is not set, no token of the fixtures is accepted,
-- as the fixture and the library have different defaults. This is while no previous secret is set.
pub from_jwt-make_persona_jwt :
    (encode : Fields → String → String) (decode : String → String → Decoded) (env : Environ)
    (now : ℕ) (p : Persona)
    → Verifies encode decode (jwt_claims now (persona_to_jwt_payload p))
    → get_previous_jwt_secret env ≡ none
    → from_jwt decode env (make_persona_jwt encode env now (persona_to_jwt_payload p))
      ≡ read_back env.jwt_secret p
from_jwt-make_persona_jwt encode decode env now p v previous =
    let token = make_persona_jwt encode env now (persona_to_jwt_payload p) in
    elim (Option-cases env.jwt_secret) [
      | inl unset ↦
          from_jwt-bad_signature decode env token
            (decode-make_persona_jwt encode decode env now p none unset
              ∙ v.rejects jwt_secret_default default_dev_secret defaults_differ)
            previous
          ∙ ap (λ o. read_back o p) (sym unset)
      | inr (secret, set) ↦
          from_jwt-claims decode env token (jwt_claims now (persona_to_jwt_payload p))
            (decode-make_persona_jwt encode decode env now p (some secret) set ∙ v.accepts secret)
          ∙ from_payload-jwt_claims now p
          ∙ ap (λ o. read_back o p) (sym set)
    ]
