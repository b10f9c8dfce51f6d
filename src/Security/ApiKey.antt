-- ===== src/Security/ApiKey.antt =====
-- `make_api_key_verifier` of platform_sdk/security.py, and `ApiKeyVerifier` of
-- platform_sdk/services/api_key_verifier.py, which is the same dependency without an environment.
pub mod Laws
use ai_platform_sdk.Prelude.{
  ℕ, String, Bool, true, false, Option, none, some, ◌==◌, if◌then◌else◌, compare_digest,
}

-- The dependency returns the credentials, raises an `HTTPException` with a status, or lets the
-- `TypeError` of `compare_digest` through.
pub data Verdict : Type 0 where
  accepted : String → Verdict
  rejected : ℕ → Verdict
  type_error : Verdict

-- `_static_key or os.environ.get("INTERNAL_API_KEY", "")`
abbrev pub text_or : Option String → Option String → String
text_or none none = ""
text_or none (some v) = v
text_or (some s) none = s
text_or (some s) (some v) = if s == "" then v else s

-- The test of `X-Environment`, made only when an environment is configured.
unfoldable pub environment_matches : Option String → Option String → Bool
environment_matches none got = true
environment_matches (some e) none = false
environment_matches (some e) (some got) = got == e

-- `_verify`, for the key given at creation, the key of the process environment, the configured
-- environment, the request's `X-Environment` header and its bearer credentials.
unfoldable pub verify :
    Option String → Option String → Option String → Option String → String → Verdict
unfolding environment_matches
verify api_key env_key environment header credentials =
    let key = text_or api_key env_key in
    if key == "" then rejected 500 else elim (compare_digest credentials key) [
      | none ↦ type_error
      | some false ↦ rejected 401
      | some true ↦
          if environment_matches environment header then accepted credentials else rejected 403
    ]

-- `ApiKeyVerifier.create_dependency`
unfoldable pub verifier_dependency : Option String → Option String → String → Verdict
verifier_dependency api_key env_key credentials =
    let key = text_or api_key env_key in
    if key == "" then rejected 500 else elim (compare_digest credentials key) [
      | none ↦ type_error
      | some false ↦ rejected 401
      | some true ↦ accepted credentials
    ]
