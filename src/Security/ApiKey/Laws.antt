-- ===== src/Security/ApiKey/Laws.antt =====
-- When the bearer dependency accepts, and how its two implementations compare.
use ai_platform_sdk.Prelude.{
  String, ◌≡◌, refl, ◌≢◌, ◌↔◌, ◌⊎◌, inl, true, Option, none, some, arith, eq_iff, is_ascii,
  compare_digest,
}
use ai_platform_sdk.Security.ApiKey.{
  accepted, text_or, environment_matches, verify, verifier_dependency,
}

environment_matches_iff :
    (environment header : Option String)
    → (environment_matches environment header ≡ true)
      ↔ ((environment ≡ none) ⊎ (header ≡ environment))
unfolding environment_matches
environment_matches_iff none header = (λ h. inl refl, λ h. refl)
environment_matches_iff (some e) none = ground arith
environment_matches_iff (some e) (some got) = ground (arith, eq_iff got e)

-- A request is accepted, with the token `t`, exactly when `t` is its bearer token, that token is
-- the configured key, is not empty and is ASCII, and no environment is configured or the
-- request's `X-Environment` header is the configured one.
pub verify-accepted :
    (api_key env_key environment header : Option String) (credentials t : String)
    → (verify api_key env_key environment header credentials ≡ accepted t) ↔ (
        (t ≡ credentials)
        × (credentials ≡ text_or api_key env_key)
        × (credentials ≢ "")
        × (is_ascii credentials ≡ true)
        × ((environment ≡ none) ⊎ (header ≡ environment)))
unfolding verify compare_digest
verify-accepted api_key env_key environment header credentials t =
    let key = text_or api_key env_key in
    ground (
      arith,
      eq_iff key "",
      eq_iff credentials "",
      eq_iff credentials key,
      environment_matches_iff environment header,
    )

-- `ApiKeyVerifier` decides every request as `make_api_key_verifier` without an environment does.
pub verifier_dependency-verify :
    (api_key env_key header : Option String) (credentials : String)
    → verifier_dependency api_key env_key credentials
      ≡ verify api_key env_key none header credentials
unfolding verify verifier_dependency environment_matches
verifier_dependency-verify api_key env_key header credentials = ground arith
