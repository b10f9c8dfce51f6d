-- ===== src/Auth/Secrets.antt =====
-- The secrets that platform_sdk/auth.py reads from the process environment at each call.
use ai_platform_sdk.Prelude.{
  String, ◌≡◌, ◌≢◌, ◌⊎◌, Bool, true, ◌&&◌, not, Option, none, some, arith, ◌==◌, eq_iff,
  if◌then◌else◌,
}

-- The variables of `os.environ` that are read.
pub record Environ : Type 0 where
  pub jwt_secret : Option String
  pub jwt_secret_previous : Option String
  pub context_hmac_secret : Option String
  pub context_hmac_secret_previous : Option String
  pub environment : Option String

abbrev pub default_dev_secret : String
default_dev_secret = "dev-secret-change-in-prod"

-- `os.environ.get(name, default)`
abbrev pub get_or : Option String → String → String
get_or none default = default
get_or (some v) default = v

-- `v or None`: a variable that is unset or empty is no secret.
abbrev non_empty : Option String → Option String
non_empty none = none
non_empty (some v) = if v == "" then none else some v

unfoldable pub get_jwt_secret : Environ → String
get_jwt_secret env = get_or env.jwt_secret default_dev_secret

unfoldable pub get_hmac_secret : Environ → String
unfolding get_jwt_secret
get_hmac_secret env = get_or env.context_hmac_secret (get_jwt_secret env)

unfoldable pub get_previous_hmac_secret : Environ → Option String
get_previous_hmac_secret env = non_empty env.context_hmac_secret_previous

unfoldable pub get_previous_jwt_secret : Environ → Option String
get_previous_jwt_secret env = non_empty env.jwt_secret_previous

-- `environment or os.environ.get("ENVIRONMENT", "prod")`
abbrev environment_or : Option String → Environ → String
environment_or none env = get_or env.environment "prod"
environment_or (some e) env = if e == "" then get_or env.environment "prod" else e

-- Whether `assert_secrets_configured` returns; if not it raises a `RuntimeError`.
unfoldable pub assert_secrets_configured : Option String → Environ → Bool
unfolding get_jwt_secret
assert_secrets_configured environment env =
    not (not (environment_or environment env == "dev") && get_jwt_secret env == default_dev_secret)

-- A start outside of `dev`, with the environment named or not, goes on only with a JWT secret that
-- is set and is not the default; and then the secret that signs contexts is the default only if
-- `CONTEXT_HMAC_SECRET` itself is set to it.
pub assert_secrets_configured_guards :
    (e : String) (env : Environ)
    → e ≢ ""
    → e ≢ "dev"
    → assert_secrets_configured (some e) env ≡ true
    → (env.jwt_secret ≢ none)
      × (get_jwt_secret env ≢ default_dev_secret)
      × ((get_hmac_secret env ≢ default_dev_secret)
          ⊎ (env.context_hmac_secret ≡ some default_dev_secret))
unfolding assert_secrets_configured get_hmac_secret
assert_secrets_configured_guards e env named not_dev passed = ground (
  arith,
  eq_iff e "",
  eq_iff e "dev",
  eq_iff (get_hmac_secret env) default_dev_secret,
  eq_iff (get_or env.jwt_secret default_dev_secret) default_dev_secret,
)
