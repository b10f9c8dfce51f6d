-- ===== src/Tools/Cache/Construction.antt =====
-- The construction of a cache in platform_sdk/cache.py, from a configuration and from the
-- environment, and its end. The Redis client is a parameter.
use ai_platform_sdk.Prelude.{
  ℕ, String, ◌≡◌, refl, true, Option, none, some, ◌==◌, Bool-cases, inl, inr, if◌then◌else◌,
}
use ai_platform_sdk.Tools.Cache.{ToolResultCache, tool_result_cache}

-- What the import of the library and the constructor of the client do.
pub data Client : Type 0 where
  connected : Client
  import_error : Client
  raises : Client

-- A cache, none, or an exception.
pub data Made : Type 0 where
  ready : ToolResultCache → Made
  disabled : Made
  error : Made

pub record RedisConfig : Type 0 where
  pub redis_host : String
  pub redis_port : ℕ
  pub redis_password : String

-- `password or None`
abbrev pub or_none : String → Option String
or_none password = if password == "" then none else some password

abbrev pub get_or : String → Option String → String
get_or default none = default
get_or default (some v) = v

-- The `except` clauses of `from_config` and of `from_env`
abbrev pub made : ℕ → Client → Made
made ttl connected = ready (tool_result_cache true ttl)
made ttl import_error = disabled
made ttl raises = error

abbrev pub made_quietly : ℕ → Client → Made
made_quietly ttl connected = ready (tool_result_cache true ttl)
made_quietly ttl import_error = disabled
made_quietly ttl raises = disabled

module _ (client : String → ℕ → Option String → Client) where
  -- `ToolResultCache.from_config`
  unfoldable pub from_config : RedisConfig → ℕ → Made
  from_config config ttl_seconds =
      if config.redis_host == ""
      then disabled
      else made ttl_seconds
          (client config.redis_host config.redis_port (or_none config.redis_password))

  abbrev pub with_port : String → Option String → ℕ → Option ℕ → Made
  with_port host password ttl none = disabled
  with_port host password ttl (some port) = made_quietly ttl (client host port password)

  -- `ToolResultCache.from_env`; a port that is no number raises within the `try`.
  unfoldable pub from_env : (String → Option ℕ) → (String → Option String) → ℕ → Made
  from_env int getenv ttl_seconds =
      let host = get_or "" (getenv "REDIS_HOST") in
      let password = or_none (get_or "" (getenv "REDIS_PASSWORD")) in
      if host == ""
      then disabled
      else with_port host password ttl_seconds (int (get_or "6379" (getenv "REDIS_PORT")))

-- An exception counts as a cache that is not there.
abbrev pub swallowed : Made → Made
swallowed (ready c) = ready c
swallowed disabled = disabled
swallowed error = disabled

made-swallowed : (ttl : ℕ) (c : Client) → made_quietly ttl c ≡ swallowed (made ttl c)
made-swallowed ttl connected = refl
made-swallowed ttl import_error = refl
made-swallowed ttl raises = refl

-- For an environment with the values of a configuration, both ways give the same cache, but that a
-- client that cannot be made raises from `from_config` and only disables the cache of `from_env`.
pub from_env-from_config :
    (client : String → ℕ → Option String → Client) (int : String → Option ℕ)
    (getenv : String → Option String) (config : RedisConfig) (ttl_seconds : ℕ)
    → get_or "" (getenv "REDIS_HOST") ≡ config.redis_host
    → int (get_or "6379" (getenv "REDIS_PORT")) ≡ some config.redis_port
    → get_or "" (getenv "REDIS_PASSWORD") ≡ config.redis_password
    → from_env client int getenv ttl_seconds ≡ swallowed (from_config client config ttl_seconds)
unfolding from_env from_config
from_env-from_config client int getenv config ttl_seconds host port password =
    rw (host, port, password)
      (elim (Bool-cases (config.redis_host == "")) [
        | inl h ↦ rw h refl
        | inr h ↦ rw h (
            made-swallowed ttl_seconds
              (client config.redis_host config.redis_port (or_none config.redis_password)))
      ])
