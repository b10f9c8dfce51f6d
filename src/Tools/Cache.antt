-- ===== src/Tools/Cache.antt =====
-- platform_sdk/cache.py. The Redis server is the parameter `Redis`; a reading of the clock when a
-- method starts and one when its request ends are arguments.
pub mod Laws
pub mod Construction
pub mod Denied
pub mod Order
use ai_platform_sdk.Prelude.{
  ℕ, String, ◌<>◌, Bool, true, false, ◌||◌, not, Option, none, some, List, [], ◌∷◌, ◌==◌,
  if◌then◌else◌,
}
use ai_platform_sdk.Prelude.Dict.{Dict, update}
use ai_platform_sdk.Json.{Json, str}
use ai_platform_sdk.Resilience.{
  CircuitBreaker, circuit_breaker, is_open, record_success, record_failure,
}
use ai_platform_sdk.Tools.Errors.{JsonText, is_error_response}

-- How a GET ends: an exception, no value, a text, or bytes that are UTF-8 text or are not.
pub data Fetched : Type 0 where
  failed miss : Fetched
  text : String → Fetched
  bytes : Option String → Fetched

pub record Redis : Type 1 where
  pub State : Type 0
  pub fetch : String → State → Fetched
  -- `setex(key, ttl, value)`: whether it returned, and the server's state
  pub setex : String → ℕ → String → State → Bool × State

-- `ToolResultCache`; `has_redis` is whether its client is not `None`.
pub record ToolResultCache : Type 0 where
  pub has_redis : Bool
  pub ttl : ℕ
  pub cb : CircuitBreaker

abbrev pub tool_result_cache : Bool → ℕ → ToolResultCache
tool_result_cache has_redis ttl = record {
  has_redis = has_redis;
  ttl = ttl;
  cb = circuit_breaker "redis_cache" 5 30;
}

-- `self._redis is None or self._cb.is_open`
unfoldable pub bypassed : ℕ → ToolResultCache → Bool
bypassed now c = not c.has_redis || is_open now c.cb

abbrev succeed : ToolResultCache → ToolResultCache
succeed c = record c { cb = record_success c.cb }

abbrev fail_at : ℕ → ToolResultCache → ToolResultCache
fail_at now c = record c { cb = record_failure now c.cb }

-- The body of the `try`; bytes that do not decode raise after the success was recorded.
unfoldable pub settle : ℕ → Fetched → ToolResultCache → Option String × ToolResultCache
settle ended failed c = (none, fail_at ended c)
settle ended miss c = (none, succeed c)
settle ended (text v) c = (some v, succeed c)
settle ended (bytes (some v)) c = (some v, succeed c)
settle ended (bytes none) c = (none, fail_at ended (succeed c))

-- `json.dumps({"fn": fn_name, **kwargs}, sort_keys=True, default=str)` is the argument `dumps` at
-- that dict, and `hashlib.sha256(…).hexdigest()` the argument `digest`.
unfoldable pub make_cache_key :
    (Dict Json → String) → (String → String) → String → Dict Json → String
make_cache_key dumps digest fn_name kwargs =
    "tool_cache:" <> digest (dumps (update (("fn", str fn_name) ∷ []) kwargs))

-- The four readings of the clock in one call of a cached tool.
pub record Times : Type 0 where
  pub get_started : ℕ
  pub get_ended : ℕ
  pub set_started : ℕ
  pub set_ended : ℕ

module _ (R : Redis) where
  unfoldable pub cache_get :
      ℕ → ℕ → String → ToolResultCache → R.State → Option String × ToolResultCache
  unfolding bypassed settle
  cache_get started ended key c s =
      if bypassed started c then (none, c) else settle ended (R.fetch key s) c

  unfoldable pub cache_set :
      ℕ → ℕ → String → String → ToolResultCache → R.State → ToolResultCache × R.State
  unfolding bypassed
  cache_set started ended key value c s =
      if bypassed started c
      then (c, s)
      else let (returned, s') = R.setex key c.ttl value s in
        if returned then (succeed c, s') else (fail_at ended c, s')

  -- What a call changes: the cache object, the server, and the state of the function.
  pub record World (F : Type 0) : Type 0 where
    pub cache : ToolResultCache
    pub server : R.State
    pub inner : F

  module _ (json : JsonText) {F : Type 0} (fn : F → Option String × F) where
    -- The function's result, stored unless it is an error; `none` is an exception of the function.
    unfoldable pub store_result : Times → String → Option String → World F → Option String × World F
    unfolding cache_set
    store_result t key none w = (none, w)
    store_result t key (some result) w =
        if is_error_response json result
        then (some result, w)
        else let (c, s) = cache_set t.set_started t.set_ended key result w.cache w.server in
          (some result, record w { cache = c; server = s })

    unfoldable pub run_uncached : Times → String → World F → Option String × World F
    unfolding store_result
    run_uncached t key w =
        let (result, f) = fn w.inner in store_result t key result (record w { inner = f })

    -- `wrapper` of `cached_tool`, for the key of its arguments.
    unfoldable pub cached_call : Times → String → World F → Option String × World F
    unfolding cache_get run_uncached
    cached_call t key w =
        let (cached, c) = cache_get t.get_started t.get_ended key w.cache w.server in
        elim cached [
          | some v ↦ (some v, record w { cache = c })
          | none ↦ run_uncached t key (record w { cache = c })
        ]
