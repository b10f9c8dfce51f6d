-- ===== src/Registry.antt =====
-- platform_sdk/registry/client.py, models.py and exceptions.py: the client of the service
-- registry. What the HTTP client brings back is an argument, and so is the clock: `before` is its
-- reading up to the request and `after` the one behind it.
pub mod Tasks
pub mod Freshness
use ai_platform_sdk.Prelude.{
  ℕ, ◌+◌, String, Bool, true, false, not, Option, none, some, List, [], ◌∷◌, ltb, leb, nat_eq,
  if◌then◌else◌,
}
use ai_platform_sdk.Prelude.Dict.{Dict, lookup, insert}
use ai_platform_sdk.Json.{Fields}
use ai_platform_sdk.Resilience.{
  CircuitBreaker, circuit_breaker, is_open, record_success, record_failure,
}

pub data ServiceType : Type 0 where
  agent mcp registry other : ServiceType

pub data ServiceState : Type 0 where
  registered expected_unregistered stale : ServiceState

pub record RegistryEntry : Type 0 where
  pub name : String
  pub url : Option String
  pub expected_url : Option String
  pub type : ServiceType
  pub state : ServiceState
  pub version : Option String
  pub metadata : Fields
  pub last_heartbeat_at : Option ℕ
  pub registered_at : Option ℕ
  pub last_changed_at : ℕ

unfoldable pub healthy : RegistryEntry → Bool
healthy e = elim e.state [ registered ↦ true | _ ↦ false ]

pub record CacheEntry : Type 0 where
  pub entry : RegistryEntry
  pub fetched_at : ℕ

-- `(now - self.fetched_at) < seconds`
unfoldable pub younger : ℕ → ℕ → CacheEntry → Bool
younger now seconds c = ltb now (c.fetched_at + seconds)

pub record RegistryClient : Type 0 where
  pub heartbeat_seconds : ℕ
  pub refresh_seconds : ℕ
  pub stale_cache_max_seconds : ℕ
  pub cache : Dict CacheEntry
  pub cb : CircuitBreaker
  pub registered_name : Option String
  pub heartbeat_task : Option String
  pub refresh_task : Bool

abbrev pub registry_client : ℕ → ℕ → ℕ → RegistryClient
registry_client heartbeat refresh stale_max = record {
  heartbeat_seconds = heartbeat;
  refresh_seconds = refresh;
  stale_cache_max_seconds = stale_max;
  cache = [];
  cb = circuit_breaker "registry" 5 30;
  registered_name = none;
  heartbeat_task = none;
  refresh_task = false;
}

-- How a request ends: an `httpx.RequestError`, or a response with its status, whether
-- `raise_for_status` returns for it, and its body if that validates as an entry.
pub data Answer : Type 0 where
  request_error : Answer
  response : ℕ → Bool → Option RegistryEntry → Answer

-- `RegistryUnreachable` and the other `httpx.HTTPError`s, `ServiceNotFound`, and the errors of
-- `json()` and `model_validate`.
pub data Failure : Type 0 where
  unreachable : Failure
  service_not_found : String → Failure
  invalid_body : Failure

pub data Found : Type 0 where
  found : RegistryEntry → Found
  raises : Failure → Found

unfoldable pub fetch : String → Answer → Found
fetch name request_error = raises unreachable
fetch name (response status success body) =
    if nat_eq status 404
    then raises (service_not_found name)
    else if leb 500 status
    then raises unreachable
    else if not success
    then raises unreachable
    else elim body [ none ↦ raises invalid_body | some entry ↦ found entry ]

unfoldable pub stale_or_raise : ℕ → ℕ → String → Option CacheEntry → Found
unfolding younger
stale_or_raise now stale_max name none = raises (service_not_found name)
stale_or_raise now stale_max name (some cached) =
    if younger now stale_max cached then found cached.entry else raises (service_not_found name)

abbrev pub is_fresh : ℕ → ℕ → Option CacheEntry → Option RegistryEntry
is_fresh now seconds none = none
is_fresh now seconds (some cached) = if younger now seconds cached then some cached.entry else none

-- What follows a request: only an unreachable registry counts as a failure and falls back to the
-- stale cache; the other exceptions pass through.
unfoldable pub settle :
    ℕ → String → Option CacheEntry → Found → RegistryClient → Found × RegistryClient
unfolding stale_or_raise
settle after name cached (found entry) r = (
  found entry,
  record r {
    cb = record_success r.cb;
    cache = insert name (record { entry = entry; fetched_at = after }) r.cache;
  },
)
settle after name cached (raises unreachable) r = (
  stale_or_raise after r.stale_cache_max_seconds name cached,
  record r { cb = record_failure after r.cb },
)
settle after name cached (raises (service_not_found n)) r = (raises (service_not_found n), r)
settle after name cached (raises invalid_body) r = (raises invalid_body, r)

-- `RegistryClient.lookup`
unfoldable pub find : ℕ → ℕ → Answer → String → RegistryClient → Found × RegistryClient
unfolding settle fetch
find before after answer name r =
    let cached = lookup name r.cache in
    elim (is_fresh before r.refresh_seconds cached) [
      | some entry ↦ (found entry, r)
      | none ↦
          if is_open before r.cb
          then (stale_or_raise before r.stale_cache_max_seconds name cached, r)
          else settle after name cached (fetch name answer) r
    ]
