-- ===== src/Application.antt =====
-- The registration of platform_sdk/base/application.py with the client of platform_sdk/registry. How
-- the requests end is an argument.
pub mod Lifecycle
pub mod Process
pub mod Construction
use Prim.Native.Char.{code}
use ai_platform_sdk.Prelude.{
  ℕ, String, Bool, true, false, ◌&&◌, Option, none, some, List, [], ◌∷◌, ◌++◌, nat_eq, ◌==◌,
  if◌then◌else◌,
}
use ai_platform_sdk.Json.{Fields}
use ai_platform_sdk.Registry.{RegistryClient, registry_client}
use ai_platform_sdk.Registry.Tasks.{
  Reply, Registered, done, unreachable, status_error, register_self, start_heartbeat,
  stop_heartbeat, start_refresh, stop_refresh,
}

pub record AppConfig : Type 0 where
  pub registry_url : String
  pub service_url : String
  pub service_version : String

pub record Payload : Type 0 where
  pub name : String
  pub url : String
  pub type : String
  pub version : Option String
  pub metadata : Fields

pub data Request : Type 0 where
  post : Payload → Request
  delete : String → Request

-- The application, and the requests that it has tried to send to the registry, whether they
-- succeeded or not: how they end is the `Reply` and the `Deletion`.
pub record Application : Type 0 where
  pub name : String
  pub config : AppConfig
  pub service_type : String
  pub service_metadata : Fields
  pub registry : Option RegistryClient
  pub requests : List Request

-- `s.rstrip("/")`
unfoldable pub rstrip_slashes : String → String
rstrip_slashes String.[] = String.[]
rstrip_slashes (String.◌∷◌ c s) =
    let rest = rstrip_slashes s in
    if rest == "" && nat_eq (code c) b'/' then String.[] else String.◌∷◌ c rest

-- `RegistryClient.from_config` for a config with a registry: the defaults of `__init__`.
abbrev pub from_config : RegistryClient
from_config = registry_client 15 30 300

abbrev pub version_or_none : String → Option String
version_or_none v = if v == "" then none else some v

unfoldable pub payload : Application → Payload
payload app = record {
  name = app.name;
  url = app.config.service_url;
  type = app.service_type;
  version = version_or_none app.config.service_version;
  metadata = app.service_metadata;
}

-- How `_register` ends: three ways of not registering, and the exceptions of `register_self`.
pub data Registration : Type 0 where
  disabled service_url_missing self_skip running : Registration
  raises : Registered → Registration

unfoldable pub after_post : Registered × RegistryClient → Application → Registration × Application
after_post (done, r) app =
    (running, record app { registry = some (start_refresh (start_heartbeat app.name r)) })
after_post (unreachable, r) app = (raises unreachable, record app { registry = some r })
after_post (status_error, r) app = (raises status_error, record app { registry = some r })

-- `_register`
unfoldable pub register : Reply → Application → Registration × Application
unfolding rstrip_slashes payload after_post
register reply app =
    let registry_url = rstrip_slashes app.config.registry_url in
    let self_url = rstrip_slashes app.config.service_url in
    if registry_url == ""
    then (disabled, app)
    else if self_url == ""
    then (service_url_missing, app)
    else if registry_url == self_url
    then (self_skip, app)
    else after_post (register_self reply app.name from_config)
        (record app { requests = app.requests ++ (post (payload app) ∷ []) })

-- How the DELETE ends: an `httpx.HTTPError` is only logged.
pub data Deletion : Type 0 where
  deleted http_error other_error : Deletion

abbrev pub passes : Deletion → Bool
passes other_error = false
passes _ = true

-- `_deregister`, and whether it returns. The client is given up either way.
unfoldable pub deregister : Deletion → Application → Bool × Application
deregister d app = elim app.registry [
  | none ↦ (true, app)
  | some r ↦
      (passes d, record app { registry = none; requests = app.requests ++ (delete app.name ∷ []) })
]
