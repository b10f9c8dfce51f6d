-- ===== src/Application/Lifecycle.antt =====
-- When an application of platform_sdk/base/application.py is registered, and what remains of it.
use ai_platform_sdk.Prelude.{
  String, ◌≡◌, ◌≢◌, ◌↔◌, Bool, true, false, Option, none, some, [], ◌∷◌, ◌++◌, arith, eq_iff,
  nat_eq, if◌then◌else◌,
}
use ai_platform_sdk.Registry.{RegistryClient}
use ai_platform_sdk.Registry.Tasks.{Reply, status, register_self, start_heartbeat, start_refresh}
use ai_platform_sdk.Application.{
  AppConfig, post, delete, Application, rstrip_slashes, payload, Registration, running, raises,
  after_post, register, Deletion, deregister,
}

-- The registry accepts the request, or knows the service already.
abbrev pub accepted : Reply → Bool
accepted Reply.request_error = false
accepted (status code success) = if nat_eq code 409 then true else success

-- A registry other than the service itself is configured, and the service knows its own address.
abbrev pub Configured : AppConfig → Type 0
Configured c =
    (rstrip_slashes c.registry_url ≢ "")
    × (rstrip_slashes c.service_url ≢ "")
    × (rstrip_slashes c.registry_url ≢ rstrip_slashes c.service_url)

abbrev pub beating : Option RegistryClient → Option String
beating none = none
beating (some r) = r.heartbeat_task

abbrev pub refreshing : Option RegistryClient → Bool
refreshing none = false
refreshing (some r) = r.refresh_task

register_running :
    (reply : Reply) (app : Application)
    → ((register reply app).0 ≡ running) ↔ (Configured app.config × (accepted reply ≡ true))
unfolding register after_post register_self
register_running reply app = ground (
  arith,
  eq_iff (rstrip_slashes app.config.registry_url) "",
  eq_iff (rstrip_slashes app.config.service_url) "",
  eq_iff (rstrip_slashes app.config.registry_url) (rstrip_slashes app.config.service_url),
)

register_tasks :
    (reply : Reply) (app : Application)
    → app.registry ≡ none
    → let (o, app') = register reply app in
      (o ≡ running → (beating app'.registry ≡ some app.name) × (refreshing app'.registry ≡ true))
      × (o ≢ running → (beating app'.registry ≡ none) × (refreshing app'.registry ≡ false))
unfolding register after_post register_self start_heartbeat start_refresh
register_tasks reply app h = ground arith

-- An application runs registered exactly if a registry other than itself is configured, its own
-- address is known, and the registry takes the request or knows the service. Then the heartbeat
-- beats for the application's own name and the refresh task runs; in every other outcome, an
-- exception included, no task runs.
pub register_outcome :
    (reply : Reply) (app : Application)
    → app.registry ≡ none
    → let (o, app') = register reply app in
      ((o ≡ running) ↔ (Configured app.config × (accepted reply ≡ true)))
      × (o ≡ running → (beating app'.registry ≡ some app.name) × (refreshing app'.registry ≡ true))
      × (o ≢ running → (beating app'.registry ≡ none) × (refreshing app'.registry ≡ false))
register_outcome reply app h =
    (register_running reply app, (register_tasks reply app h).0, (register_tasks reply app h).1)

-- The registry was asked.
abbrev pub attempted : Registration → Bool
attempted running = true
attempted (raises e) = true
attempted _ = false

-- After `_deregister` no client is left, whether or not its request raised. The registry has seen a
-- registration and then the removal of the same name, or nothing at all if the application did not
-- turn to it.
pub deregister-register :
    (reply : Reply) (d : Deletion) (app : Application)
    → app.registry ≡ none
    → let (o, app') = register reply app in
      let app'' = (deregister d app').1 in
      (app''.registry ≡ none)
      × (app''.requests ≡ (
          if attempted o
          then app.requests ++ (post (payload app) ∷ []) ++ (delete (payload app).name ∷ [])
          else app.requests))
unfolding register after_post deregister register_self payload
deregister-register reply d app h = ground arith
