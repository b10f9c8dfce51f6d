-- ===== src/Application/Process.antt =====
-- `run_with_registration` of platform_sdk/base/mcp_service.py: an MCP service registers once for the
-- life of its process. The requests are taken to end within the time that the code waits for them.
use ai_platform_sdk.Prelude.{◌≡◌, Bool, true, none, [], ◌∷◌, ◌++◌, if◌then◌else◌}
use ai_platform_sdk.Registry.Tasks.{Reply}
use ai_platform_sdk.Application.{Application, post, delete, payload, register, Deletion, deregister}
use ai_platform_sdk.Application.Lifecycle.{attempted, deregister-register}

-- How the call ends: by the `RuntimeError` of a loop that did not start, or as `mcp.run` ends,
-- which returns or raises.
pub data Process : Type 0 where
  loop_not_started : Process
  served : Bool → Process

-- `run_with_registration`: exceptions of the registration and of the deregistration are logged.
unfoldable pub run_with_registration :
    Bool → Reply → Deletion → Bool → Application → Process × Application
run_with_registration ready reply d returns_ app =
    if ready
    then (served returns_, (deregister d (register reply app).1).1)
    else (loop_not_started, app)

-- Afterwards no registry client is left; and a registration was sent to the registry and then a
-- removal of the same name, or nothing, whether or not the requests succeeded.
pub run_with_registration-requests :
    (reply : Reply) (d : Deletion) (returns_ : Bool) (app : Application)
    → app.registry ≡ none
    → let app' = (run_with_registration true reply d returns_ app).1 in
      (app'.registry ≡ none)
      × (app'.requests ≡ (
          if attempted (register reply app).0
          then app.requests ++ (post (payload app) ∷ []) ++ (delete (payload app).name ∷ [])
          else app.requests))
unfolding run_with_registration
run_with_registration-requests reply d returns_ app h = deregister-register reply d app h
