-- ===== src/Tests/BridgeRuns.antt =====
-- platform_sdk/bridge_health.py and mcp_bridge.py at concrete inputs.
use ai_platform_sdk.Prelude.{
  List, Bool, true, ℕ, ◌≤◌, ◌<◌, ◌≡◌, refl, Bool, true, false, none, some, [], ◌∷◌, arith, nat_eq,
  map,
}
use ai_platform_sdk.Prelude.Dict.{Dict, lookup}
use ai_platform_sdk.Json
use ai_platform_sdk.Json.{Json, Fields, str, obj, end, field}
use ai_platform_sdk.Prelude.{◌↔◌, ◌≢◌, All}
use ai_platform_sdk.Bridge.Health.{
  HealthMatrix, connected, reconnecting, ok, unavailable, readiness, readiness_overall,
}
use ai_platform_sdk.Bridge.Session
use ai_platform_sdk.Bridge.Session.{
  Loop, connect, opening, sleeping, ended, proceeds, disconnects, step, Reachable, stepped,
}
use ai_platform_sdk.Bridge.Session.Invariant.{Sound, run, Reachable-Sound, disconnect_ends}
use ai_platform_sdk.Bridge.Reconnect.{delay, sleep_slices, sleep_slices_exact}
use ai_platform_sdk.Bridge.Invoke.{is_session_scoped}
use ai_platform_sdk.Bridge.SessionId.{
  Script, done, call_tool, run_agent, run_script, by_agent, run_script_trusted,
}
use ai_platform_sdk.Bridge.Schema.{ModelField}
use ai_platform_sdk.Bridge.Listing.{McpTool}

abbrev stop_at_three : ℕ → Bool
stop_at_three n = nat_eq n 3

three_below : 3 ≤ delay 4
unfolding delay
three_below = omega arith

not_before : (k : ℕ) → k < 3 → stop_at_three k ≡ false
not_before k h = ground arith

sleep_slices_exact_example : sleep_slices 60 stop_at_three (delay 4) 0 ≡ 3
sleep_slices_exact_example = sleep_slices_exact stop_at_three 4 3 three_below not_before (λ h. refl)

abbrev session_schema : Fields
session_schema = field "properties" (obj (field "session_id" (obj end) end)) end

schema_scoped : is_session_scoped session_schema ≡ true
unfolding is_session_scoped Json.get Json.has
schema_scoped = refl

abbrev model_arguments : Dict Json
model_arguments = ("session_id", str "forged") ∷ ("query", str "rates") ∷ []

-- An agent calls a tool, runs another agent that calls it, and calls it again.
abbrev nested : Script
nested =
    run_agent "s-1"
      (call_tool model_arguments
        (run_agent "s-2" (call_tool model_arguments done) (call_tool model_arguments done)))
      done

run_script_trusted_example :
    (map (lookup "session_id") (run_script session_schema none (some "token") nested none).0
      ≡ by_agent session_schema none (some "token") "session_id" nested none)
    × ((run_script session_schema none (some "token") nested none).1 ≡ none)
run_script_trusted_example =
    run_script_trusted session_schema none (some "token") nested none "session_id" schema_scoped

-- A bridge whose first attempt fails before the streams are open, and is then disconnected.
abbrev stopped_asleep : Loop
stopped_asleep = record connect { phase = sleeping 0; stop_event = true; consecutive_failures = 1 }

opens : step proceeds connect ≡ some (record connect { phase = opening })
unfolding step
opens = refl

fails :
    step Session.raises (record connect { phase = opening })
    ≡ some (record connect { phase = sleeping 0; consecutive_failures = 1 })
unfolding step
fails = refl

is_stopped :
    step disconnects (record connect { phase = sleeping 0; consecutive_failures = 1 })
    ≡ some stopped_asleep
unfolding step
is_stopped = refl

stopped_asleep-Reachable : Reachable stopped_asleep
stopped_asleep-Reachable =
    stepped disconnects (stepped Session.raises (stepped proceeds reached_first opens) fails)
      is_stopped
  where
    reached_first : Reachable connect
    reached_first = Session.connected

Reachable-Sound_example : Sound stopped_asleep
Reachable-Sound_example = Reachable-Sound stopped_asleep stopped_asleep-Reachable

disconnect_ends_example :
    ((run 3 stopped_asleep).phase ≡ ended) × ((run 3 stopped_asleep).session ≡ false)
disconnect_ends_example = disconnect_ends stopped_asleep stopped_asleep-Reachable refl

-- A tool without arguments, and one whose schema uses `anyOf`.
abbrev ping : McpTool
ping = record { name = "ping"; description = none; input_schema = end }

abbrev broken : McpTool
broken = record {
  name = "broken";
  description = some "a tool";
  input_schema = field "properties" (obj (field "x" (obj end) end)) (field "anyOf" (obj end) end);
}

abbrev accept_fields : List ModelField → Bool
accept_fields fields = true

-- Two bridges, one of them connected.
abbrev half_ready : HealthMatrix Bool
half_ready = record {
  bridges = ("crm", true) ∷ ("payments", false) ∷ [];
  startup_status = ("crm", connected) ∷ ("payments", reconnecting) ∷ [];
}

abbrev as_given : Bool → Bool
as_given b = b

readiness_overall_example :
    (((readiness as_given half_ready).0 ≡ ok)
      ↔ ((half_ready.bridges ≢ []) × All (λ e. as_given e.1 ≡ true) half_ready.bridges))
    × (((readiness as_given half_ready).0 ≡ unavailable)
        ↔ All (λ e. as_given e.1 ≡ false) half_ready.bridges)
readiness_overall_example = readiness_overall as_given half_ready
