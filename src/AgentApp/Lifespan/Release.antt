-- ===== src/AgentApp/Lifespan/Release.antt =====
-- What a lifespan of platform_sdk/fastapi_app/base.py leaves behind.
use ai_platform_sdk.Prelude.{
  String, ◌≡◌, ◌∙◌, ◌↔◌, ◌⊎◌, inl, inr, refl, Bool, true, false, none, [], ◌∷◌, map, arith, All,
  Bool-cases, if◌then◌else◌,
}
use ai_platform_sdk.Prelude.Dict.{Dict}
use ai_platform_sdk.Application.{register, passes, deregister}
use ai_platform_sdk.AgentApp.{Bridge}
use ai_platform_sdk.AgentApp.Lifespan.{
  AgentApp, Startup, Shutdown, returns_, open_store, connected, enter, disconnect_all,
  can_disconnect, close_bridges, close_store, exit,
}

exit_application :
    (d : Shutdown) (app : AgentApp)
    → (exit d app).0 ≡ true
    → (exit d app).1.application ≡ (deregister d.deletion app.application).1
unfolding exit close_store close_bridges
exit_application d app h = ground arith

exit_registry :
    (d : Shutdown) (app : AgentApp)
    → (exit d app).0 ≡ true
    → (exit d app).1.application.registry ≡ none
unfolding exit close_store close_bridges deregister
exit_registry d app h = ground arith

exit_connection :
    (d : Shutdown) (app : AgentApp)
    → (exit d app).0 ≡ true
    → (exit d app).1.store_connected
      ≡ (if can_disconnect app.store then false else app.store_connected)
unfolding exit close_store close_bridges
exit_connection d app h = ground arith

exit_disconnects :
    (d : Shutdown) (app : AgentApp)
    → (exit d app).0 ≡ true
    → let (returned, bridges) = disconnect_all d.disconnects app.bridges in
      (returned ≡ true) × ((exit d app).1.bridges ≡ bridges)
unfolding exit close_store close_bridges
exit_disconnects d app h = (ground arith, ground arith)

-- A bridge that was disconnected.
abbrev pub stopped : String × Bridge → String × Bridge
stopped (name, b) = (name, record b { is_connected = false })

disconnect_all-stopped :
    (disconnects : String → Bool) (bridges : Dict Bridge)
    → (disconnect_all disconnects bridges).0 ≡ true
    → (disconnect_all disconnects bridges).1 ≡ map stopped bridges
unfolding disconnect_all
disconnect_all-stopped disconnects [] h = refl
disconnect_all-stopped disconnects ((name, b) ∷ bridges) h = elim (Bool-cases (disconnects name)) [
  | inl stops ↦
      rw stops
        (rw (disconnect_all-stopped disconnects bridges (rw (stops, disconnect_all) at h)) refl)
  | inr raises ↦ absurd (cc (h, raises))
]

-- Every bridge is one whose `disconnect` returns.
disconnect_all_iff :
    (disconnects : String → Bool) (bridges : Dict Bridge)
    → ((disconnect_all disconnects bridges).0 ≡ true)
      ↔ All (λ (e : String × Bridge). disconnects e.0 ≡ true) bridges
unfolding disconnect_all
disconnect_all_iff disconnects [] = (λ h. tt, λ h. refl)
disconnect_all_iff disconnects ((name, b) ∷ bridges) =
    let (to, from) = disconnect_all_iff disconnects bridges in
    elim (Bool-cases (disconnects name)) [
      | inl stops ↦ rw stops (λ h. (refl, to h), λ (s, hs). from hs)
      | inr raises ↦ rw raises (λ h. cc, λ (s, hs). s)
    ]

-- When a shutdown runs to its end: the hook returns; the deregistration, if there is one, does not
-- raise but for an HTTP error; and the store, if it can be disconnected, and every bridge is.
abbrev pub AllReturn : Shutdown → AgentApp → Type 0
AllReturn d app =
    (d.shuts_down ≡ true)
    × ((app.application.registry ≡ none) ⊎ (passes d.deletion ≡ true))
    × ((can_disconnect app.store ≡ false) ⊎ (d.store_disconnects ≡ true))
    × All (λ (e : String × Bridge). d.disconnects e.0 ≡ true) app.bridges

exit_iff : (d : Shutdown) (app : AgentApp) → ((exit d app).0 ≡ true) ↔ AllReturn d app
unfolding exit close_store close_bridges deregister
exit_iff d app = ground (arith, disconnect_all_iff d.disconnects app.bridges)

exit_checkpointer :
    (d : Shutdown) (app : AgentApp)
    → (exit d app).0 ≡ true
    → (exit d app).1.checkpointer ≡ app.checkpointer
unfolding exit close_store close_bridges
exit_checkpointer d app h = ground arith

-- What a shutdown that ran to its end leaves.
abbrev pub Released : Shutdown → AgentApp → AgentApp → Type 0
Released d app app' =
    (app'.application ≡ (deregister d.deletion app.application).1)
    × (app'.application.registry ≡ none)
    × (app'.store_connected ≡ (if can_disconnect app.store then false else app.store_connected))
    × (app'.bridges ≡ map stopped app.bridges)
    × (app'.checkpointer ≡ app.checkpointer)

exit-Released :
    (d : Shutdown) (app : AgentApp) → (exit d app).0 ≡ true → Released d app (exit d app).1
exit-Released d app h =
    let (returned, same) = exit_disconnects d app h in
    (
      exit_application d app h,
      exit_registry d app h,
      exit_connection d app h,
      same ∙ disconnect_all-stopped d.disconnects app.bridges returned,
      exit_checkpointer d app h,
    )

-- A shutdown runs to its end exactly if the hook returns and every call that it needs, an HTTP error
-- of the deregistration aside. Then the registry client is given up, the store is disconnected if it
-- can be, and the application still has its bridges, each of them disconnected. A checkpointer that
-- the startup has set up is left as it is.
pub exit_releases :
    (d : Shutdown) (app : AgentApp)
    → ((exit d app).0 ≡ true) ↔ (AllReturn d app × Released d app (exit d app).1)
exit_releases d app =
    let (needs, suffices) = exit_iff d app in
    (λ h. (needs h, exit-Released d app h), λ (all, released). suffices all)

-- A startup that fails behind the registration undoes nothing: the registration and the bridges
-- are there as after a startup that succeeds.
pub enter_keeps :
    (u : Startup) (app : AgentApp)
    → returns_ (register u.reply app.application).0 ≡ true
    → let app' = (enter u app).1 in
      let app'' = connected u (register u.reply app.application).1 app in
      (app'.bridges ≡ app''.bridges) × (app'.application ≡ app''.application)
unfolding enter open_store
enter_keeps u app h = (ground arith, ground arith)
