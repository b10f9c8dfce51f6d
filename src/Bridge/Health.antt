-- ===== src/Bridge/Health.antt =====
-- `BridgeHealthMatrix` of platform_sdk/bridge_health.py. A bridge is a value of some type `B`;
-- whether it is connected at a moment is the argument `is_connected`.
use ai_platform_sdk.Prelude.{
  ℕ, suc, ◌≤◌, String, ◌≡◌, refl, ◌≢◌, ◌↔◌, Bool, true, false, ◌&&◌, Option, none, some, [], ◌∷◌,
  arith, ltb, nat_eq, length, All, if◌then◌else◌,
}
use ai_platform_sdk.Prelude.Dict.{Dict, lookup, insert}

pub data Status : Type 0 where
  registered connected reconnecting failed disconnected : Status

pub data Overall : Type 0 where
  ok degraded unavailable : Overall

pub record HealthMatrix (B : Type 0) : Type 0 where
  pub bridges : Dict B
  pub startup_status : Dict Status

-- How `bridge.connect()` ends: by an exception, or with the bridge connected or not.
pub data Connected : Type 0 where
  raises : Connected
  returns : Bool → Connected

abbrev pub is_status_connected : Status → Bool
is_status_connected connected = true
is_status_connected _ = false

-- `sum(1 for s in statuses.values() if s == "connected")`
unfoldable pub count_connected : Dict Status → ℕ
count_connected [] = 0
count_connected ((name, s) ∷ rest) =
    let n = count_connected rest in if is_status_connected s then suc n else n

-- `_connect_one`
unfoldable pub connect_one : Connected → Status
connect_one raises = failed
connect_one (returns true) = connected
connect_one (returns false) = reconnecting

abbrev status_of : Bool → Option Status → Status
status_of true started = connected
status_of false (some reconnecting) = reconnecting
status_of false _ = disconnected

unfoldable pub overall : ℕ → ℕ → Overall
overall n total =
    if nat_eq n total && ltb 0 total then ok else if ltb 0 n then degraded else unavailable

module _ {B : Type 0} where
  unfoldable pub register : String → B → HealthMatrix B → HealthMatrix B
  register name bridge m = record m {
    bridges = insert name bridge m.bridges;
    startup_status = insert name registered m.startup_status;
  }

  -- The loop over the completed connections: the results, and the recorded statuses.
  unfoldable pub record_results :
      (B → Connected) → Dict B → Dict Status → Dict Status → Dict Status × Dict Status
  unfolding connect_one
  record_results connect [] results statuses = (results, statuses)
  record_results connect ((name, b) ∷ rest) results statuses =
      let status = connect_one (connect b) in
      record_results connect rest (insert name status results) (insert name status statuses)

  unfoldable pub connect_all : (B → Connected) → HealthMatrix B → Dict Status × HealthMatrix B
  unfolding record_results
  connect_all connect m =
      let (results, statuses) = record_results connect m.bridges [] m.startup_status in
      (results, record m { startup_status = statuses })

  -- `disconnect_all`; whether `bridge.disconnect()` returns is the argument.
  unfoldable pub record_disconnects : (B → Bool) → Dict B → Dict Status → Dict Status
  record_disconnects returns_ [] statuses = statuses
  record_disconnects returns_ ((name, b) ∷ rest) statuses =
      record_disconnects returns_ rest
        (if returns_ b then insert name disconnected statuses else statuses)

  unfoldable pub disconnect_all : (B → Bool) → HealthMatrix B → HealthMatrix B
  unfolding record_disconnects
  disconnect_all returns_ m = record m {
    startup_status = record_disconnects returns_ m.bridges m.startup_status;
  }

  unfoldable pub bridge_status : (B → Bool) → Dict Status → Dict B → Dict Status
  bridge_status is_connected started [] = []
  bridge_status is_connected started ((name, b) ∷ rest) =
      (name, status_of (is_connected b) (lookup name started))
      ∷ bridge_status is_connected started rest

  unfoldable pub readiness : (B → Bool) → HealthMatrix B → Overall × Dict Status
  unfolding bridge_status overall count_connected
  readiness is_connected m =
      let statuses = bridge_status is_connected m.startup_status m.bridges in
      (overall (count_connected statuses) (length statuses), statuses)

  unfoldable pub get_bridge : String → HealthMatrix B → Option B
  get_bridge name m = lookup name m.bridges

  unfoldable pub is_bridge_available : (B → Bool) → String → HealthMatrix B → Bool
  is_bridge_available is_connected name m = elim (lookup name m.bridges) [
    | none ↦ false
    | some b ↦ is_connected b
  ]

  module _ (is_connected : B → Bool) (started : Dict Status) where
    abbrev live : Dict B → ℕ
    live l = count_connected (bridge_status is_connected started l)

    length-bridge_status : (l : Dict B) → length (bridge_status is_connected started l) ≡ length l
    unfolding bridge_status
    length-bridge_status [] = refl
    length-bridge_status ((name, b) ∷ rest) = omega (arith, length-bridge_status rest)

    live-le : (l : Dict B) → live l ≤ length l
    unfolding bridge_status count_connected
    live-le [] = omega arith
    live-le ((name, b) ∷ rest) = ground (arith, live-le rest)

    live_every : (l : Dict B) → (live l ≡ length l) ↔ All (λ e. is_connected e.1 ≡ true) l
    unfolding bridge_status count_connected
    live_every [] = (λ h. tt, λ h. refl)
    live_every ((name, b) ∷ rest) = ground (arith, live-le rest, live_every rest)

    live_none : (l : Dict B) → (live l ≡ 0) ↔ All (λ e. is_connected e.1 ≡ false) l
    unfolding bridge_status count_connected
    live_none [] = (λ h. tt, λ h. refl)
    live_none ((name, b) ∷ rest) = ground (arith, live_none rest)

module _ {B : Type 0} (is_connected : B → Bool) (started : Dict Status) where
  overall_exact :
      (l : Dict B)
      → let statuses = bridge_status is_connected started l in
        let status = overall (count_connected statuses) (length statuses) in
        ((status ≡ ok) ↔ ((l ≢ []) × All (λ e. is_connected e.1 ≡ true) l))
        × ((status ≡ unavailable) ↔ All (λ e. is_connected e.1 ≡ false) l)
  unfolding overall
  overall_exact [] =
      unfold bridge_status count_connected in
      ((λ h. cc, λ h. absurd (h.0 refl)), (λ h. tt, λ h. refl))
  overall_exact ((name, b) ∷ rest) =
      let l = (name, b) ∷ rest in
      let some_bridge : length l ≢ 0 = omega arith in
      ground (
        arith,
        length-bridge_status is_connected started l,
        live-le is_connected started l,
        live_every is_connected started l,
        live_none is_connected started l,
      )

-- The overall status is `ok` exactly when there are bridges and all of them are connected, and
-- `unavailable` exactly when none is, so `degraded` means some and not all.
pub readiness_overall :
    {B : Type 0} (is_connected : B → Bool) (m : HealthMatrix B)
    → (((readiness is_connected m).0 ≡ ok)
        ↔ ((m.bridges ≢ []) × All (λ e. is_connected e.1 ≡ true) m.bridges))
      × (((readiness is_connected m).0 ≡ unavailable)
          ↔ All (λ e. is_connected e.1 ≡ false) m.bridges)
unfolding readiness
readiness_overall is_connected m = overall_exact is_connected m.startup_status m.bridges
