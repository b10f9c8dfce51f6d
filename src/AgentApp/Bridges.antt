-- ===== src/AgentApp/Bridges.antt =====
-- To which services `_connect_bridges` of platform_sdk/fastapi_app/base.py builds bridges.
use ai_platform_sdk.Prelude.{
  ℕ, suc, String, ◌≡◌, refl, Bool, false, Option, none, some, List, [], ◌∷◌, arith, ◌==◌, eq_iff,
  if◌then◌else◌,
}
use ai_platform_sdk.Prelude.Dict.{Dict, lookup, lookup-insert, lookup-nil}
use ai_platform_sdk.Auth.{AgentContext}
use ai_platform_sdk.Registry.{RegistryClient, RegistryEntry, healthy}
use ai_platform_sdk.AgentApp.{
  Bridge, Visit, bridge_url, look_up, add_bridge, discover, connect_all, Surroundings,
  connect_bridges,
}

-- What the lookups of the names give one after the other.
abbrev pub lookups :
    (ℕ → Visit) → ℕ → List String → Option RegistryClient → List (String × Option RegistryEntry)
lookups visit n [] r = []
lookups visit n (name ∷ names) r =
    (name, (look_up (visit n) name r).0) ∷ lookups visit (suc n) names (look_up (visit n) name r).1

-- The entry, if the service is healthy.
abbrev pub if_healthy : Option RegistryEntry → Option RegistryEntry
if_healthy none = none
if_healthy (some entry) = if healthy entry then some entry else none

abbrev pub or_earlier {ℓ} : {A : Type ℓ} → Option A → Option A → Option A
or_earlier none earlier = earlier
or_earlier (some a) earlier = some a

-- The last entry of a healthy service that was found for the name.
abbrev pub last_healthy : String → List (String × Option RegistryEntry) → Option RegistryEntry
last_healthy k [] = none
last_healthy k ((name, o) ∷ rest) =
    or_earlier (last_healthy k rest) (if k == name then if_healthy o else none)

abbrev pub bridge_to : AgentContext → Bool → Option RegistryEntry → Option Bridge
bridge_to ctx connected none = none
bridge_to ctx connected (some entry) =
    some (record { url = bridge_url entry; agent_context = ctx; is_connected = connected })

module _ (visit : ℕ → Visit) (ctx : AgentContext) (k : String) where
  lookup-add_bridge :
      (name : String) (o : Option RegistryEntry) (bridges : Dict Bridge)
      → lookup k (add_bridge ctx name o bridges) ≡ (
          if k == name
          then or_earlier (bridge_to ctx false (if_healthy o)) (lookup k bridges)
          else lookup k bridges)
  unfolding add_bridge
  lookup-add_bridge name none bridges = ground arith
  lookup-add_bridge name (some entry) bridges = ground (
    arith,
    lookup-insert k name
        (record { url = bridge_url entry; agent_context = ctx; is_connected = false }) bridges,
  )

  lookup-discover :
      (n : ℕ) (names : List String) (r : Option RegistryClient) (bridges : Dict Bridge)
      → lookup k (discover visit ctx n names r bridges).0
        ≡ or_earlier
            (bridge_to ctx false (last_healthy k (lookups visit n names r)))
            (lookup k bridges)
  unfolding discover
  lookup-discover n [] r bridges = refl
  lookup-discover n (name ∷ names) r bridges = ground (
    arith,
    lookup-discover (suc n) names (look_up (visit n) name r).1
        (add_bridge ctx name (look_up (visit n) name r).0 bridges),
    lookup-add_bridge name (look_up (visit n) name r).0 bridges,
  )

-- The bridge after the attempt to connect it.
abbrev pub after_connect : Bool → Option Bridge → Option Bridge
after_connect connected none = none
after_connect connected (some b) = some (record b { is_connected = connected })

lookup-connect_all :
    (connects : String → Bool) (k : String) (bridges : Dict Bridge)
    → lookup k (connect_all connects bridges) ≡ after_connect (connects k) (lookup k bridges)
unfolding connect_all lookup
lookup-connect_all connects k [] = refl
lookup-connect_all connects k ((name, b) ∷ bridges) =
    ground (arith, eq_iff k name, lookup-connect_all connects k bridges)

after_connect-bridge_to :
    (ctx : AgentContext) (connected : Bool) (o : Option RegistryEntry)
    → after_connect connected (or_earlier (bridge_to ctx false o) none) ≡ bridge_to ctx connected o
after_connect-bridge_to ctx connected none = refl
after_connect-bridge_to ctx connected (some entry) = refl

-- An application with dependencies has a bridge for a name exactly if one of the lookups of that
-- name found a healthy entry, and then the bridge leads to the address of the last such entry and
-- carries the identity of the service. A lookup that raises or finds an unhealthy service, or a
-- bridge that cannot connect, does not stop the others.
pub connect_bridges-last_healthy :
    (w : Surroundings) (ctx : AgentContext) (first : String) (names : List String)
    (servers : Dict String) (r : Option RegistryClient) (k : String)
    → lookup k (connect_bridges w ctx (first ∷ names) servers r).0
      ≡ bridge_to ctx (w.connects k) (last_healthy k (lookups w.visit 0 (first ∷ names) r))
unfolding connect_bridges
connect_bridges-last_healthy w ctx first names servers r k =
    let bridges = (discover w.visit ctx 0 (first ∷ names) r []).0 in
    rw
      (
        lookup-connect_all w.connects k bridges,
        lookup-discover w.visit ctx k 0 (first ∷ names) r [],
        lookup-nil {V = Bridge} k,
      )
      (after_connect-bridge_to ctx (w.connects k)
        (last_healthy k (lookups w.visit 0 (first ∷ names) r)))
