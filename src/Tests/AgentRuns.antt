-- ===== src/Tests/AgentRuns.antt =====
-- platform_sdk/fastapi_app/base.py, base/application.py, http.py, agent.py and services at concrete
-- inputs.
use Prim.Native.Char.{code}
use text.Mathlib.TextLemmas.{cons-append, nil-append}
use ai_platform_sdk.Prelude.{
  String, ◌≡◌, ◌≢◌, refl, ◌↔◌, true, false, ◌&&◌, eq_iff, Option, none, some, [], ◌∷◌, arith,
  contains, is_ascii, if◌then◌else◌, ◌<>◌, ap, nat_eq,
}
use ai_platform_sdk.Prelude.Dict.{lookup}
use ai_platform_sdk.Json.{end}
use ai_platform_sdk.Auth.{AgentContext}
use ai_platform_sdk.Registry.{
  mcp, registered, RegistryEntry, RegistryClient, registry_client, response,
}
use ai_platform_sdk.Security.ApiKey.{accepted}
use ai_platform_sdk.Application.{Application, deleted}
use ai_platform_sdk.AgentApp.{Surroundings, service_agent_context, connect_bridges}
use ai_platform_sdk.AgentApp.Bridges.{
  lookups, last_healthy, bridge_to, connect_bridges-last_healthy,
}
use ai_platform_sdk.AgentApp.Origins.{add_cors, hides_wildcard, add_cors_wildcard}
use ai_platform_sdk.AgentApp.Lifespan.{AgentApp, Shutdown, exit}
use ai_platform_sdk.AgentApp.Lifespan.Release.{AllReturn, Released, exit_releases}
use ai_platform_sdk.Http.{make_headers}
use ai_platform_sdk.Http.Isolation.{ReadsBearer, serve, verify-make_headers}

abbrev application : Application
application = record {
  name = "agent";
  config = record {
    registry_url = "http://registry:8000/";
    service_url = "http://agent:8000";
    service_version = "";
  };
  service_type = "agent";
  service_metadata = end;
  registry = none;
  requests = [];
}

abbrev search : RegistryEntry
search = record {
  name = "search";
  url = some "http://search:8080/";
  expected_url = none;
  type = mcp;
  state = registered;
  version = none;
  metadata = end;
  last_heartbeat_at = some 5;
  registered_at = some 1;
  last_changed_at = 1;
}

abbrev surroundings : Surroundings
surroundings = record {
  visit = λ n. record { before = 10; after = 11; answer = response 200 true (some search) };
  getenv = λ name. none;
  connects = λ name. true;
}

abbrev identity : AgentContext
identity = service_agent_context "agent"

abbrev client : Option RegistryClient
client = some (registry_client 15 30 300)

connect_bridges-last_healthy_example :
    lookup "search" (connect_bridges surroundings identity ("search" ∷ []) [] client).0
    ≡ bridge_to identity true
        (last_healthy "search" (lookups surroundings.visit 0 ("search" ∷ []) client))
connect_bridges-last_healthy_example =
    connect_bridges-last_healthy surroundings identity "search" [] [] client "search"

add_cors_wildcard_example :
    (((add_cors (some "*, https://a")).allow_credentials
        && contains (add_cors (some "*, https://a")).allow_origins "*")
      ≡ hides_wildcard (some "*, https://a"))
    × (contains (add_cors (some "*, https://a")).allow_origins "" ≡ false)
add_cors_wildcard_example = add_cors_wildcard (some "*, https://a")

abbrev agent_app : AgentApp
agent_app = record {
  application = record application { registry = client };
  mcp_dependencies = "search" ∷ [];
  mcp_servers = [];
  requires_checkpointer = false;
  requires_conversation_store = true;
  bridges =
      (
        "search",
        record { url = "http://search:8080/sse"; agent_context = identity; is_connected = true },
      )
      ∷ [];
  store = some (record { has_connect = true; has_disconnect = true });
  store_connected = true;
  checkpointer = false;
}

abbrev shutdown : Shutdown
shutdown = record {
  shuts_down = true;
  deletion = deleted;
  store_disconnects = true;
  disconnects = λ name. true;
}

exit_releases_example :
    ((exit shutdown agent_app).0 ≡ true)
    ↔ (AllReturn shutdown agent_app × Released shutdown agent_app (exit shutdown agent_app).1)
exit_releases_example = exit_releases shutdown agent_app

abbrev key : String
key = "secret"

abbrev dev : String
dev = "dev"

abbrev prod : String
prod = "prod"

key_given : key ≢ ""
key_given h = ground (arith, eq_iff key "", h)

key_ascii : is_ascii key ≡ true
unfolding is_ascii
key_ascii = refl

-- A reader of bearer credentials.
abbrev behind : String → String → Option String
behind String.[] s = some s
behind (String.◌∷◌ c p) String.[] = none
behind (String.◌∷◌ c p) (String.◌∷◌ d s) =
    let rest = behind p s in if nat_eq (code c) (code d) then rest else none

abbrev read_bearer : Option String → Option String
read_bearer none = none
read_bearer (some s) = behind "Bearer " s

behind_lem : (p s : String) → behind p (p <> s) ≡ some s
behind_lem String.[] s = ap some (nil-append s)
behind_lem (String.◌∷◌ c p) s = rw (cons-append c p s) (ground (arith, behind_lem p s))

read_bearer-ReadsBearer : ReadsBearer read_bearer
read_bearer-ReadsBearer token given = behind_lem "Bearer " token

verify-make_headers_example :
    (serve read_bearer
        (some key)
        none
        (some prod)
        (make_headers dev key (("X-Environment", prod) ∷ []))
      ≡ accepted key)
    ↔ ((dev ≡ prod) × (key ≡ key))
verify-make_headers_example =
    verify-make_headers read_bearer dev prod key (some key) none (("X-Environment", prod) ∷ [])
      read_bearer-ReadsBearer key_given key_ascii
