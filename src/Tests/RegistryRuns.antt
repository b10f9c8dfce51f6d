-- ===== src/Tests/RegistryRuns.antt =====
-- platform_sdk/registry/client.py at concrete inputs.
use ai_platform_sdk.Prelude.{◌≡◌, refl, ◌⊎◌, true, none, some}
use ai_platform_sdk.Prelude.Dict.{lookup}
use ai_platform_sdk.Json.{end}
use ai_platform_sdk.Resilience.{is_open}
use ai_platform_sdk.Registry.{
  mcp, registered, RegistryEntry, RegistryClient, registry_client, Answer, response, found, fetch,
  find,
}
use ai_platform_sdk.Registry.Freshness.{Served, find_sources}

abbrev entry : RegistryEntry
entry = record {
  name = "search";
  url = some "http://search:8080";
  expected_url = none;
  type = mcp;
  state = registered;
  version = none;
  metadata = end;
  last_heartbeat_at = some 5;
  registered_at = some 1;
  last_changed_at = 1;
}

abbrev client : RegistryClient
client = registry_client 30 60 300

abbrev answer : Answer
answer = response 200 true (some entry)

find_fetches : (find 10 12 answer "search" client).0 ≡ found entry
unfolding find fetch lookup is_open
find_fetches = refl

find_sources_example :
    Served client 10 "search" entry
    ⊎ Served client 12 "search" entry
    ⊎ (fetch "search" answer ≡ found entry)
find_sources_example = find_sources 10 12 answer "search" client entry find_fetches
