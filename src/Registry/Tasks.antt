-- ===== src/Registry/Tasks.antt =====
-- Registration, and the heartbeat and refresh tasks of `RegistryClient`.
use ai_platform_sdk.Prelude.{
  ℕ, String, ◌≡◌, refl, Bool, true, false, Option, none, some, List, [], ◌∷◌, map, arith, nat_eq,
  ◌==◌, if◌then◌else◌,
}
use ai_platform_sdk.Prelude.Dict.{Dict, lookup, insert, lookup-insert}
use ai_platform_sdk.Registry.{RegistryEntry, CacheEntry, RegistryClient}

-- How a POST or a DELETE ends: an exception of the request, or a status and whether
-- `raise_for_status` returns for it.
pub data Reply : Type 0 where
  request_error : Reply
  status : ℕ → Bool → Reply

pub data Registered : Type 0 where
  done unreachable status_error : Registered

-- `register_self`: a conflict is no error, and leaves the registered name as it was.
unfoldable pub register_self : Reply → String → RegistryClient → Registered × RegistryClient
register_self request_error name r = (unreachable, r)
register_self (status code success) name r =
    if nat_eq code 409
    then (done, r)
    else if success
    then (done, record r { registered_name = some name })
    else (status_error, r)

-- `start_heartbeat` and `stop_heartbeat`; a running task is known by the name that it beats for.
unfoldable pub start_heartbeat : String → RegistryClient → RegistryClient
start_heartbeat name r = elim r.heartbeat_task [
  | some running ↦ r
  | none ↦ record r { heartbeat_task = some name }
]

unfoldable pub stop_heartbeat : RegistryClient → RegistryClient
stop_heartbeat r = record r { heartbeat_task = none }

unfoldable pub start_refresh : RegistryClient → RegistryClient
start_refresh r = if r.refresh_task then r else record r { refresh_task = true }

unfoldable pub stop_refresh : RegistryClient → RegistryClient
stop_refresh r = record r { refresh_task = false }

-- The entries of one round of the refresh task, each of which validates or not: those before the
-- first that does not are stored, and the exception ends the round.
unfoldable pub store_services : ℕ → List (Option RegistryEntry) → Dict CacheEntry → Dict CacheEntry
store_services now [] cache = cache
store_services now (none ∷ rest) cache = cache
store_services now (some e ∷ rest) cache =
    store_services now rest (insert e.name (record { entry = e; fetched_at = now }) cache)

-- What a GET of all services brings: an exception or another status than 200, or the list.
unfoldable pub refresh_round :
    ℕ → Option (List (Option RegistryEntry)) → RegistryClient → RegistryClient
unfolding store_services
refresh_round now none r = r
refresh_round now (some services) r = record r { cache = store_services now services r.cache }

-- The last entry of that name in a list of services.
abbrev pub last_named : String → List RegistryEntry → Option RegistryEntry → Option RegistryEntry
last_named name [] last = last
last_named name (e ∷ es) last = last_named name es (if name == e.name then some e else last)

abbrev pub stored_or : ℕ → Option RegistryEntry → Option CacheEntry → Option CacheEntry
stored_or now none old = old
stored_or now (some e) old = some (record { entry = e; fetched_at = now })

store_services-last_named :
    (now : ℕ) (es : List RegistryEntry) (name : String) (cache : Dict CacheEntry)
    (last : Option RegistryEntry) (old : Option CacheEntry)
    → lookup name cache ≡ stored_or now last old
    → lookup name (store_services now (map some es) cache)
      ≡ stored_or now (last_named name es last) old
unfolding store_services
store_services-last_named now [] name cache last old h = h
store_services-last_named now (e ∷ es) name cache last old h =
    store_services-last_named now es name
      (insert e.name (record { entry = e; fetched_at = now }) cache)
      (if name == e.name then some e else last) old (rw lookup-insert (ground arith))

-- A round that lists valid entries: a name that is among them is cached with the last of its
-- entries, as fetched now, and every other name keeps what was cached for it.
pub refresh_round-last_named :
    (now : ℕ) (es : List RegistryEntry) (name : String) (r : RegistryClient)
    → lookup name (refresh_round now (some (map some es)) r).cache
      ≡ stored_or now (last_named name es none) (lookup name r.cache)
unfolding refresh_round
refresh_round-last_named now es name r =
    store_services-last_named now es name r.cache none (lookup name r.cache) refl

-- Starting the heartbeat again, under any name, changes nothing until it is stopped; after a stop
-- the next start takes effect.
pub start_heartbeat_once :
    (a b : String) (r : RegistryClient)
    → (start_heartbeat b (start_heartbeat a r) ≡ start_heartbeat a r)
      × ((start_heartbeat b (stop_heartbeat (start_heartbeat a r))).heartbeat_task ≡ some b)
unfolding start_heartbeat stop_heartbeat
start_heartbeat_once a b r = ground arith
