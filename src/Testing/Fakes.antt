-- ===== src/Testing/Fakes.antt =====
-- The fakes of platform_sdk/testing/__init__.py and plugin.py. A payload and the messages are JSON
-- objects.
use ai_platform_sdk.Prelude.{
  ℕ, String, ◌≡◌, refl, ◌∙◌, ap, Bool, true, false, Option, none, some, List, [], ◌∷◌, ◌++◌, ◌==◌,
  if◌then◌else◌,
}
use mathlib.Core.List.{append-nil, append_assoc}
use ai_platform_sdk.Prelude.Dict.{Dict, lookup, insert, lookup-insert}
use ai_platform_sdk.Json.{Fields}
use ai_platform_sdk.Registry.{RegistryEntry}

-- `RecordingAuthorizer`
pub record RecordingAuthorizer : Type 0 where
  pub allow : Bool
  pub calls : List (String × Fields)

unfoldable pub authorize : String → Fields → RecordingAuthorizer → Bool × RecordingAuthorizer
authorize tool_name payload a =
    (a.allow, record a { calls = a.calls ++ ((tool_name, payload) ∷ []) })

-- `AlwaysAllowAuthorizer` and `AlwaysDenyAuthorizer`
abbrev pub always_allow : String → Fields → Bool
always_allow tool_name payload = true

abbrev pub always_deny : String → Fields → Bool
always_deny tool_name payload = false

-- `MockLLMResponse` with its choices and its usage.
pub record MockMessage : Type 0 where
  pub content : String
  pub role : String

pub record MockChoice : Type 0 where
  pub message : MockMessage
  pub finish_reason : String

pub record MockUsage : Type 0 where
  pub prompt_tokens : ℕ
  pub completion_tokens : ℕ
  pub total_tokens : ℕ

pub record MockLlmResponse : Type 0 where
  pub choices : List MockChoice
  pub model : String
  pub usage : MockUsage

abbrev pub mock_choice : String → MockChoice
mock_choice content = record {
  message = record { content = content; role = "assistant" };
  finish_reason = "stop";
}

abbrev pub mock_usage : MockUsage
mock_usage = record { prompt_tokens = 10; completion_tokens = 20; total_tokens = 30 }

abbrev pub mock_llm_response : String → String → MockLlmResponse
mock_llm_response content model = record {
  choices = mock_choice content ∷ [];
  model = model;
  usage = mock_usage;
}

-- `MockLLMClient`
pub record MockLlmClient : Type 0 where
  pub default_response : String
  pub routes : Dict String
  pub calls : List (String × List Fields)

abbrev pub or_else {ℓ} : {A : Type ℓ} → A → Option A → A
or_else default none = default
or_else default (some v) = v

unfoldable pub generate : String → List Fields → MockLlmClient → MockLlmResponse × MockLlmClient
unfolding lookup
generate model_route messages c = (
  mock_llm_response (or_else c.default_response (lookup model_route c.routes)) model_route,
  record c { calls = c.calls ++ ((model_route, messages) ∷ []) },
)

-- The methods of `InMemoryCache` that change it, and one of them on the dict.
pub data CacheStep : Type 0 where
  set : String → String → CacheStep
  aclose : CacheStep

unfoldable pub cache_step : CacheStep → Dict String → Dict String
unfolding insert
cache_step (set key value) store = insert key value store
cache_step aclose store = []

unfoldable pub run_cache : List CacheStep → Dict String → Dict String
unfolding cache_step
run_cache [] store = store
run_cache (s ∷ steps) store = run_cache steps (cache_step s store)

-- A call that `_FakeRegistry` writes down.
pub data RegistryCall : Type 0 where
  register_self : Fields → RegistryCall
  deregister : String → RegistryCall
  start_heartbeat : String → RegistryCall
  stop_heartbeat start_refresh stop_refresh closed : RegistryCall

-- What is done with the fake: an entry is put in beforehand, or a method is called.
pub data RegistryStep : Type 0 where
  seed : String → RegistryEntry → RegistryStep
  call : RegistryCall → RegistryStep

pub record FakeRegistry : Type 0 where
  pub entries : Dict RegistryEntry
  pub calls : List RegistryCall

unfoldable pub registry_step : RegistryStep → FakeRegistry → FakeRegistry
unfolding insert
registry_step (seed name entry) r = record r { entries = insert name entry r.entries }
registry_step (call c) r = record r { calls = r.calls ++ (c ∷ []) }

unfoldable pub run_registry : List RegistryStep → FakeRegistry → FakeRegistry
unfolding registry_step
run_registry [] r = r
run_registry (s ∷ steps) r = run_registry steps (registry_step s r)

-- `_FakeRegistry.lookup`: `none` is `ServiceNotFound`.
unfoldable pub find : String → FakeRegistry → Option RegistryEntry
unfolding lookup
find name r = lookup name r.entries

-- The latest value that was stored under a key since the last close, if there is one.
abbrev pub latest : String → List CacheStep → Option String → Option String
latest key [] before = before
latest key (set k v ∷ steps) before = latest key steps (if key == k then some v else before)
latest key (aclose ∷ steps) before = latest key steps none

-- The cache gives what was stored last under the key since it was closed.
pub lookup-run_cache :
    (key : String) (steps : List CacheStep) (store : Dict String)
    → lookup key (run_cache steps store) ≡ latest key steps (lookup key store)
unfolding run_cache cache_step
lookup-run_cache key [] store = refl
lookup-run_cache key (set k v ∷ steps) store =
    lookup-run_cache key steps (insert k v store)
    ∙ ap (latest key steps) (lookup-insert key k v store)
lookup-run_cache key (aclose ∷ steps) store =
    lookup-run_cache key steps [] ∙ ap (latest key steps) (unfold lookup in refl)

-- The latest entry under a name, and the calls in their order.
abbrev pub seeded : String → List RegistryStep → Option RegistryEntry → Option RegistryEntry
seeded name [] before = before
seeded name (seed n e ∷ steps) before = seeded name steps (if name == n then some e else before)
seeded name (call c ∷ steps) before = seeded name steps before

abbrev pub called : List RegistryStep → List RegistryCall
called [] = []
called (seed n e ∷ steps) = called steps
called (call c ∷ steps) = c ∷ called steps

-- The fake registry finds the entry that was put in last under the name, whatever methods were
-- called, and it has written down every call in order.
pub find-run_registry :
    (name : String) (steps : List RegistryStep) (r : FakeRegistry)
    → (find name (run_registry steps r) ≡ seeded name steps (find name r))
      × ((run_registry steps r).calls ≡ r.calls ++ called steps)
unfolding run_registry registry_step find
find-run_registry name [] r = (refl, rw append-nil refl)
find-run_registry name (seed n e ∷ steps) r =
    let (found, calls) = find-run_registry name steps (registry_step (seed n e) r) in
    (found ∙ ap (seeded name steps) (lookup-insert name n e r.entries), calls)
find-run_registry name (call c ∷ steps) r =
    let (found, calls) = find-run_registry name steps (registry_step (call c) r) in
    (found, calls ∙ append_assoc r.calls (c ∷ []) (called steps))
