-- ===== src/Tests/ServiceRuns.antt =====
-- platform_sdk/compaction.py, prompt_manager.py and base/mcp_service.py at concrete inputs.
use ai_platform_sdk.Prelude.{
  ℕ, String, ◌≡◌, refl, true, false, none, some, List, [], ◌∷◌, arith, get_last?, ◌⊎◌, ◌<◌, ◌≤◌,
}
use ai_platform_sdk.Prelude.Dict.{lookup-nil}
use ai_platform_sdk.Compaction.{Message, make_token_counter, apply}
use ai_platform_sdk.Compaction.Budget.{KeepsLast, apply_keeps_request}
use ai_platform_sdk.Compaction.Limit.{TrimsWithin, Settled, CutShort, Enough, guarded, apply_limit}
use ai_platform_sdk.Prompts.{text_prompt, PromptManager, compiled, failed}
use ai_platform_sdk.Prompts.Refinement.{
  Op, text_call, invalidate, run, replay, Represents, run_refines,
}
use ai_platform_sdk.Service.{Resource, McpService, Startup, Shutdown, enter, exit}
use ai_platform_sdk.Service.Lifespan.{Injected, lifespan_restores}

abbrev system : Message
system = record { is_system = true; content = "rules" }

abbrev question : Message
question = record { is_system = false; content = "a long question" }

abbrev conversation : List Message
conversation = system ∷ question ∷ []

-- A trim that keeps nothing.
abbrev trim_all : ℕ → List Message → List Message
trim_all limit ms = []

trim_all-KeepsLast : KeepsLast trim_all
trim_all-KeepsLast limit ms h = absurd (omega arith)

apply_keeps_request_example :
    get_last? (apply (make_token_counter none) trim_all 2 conversation) ≡ some question
apply_keeps_request_example =
    apply_keeps_request (make_token_counter none) trim_all 2 conversation question
      trim_all-KeepsLast (omega arith) refl refl

trim_all-TrimsWithin : TrimsWithin (make_token_counter none) trim_all
unfolding make_token_counter
trim_all-TrimsWithin limit ms = omega arith

apply_limit_example :
    let r = apply (make_token_counter none) trim_all 2 conversation in
    ((make_token_counter none conversation ≤ 2) × (r ≡ conversation))
    ⊎ ((2 < make_token_counter none conversation)
        × Enough none trim_all 2 conversation
        × (r ≡ [])
        × Settled none trim_all 2 r)
    ⊎ ((2 < make_token_counter none conversation)
        × CutShort none trim_all 2 conversation
        × (r ≡ guarded conversation))
apply_limit_example = apply_limit none trim_all 2 conversation trim_all-TrimsWithin

abbrev resource : String → Resource
resource name = record { name = name; has_aclose = true; has_close = false }

-- A service with an injected cache.
abbrev service : McpService
service = record {
  assert_secrets = true;
  enable_tool_cache = true;
  requires_database = true;
  authorizer = none;
  cache = some (resource "injected");
  db_pool = none;
  owns_authorizer = false;
  owns_cache = false;
  owns_db_pool = false;
  registry = false;
  closed = [];
}

abbrev startup : Startup
startup = record {
  secrets_configured = true;
  registers = true;
  registered = true;
  opa_client = resource "opa";
  tool_result_cache = none;
  pool = some (resource "pool");
  starts = true;
}

abbrev shutdown : Shutdown
shutdown = record { shuts_down = true; deregisters = true }

service-Injected : Injected service
service-Injected = (refl, refl, refl)

enters : (enter startup service).0 ≡ true
unfolding enter
enters = refl

leaves : (exit shutdown (enter startup service).1).0 ≡ true
unfolding enter exit
leaves = refl

lifespan_restores_example :
    ((exit shutdown (enter startup service).1).1.authorizer ≡ none)
    × ((exit shutdown (enter startup service).1).1.cache ≡ some (resource "injected"))
    × ((exit shutdown (enter startup service).1).1.db_pool ≡ none)
    × ((exit shutdown (enter startup service).1).1.registry ≡ false)
    × ((exit shutdown (enter startup service).1).1.closed ≡ resource "opa" ∷ resource "pool" ∷ [])
lifespan_restores_example =
    lifespan_restores startup shutdown service service-Injected enters leaves

abbrev manager : PromptManager
manager = record { ttl_seconds = 300; cache = []; configured = true }

manager-Represents : Represents 300 true manager (λ k. none)
manager-Represents = (refl, refl, λ k. lookup-nil k)

-- A fetch, a failing fetch within the time to live, an invalidation and a failing fetch.
abbrev calls : List Op
calls =
    text_call 10 11 (compiled (text_prompt "Hello")) "greeting" none none none
    ∷ text_call 100 101 failed "greeting" none none (some "Hi")
    ∷ invalidate (some "greeting")
    ∷ text_call 102 103 failed "greeting" none none (some "Hi")
    ∷ []

run_refines_example :
    ((run calls manager).0 ≡ (replay 300 true calls (λ k. none)).0)
    × Represents 300 true (run calls manager).1 (replay 300 true calls (λ k. none)).1
run_refines_example = run_refines 300 true calls manager (λ k. none) manager-Represents
