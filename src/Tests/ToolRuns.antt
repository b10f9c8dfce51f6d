-- ===== src/Tests/ToolRuns.antt =====
-- platform_sdk/authorized_tool.py at concrete inputs.
use Prim.Native.Char.{Char, code}
use ai_platform_sdk.Prelude.{
  ◌<◌, ℕ, ◌+◌, String, ◌≡◌, refl, Bool, true, false, Option, none, some, [], ◌∷◌, arith,
  if◌then◌else◌, nat_eq, ap,
}
use ai_platform_sdk.Prelude.Dict.{Dict}
use ai_platform_sdk.Json.{Json, Fields, str, obj, end, field}
use ai_platform_sdk.Resilience.{circuit_breaker, is_open}
use ai_platform_sdk.Tools.Errors.{JsonText, error_fields, is_error_response}
use ai_platform_sdk.Tools.Authorized.{ToolSpec, wrapper}
use ai_platform_sdk.Tools.Cache.{
  miss, Redis, tool_result_cache, cache_get, Times, World, cached_call,
}
use ai_platform_sdk.Tools.Cache.Denied.{guarded, stored_or, cached_call_denied}
use ai_platform_sdk.Prelude.Dict.{insert}
use ai_platform_sdk.Tools.Authorized.Guard.{wrapper_denied}
use ai_platform_sdk.Tools.Authorized.Outage.{policy, outage_blocks_tools}
use ai_platform_sdk.Security.Opa.{
  OpaClient, Reply, timeout_exception, response, outcome, transient, input_data, authorize,
}

-- A printer of the mappings that errors are, with its reader: every character of the code behind
-- a plus, and the message behind a dot.
dump_pair : String → String → String
dump_pair String.[] message = String.◌∷◌ "." message
dump_pair (String.◌∷◌ c code) message = String.◌∷◌ "+" (String.◌∷◌ c (dump_pair code message))

abbrev cons_code : Char → Option (String × String) → Option (String × String)
cons_code c none = none
cons_code c (some (code, message)) = some (String.◌∷◌ c code, message)

load_pair : String → Option (String × String)
load_pair String.[] = none
load_pair (String.◌∷◌ p String.[]) = if nat_eq (code p) b'.' then some ("", "") else none
load_pair (String.◌∷◌ p (String.◌∷◌ c s)) =
    let more = cons_code c (load_pair s) in
    if nat_eq (code p) b'.' then some ("", String.◌∷◌ c s) else more

load_pair-dump_pair : (c m : String) → load_pair (dump_pair c m) ≡ some (c, m)
unfolding load_pair dump_pair
load_pair-dump_pair String.[] String.[] = refl
load_pair-dump_pair String.[] (String.◌∷◌ d m) = refl
load_pair-dump_pair (String.◌∷◌ d c) m = rw (load_pair-dump_pair c m) refl

abbrev dump_error : Fields → String
dump_error (field j (str c) (field k (str m) end)) = dump_pair c m
dump_error _ = ""

abbrev as_error : Option (String × String) → Option Json
as_error none = none
as_error (some (c, m)) = some (obj (error_fields c m))

abbrev sample_json : JsonText
sample_json = record { dumps = dump_error; loads = λ s. as_error (load_pair s) }

sample_json_reads :
    (c m : String)
    → sample_json.loads (sample_json.dumps (error_fields c m)) ≡ some (obj (error_fields c m))
unfolding error_fields
sample_json_reads c m = ap as_error (load_pair-dump_pair c m)

abbrev spec : ToolSpec
spec = record {
  tool_name = "search";
  require_input = some "query";
  max_input_length = 4;
  str_of = λ v. "";
}

abbrev arguments : Dict Json
arguments = ("query", str " rates ") ∷ []

abbrev deny_all : String → Dict Json → ℕ → Bool × ℕ
deny_all tool kwargs asked = (false, asked + 1)

abbrev answer : Dict Json → ℕ → Option String × ℕ
answer kwargs n = (some "rows", n)

abbrev crash : Dict Json → ℕ → Option String × ℕ
crash kwargs n = (none, 0)

wrapper_denied_example :
    (wrapper sample_json deny_all answer true spec arguments 3
      ≡ wrapper sample_json deny_all crash true spec arguments 3)
    × (is_error_response sample_json (wrapper sample_json deny_all answer true spec arguments 3).0
        ≡ true)
wrapper_denied_example =
    wrapper_denied sample_json deny_all answer crash true spec arguments 3 sample_json_reads
      (λ k. refl)

abbrev opa : OpaClient
opa = record {
  environment = "prod";
  agent_role = "rm";
  max_retries = 2;
  cb = circuit_breaker "opa" 2 30;
}

abbrev timing_out : ℕ → Dict Json → Reply
timing_out n input = timeout_exception

abbrev allowing : ℕ → Dict Json → Reply
allowing n input = response (some (obj (field "result" (Json.bool true) end)))

opa_closed : is_open 0 opa.cb ≡ false
unfolding is_open
opa_closed = refl

always_transient : (j : ℕ) → j < 2 → outcome (timing_out j (input_data opa "read" [])) ≡ transient
unfolding outcome
always_transient j h = refl

abbrev counting : Dict Json → OpaClient × ℕ → Option String × (OpaClient × ℕ)
counting kwargs (client, runs) = (some "rows", (client, runs + 1))

outage_blocks_tools_example :
    let after = (authorize timing_out (λ n. n) 0 opa "read" []).1 in
    let r =
      wrapper sample_json (policy allowing (λ n. n) 20) counting true spec arguments (after, 7) in
    (r.1 ≡ (after, 7)) × (is_error_response sample_json r.0 ≡ true)
outage_blocks_tools_example =
    outage_blocks_tools sample_json timing_out allowing (λ n. n) (λ n. n) 0 20 1 opa "read" []
      counting spec arguments 7 sample_json_reads opa_closed refl always_transient (omega arith)
      (omega arith)

abbrev cache_server : Redis
cache_server = record {
  State = Dict String;
  fetch = λ key s. miss;
  setex = λ key ttl value s. (true, insert key value s);
}

abbrev readings : Times
readings = record { get_started = 1; get_ended = 2; set_started = 3; set_ended = 4 }

abbrev empty_world : World cache_server ℕ
empty_world = record { cache = tool_result_cache true 300; server = []; inner = 3 }

cached_call_denied_example :
    let R = cache_server in
    let refusal = (wrapper sample_json deny_all answer true spec arguments 3).0 in
    let call = λ (fn : Dict Json → ℕ → Option String × ℕ).
      cached_call R sample_json
        (guarded R sample_json deny_all true spec arguments fn)
        readings
        "k"
        empty_world in
    ((call answer).0
      ≡ some (
          stored_or R sample_json deny_all true spec arguments
            (cache_get R 1 2 "k" empty_world.cache empty_world.server).0
            refusal))
    × (is_error_response sample_json refusal ≡ true)
    × ((call answer).1.server ≡ [])
    × (call answer ≡ call crash)
cached_call_denied_example =
    cached_call_denied cache_server sample_json deny_all true spec arguments answer crash readings
      "k" empty_world sample_json_reads (λ k. refl)
