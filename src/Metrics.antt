-- ===== src/Metrics.antt =====
-- platform_sdk/metrics.py: the instruments, which are created when they are first needed, and the
-- calls that the functions of the module make on OpenTelemetry. A latency is in milliseconds, and
-- what the library logs is left out.
pub mod Totals
pub mod Created
use ai_platform_sdk.Prelude.{
  ℕ, zero, suc, String, Bool, true, false, Option, none, some, List, [], ◌∷◌, ◌++◌, ◌==◌,
  if◌then◌else◌,
}
use ai_platform_sdk.Prelude.Dict.{Dict, lookup, insert}

-- An instrument, by the method of the meter that makes it.
pub data Instrument : Type 0 where
  counter : String → Instrument
  histogram : String → Instrument
  up_down_counter : String → Instrument

-- What is asked of OpenTelemetry.
pub data Call : Type 0 where
  create : Instrument → Call
  add : Instrument → ℕ → Dict String → Call
  observe : Instrument → ℕ → Dict String → Call

-- What OpenTelemetry does: whether it can be imported, and whether a creation returns.
pub record Otel : Type 0 where
  pub imports : Bool
  pub creates : Instrument → Bool

-- `_meter`, whether it is set; `_instruments`; and the calls that were made.
pub record Metrics : Type 0 where
  pub meter : Bool
  pub instruments : Dict Instrument
  pub calls : List Call

-- `_get_meter`, whether it returns a meter
unfoldable pub get_meter : Otel → Metrics → Bool × Metrics
get_meter o s = if s.meter then (true, s) else (o.imports, record s { meter = o.imports })

abbrev pub instrument_of : String → String → Option Instrument
instrument_of name kind =
    if kind == "counter"
    then some (counter name)
    else if kind == "histogram"
    then some (histogram name)
    else if kind == "gauge"
    then some (up_down_counter name)
    else none

abbrev pub create_instrument :
    Otel → String → Option Instrument → Metrics → Option Instrument × Metrics
create_instrument o name none s = (none, s)
create_instrument o name (some i) s =
    if o.creates i
    then (
      some i,
      record s { instruments = insert name i s.instruments; calls = s.calls ++ (create i ∷ []) },
    )
    else (none, s)

abbrev pub kept_or_created :
    Otel → String → String → Option Instrument → Metrics → Option Instrument × Metrics
kept_or_created o name kind (some i) s = (some i, s)
kept_or_created o name kind none s =
    let (has_meter, s') = get_meter o s in
    if has_meter then create_instrument o name (instrument_of name kind) s' else (none, s')

-- `_get_or_create`
unfoldable pub get_or_create : Otel → String → String → Metrics → Option Instrument × Metrics
unfolding get_meter lookup insert
get_or_create o name kind s = kept_or_created o name kind (lookup name s.instruments) s

-- `if counter: counter.add(amount, attributes)`
abbrev pub added : ℕ → Dict String → Option Instrument × Metrics → Metrics
added amount attributes (none, s) = s
added amount attributes (some i, s) = record s { calls = s.calls ++ (add i amount attributes ∷ []) }

-- `if histogram: histogram.record(value, attributes)`
abbrev pub observed : ℕ → Dict String → Option Instrument × Metrics → Metrics
observed value attributes (none, s) = s
observed value attributes (some i, s) = record s {
  calls = s.calls ++ (observe i value attributes ∷ []);
}

-- Both lines of the functions below.
unfoldable pub add_to : Otel → String → String → ℕ → Dict String → Metrics → Metrics
unfolding get_or_create
add_to o name kind amount attributes s = added amount attributes (get_or_create o name kind s)

unfoldable pub record_to : Otel → String → ℕ → Dict String → Metrics → Metrics
unfolding get_or_create
record_to o name value attributes s = observed value attributes (get_or_create o name "histogram" s)

abbrev pub one_if : Bool → ℕ
one_if true = 1
one_if false = 0

abbrev pub redis_cache : Dict String
redis_cache = ("component", "redis_cache") ∷ []

unfoldable pub record_cache_state : Otel → Bool → ℕ → Metrics → Metrics
unfolding add_to
record_cache_state o circuit_open consecutive_failures s =
    let s' = add_to o "cache.circuit_breaker.state" "gauge" (one_if circuit_open) redis_cache s in
    add_to o "cache.consecutive_failures" "gauge" consecutive_failures redis_cache s'

unfoldable pub record_cache_transition : Otel → String → String → Metrics → Metrics
unfolding add_to
record_cache_transition o from_state to_state s =
    add_to o "cache.circuit_breaker.transitions" "counter" 1
      (("from_state", from_state) ∷ ("to_state", to_state) ∷ []) s

unfoldable pub record_opa_decision : Otel → String → Bool → ℕ → Metrics → Metrics
unfolding add_to record_to
record_opa_decision o tool allowed latency s =
    let decision = if allowed then "allow" else "deny" in
    let s' =
      add_to o "opa.decisions.total" "counter" 1 (("tool", tool) ∷ ("decision", decision) ∷ []) s in
    record_to o "opa.latency.seconds" latency (("tool", tool) ∷ []) s'

-- The number of failures is not used.
unfoldable pub record_opa_circuit_state : Otel → Bool → ℕ → Metrics → Metrics
unfolding add_to
record_opa_circuit_state o circuit_open consecutive_failures s =
    add_to o "opa.circuit_breaker.state" "gauge" (one_if circuit_open) (("component", "opa") ∷ []) s

abbrev pub with_bridge : Option String → Dict String → Dict String
with_bridge none attrs = attrs
with_bridge (some url) attrs = if url == "" then attrs else insert "bridge" url attrs

unfoldable pub record_mcp_tool_call : Otel → String → String → ℕ → Option String → Metrics → Metrics
unfolding add_to record_to insert
record_mcp_tool_call o tool outcome latency bridge_url s =
    let attrs = ("tool", tool) ∷ ("outcome", outcome) ∷ [] in
    let s' = add_to o "mcp.tool_calls.total" "counter" 1 (with_bridge bridge_url attrs) s in
    record_to o "mcp.tool_latency.seconds" latency attrs s'

-- A call of one of the five functions.
pub data Recording : Type 0 where
  cache_state : Bool → ℕ → Recording
  cache_transition : String → String → Recording
  opa_decision : String → Bool → ℕ → Recording
  opa_circuit_state : Bool → ℕ → Recording
  mcp_tool_call : String → String → ℕ → Option String → Recording

unfoldable pub record_one : Otel → Recording → Metrics → Metrics
unfolding record_cache_state record_cache_transition record_opa_decision record_opa_circuit_state
    record_mcp_tool_call
record_one o (cache_state circuit_open failures) = record_cache_state o circuit_open failures
record_one o (cache_transition before after) = record_cache_transition o before after
record_one o (opa_decision tool allowed latency) = record_opa_decision o tool allowed latency
record_one o (opa_circuit_state circuit_open failures) =
    record_opa_circuit_state o circuit_open failures
record_one o (mcp_tool_call tool outcome latency url) =
    record_mcp_tool_call o tool outcome latency url

-- The calls of a process, one after another; OpenTelemetry may do something else at each.
unfoldable pub record_all : List (Otel × Recording) → Metrics → Metrics
unfolding record_one
record_all [] s = s
record_all ((o, r) ∷ rs) s = record_all rs (record_one o r s)

-- The module when it is imported.
abbrev pub initial : Metrics
initial = record { meter = false; instruments = []; calls = [] }

abbrev pub name_of : Instrument → String
name_of (counter name) = name
name_of (histogram name) = name
name_of (up_down_counter name) = name
