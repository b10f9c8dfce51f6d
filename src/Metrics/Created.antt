-- ===== src/Metrics/Created.antt =====
-- How often platform_sdk/metrics.py creates an instrument.
use ai_platform_sdk.Prelude.{
  ℕ, ◌+◌, String, ◌≡◌, refl, ◌∙◌, true, false, Option, none, some, List, [], ◌∷◌, ◌++◌, arith, ◌==◌,
  eq_iff, if◌then◌else◌, Option-cases, Bool-cases, ◌⊎◌, inl, inr,
}
use ai_platform_sdk.Prelude.Dict.{Dict, lookup, has_key, has_key-insert}
use ai_platform_sdk.Metrics.{
  Instrument, Call, create, add, observe, Otel, Metrics, get_meter, instrument_of,
  create_instrument, get_or_create, added, observed, add_to, record_to, one_if, redis_cache,
  record_cache_state, record_cache_transition, record_opa_decision, record_opa_circuit_state,
  with_bridge, record_mcp_tool_call, Recording, cache_state, cache_transition, opa_decision,
  opa_circuit_state, mcp_tool_call, record_one, record_all, initial, name_of,
}

-- How many instruments of a name were created.
unfoldable pub created : String → List Call → ℕ
created n [] = 0
created n (create i ∷ cs) = one_if (n == name_of i) + created n cs
created n (add i amount attributes ∷ cs) = created n cs
created n (observe i amount attributes ∷ cs) = created n cs

created-append :
    (n : String) (cs ds : List Call) → created n (cs ++ ds) ≡ created n cs + created n ds
unfolding created
created-append n [] ds = omega arith
created-append n (create i ∷ cs) ds = grind (arith, created-append n cs ds)
created-append n (add i a t ∷ cs) ds = created-append n cs ds
created-append n (observe i a t ∷ cs) ds = created-append n cs ds

-- The instruments that were created are those that are kept.
abbrev Kept : Metrics → Type 0
Kept s = (n : String) → created n s.calls ≡ one_if (has_key n s.instruments)

lookup-none-has_key :
    {V : Type 0} (k : String) (d : Dict V) → lookup k d ≡ none → has_key k d ≡ false
unfolding has_key lookup
lookup-none-has_key k [] h = refl
lookup-none-has_key k ((j, v) ∷ d) h = ground (arith, lookup-none-has_key k d)

instrument_of-name_of :
    (name kind : String) (i : Instrument) → instrument_of name kind ≡ some i → name_of i ≡ name
instrument_of-name_of name kind i h = ground arith

create_instrument-Kept :
    (o : Otel) (name : String) (r : Option Instrument) (s : Metrics)
    → ((i : Instrument) → r ≡ some i → name_of i ≡ name)
    → has_key name s.instruments ≡ false
    → Kept s
    → Kept (create_instrument o name r s).1
unfolding created
create_instrument-Kept o name none s e fresh kept n = kept n
create_instrument-Kept o name (some i) s e fresh kept n = elim (Bool-cases (o.creates i)) [
  | inl h ↦
      rw
        (
          h,
          created-append n s.calls (create i ∷ []),
          kept n,
          e i refl,
          has_key-insert n name i s.instruments,
        )
        (ground (arith, eq_iff n name, fresh))
  | inr h ↦ rw h (kept n)
]

get_meter-cases :
    (o : Otel) (s : Metrics)
    → (get_meter o s ≡ (true, record s { meter = true }))
      ⊎ (get_meter o s ≡ (false, record s { meter = false }))
unfolding get_meter
get_meter-cases o s = elim (Bool-cases s.meter) [
  | inl h ↦ inl (ground arith)
  | inr h ↦ elim (Bool-cases o.imports) [ inl i ↦ inl (ground arith) | inr i ↦ inr (ground arith) ]
]

get_or_create-Kept :
    (o : Otel) (name kind : String) (s : Metrics) → Kept s → Kept (get_or_create o name kind s).1
unfolding get_or_create
get_or_create-Kept o name kind s kept = elim (Option-cases (lookup name s.instruments)) [
  | inl h ↦ elim (get_meter-cases o s) [
    | inl m ↦
        rw (h, m)
          (create_instrument-Kept o name (instrument_of name kind) (record s { meter = true })
            (instrument_of-name_of name kind) (lookup-none-has_key name s.instruments h) kept)
    | inr m ↦ rw (h, m) kept
  ]
  | inr (i, h) ↦ rw h kept
]

added-Kept :
    (amount : ℕ) (attributes : Dict String) (r : Option Instrument × Metrics)
    → Kept r.1
    → Kept (added amount attributes r)
unfolding created
added-Kept amount attributes (none, s) kept n = kept n
added-Kept amount attributes (some i, s) kept n =
    created-append n s.calls (add i amount attributes ∷ []) ∙ rw (kept n) (omega arith)

observed-Kept :
    (amount : ℕ) (attributes : Dict String) (r : Option Instrument × Metrics)
    → Kept r.1
    → Kept (observed amount attributes r)
unfolding created
observed-Kept amount attributes (none, s) kept n = kept n
observed-Kept amount attributes (some i, s) kept n =
    created-append n s.calls (observe i amount attributes ∷ []) ∙ rw (kept n) (omega arith)

add_to-Kept :
    (o : Otel) (name kind : String) (amount : ℕ) (attributes : Dict String) (s : Metrics)
    → Kept s
    → Kept (add_to o name kind amount attributes s)
unfolding add_to
add_to-Kept o name kind amount attributes s kept =
    added-Kept amount attributes (get_or_create o name kind s)
      (get_or_create-Kept o name kind s kept)

record_to-Kept :
    (o : Otel) (name : String) (amount : ℕ) (attributes : Dict String) (s : Metrics)
    → Kept s
    → Kept (record_to o name amount attributes s)
unfolding record_to
record_to-Kept o name amount attributes s kept =
    observed-Kept amount attributes (get_or_create o name "histogram" s)
      (get_or_create-Kept o name "histogram" s kept)

record_one-Kept : (o : Otel) (r : Recording) (s : Metrics) → Kept s → Kept (record_one o r s)
unfolding record_one record_cache_state record_cache_transition record_opa_decision
    record_opa_circuit_state record_mcp_tool_call
record_one-Kept o (cache_state circuit_open failures) s kept =
    let state : String = "cache.circuit_breaker.state" in
    let s' = add_to o state "gauge" (one_if circuit_open) redis_cache s in
    add_to-Kept o "cache.consecutive_failures" "gauge" failures redis_cache s'
      (add_to-Kept o state "gauge" (one_if circuit_open) redis_cache s kept)
record_one-Kept o (cache_transition before after) s kept =
    add_to-Kept o "cache.circuit_breaker.transitions" "counter" 1
      (("from_state", before) ∷ ("to_state", after) ∷ []) s kept
record_one-Kept o (opa_decision tool allowed latency) s kept =
    let name : String = "opa.decisions.total" in
    let attributes : Dict String =
      ("tool", tool) ∷ ("decision", if allowed then "allow" else "deny") ∷ [] in
    record_to-Kept o "opa.latency.seconds" latency (("tool", tool) ∷ [])
      (add_to o name "counter" 1 attributes s) (add_to-Kept o name "counter" 1 attributes s kept)
record_one-Kept o (opa_circuit_state circuit_open failures) s kept =
    add_to-Kept o "opa.circuit_breaker.state" "gauge" (one_if circuit_open)
      (("component", "opa") ∷ []) s kept
record_one-Kept o (mcp_tool_call tool outcome latency url) s kept =
    let name : String = "mcp.tool_calls.total" in
    let attrs : Dict String = ("tool", tool) ∷ ("outcome", outcome) ∷ [] in
    record_to-Kept o "mcp.tool_latency.seconds" latency attrs
      (add_to o name "counter" 1 (with_bridge url attrs) s)
      (add_to-Kept o name "counter" 1 (with_bridge url attrs) s kept)

record_all-Kept : (rs : List (Otel × Recording)) (s : Metrics) → Kept s → Kept (record_all rs s)
unfolding record_all
record_all-Kept [] s kept = kept
record_all-Kept ((o, r) ∷ rs) s kept =
    record_all-Kept rs (record_one o r s) (record_one-Kept o r s kept)

-- Whatever OpenTelemetry does at each call, and in whatever order the functions are called: an
-- instrument that is kept was created once, and one that is not kept was never created. So no
-- instrument is created twice.
pub record_all_creates_once :
    (rs : List (Otel × Recording)) (n : String)
    → created n (record_all rs initial).calls
      ≡ (if has_key n (record_all rs initial).instruments then 1 else 0)
unfolding created has_key
record_all_creates_once rs n = record_all-Kept rs initial (λ k. refl) n ∙ ground arith
