-- ===== src/Metrics/Totals.antt =====
-- What the instruments of platform_sdk/metrics.py show.
use ai_platform_sdk.Prelude.{
  ℕ, ◌+◌, String, ◌≡◌, refl, ◌∙◌, true, Option, none, some, List, [], ◌∷◌, ◌++◌, arith, ◌==◌,
  eq_iff, if◌then◌else◌, All, Option-cases, inl, inr,
}
use ai_platform_sdk.Prelude.Dict.{Dict, lookup, insert, lookup-insert}
use ai_platform_sdk.Metrics.{
  Instrument, counter, histogram, up_down_counter, Call, create, add, observe, Otel, Metrics,
  get_meter, instrument_of, create_instrument, get_or_create, added, observed, add_to, record_to,
  one_if, redis_cache, record_cache_state, record_cache_transition, record_opa_decision,
  record_opa_circuit_state, with_bridge, record_mcp_tool_call, Recording, cache_state,
  cache_transition, opa_decision, opa_circuit_state, mcp_tool_call, record_one, record_all, initial,
  name_of,
}

-- The sum of a counter, of either kind: what OpenTelemetry shows of it.
unfoldable pub value : String → List Call → ℕ
value n [] = 0
value n (create i ∷ cs) = value n cs
value n (add i amount attributes ∷ cs) = (if name_of i == n then amount else 0) + value n cs
value n (observe i amount attributes ∷ cs) = value n cs

value-append : (n : String) (cs ds : List Call) → value n (cs ++ ds) ≡ value n cs + value n ds
unfolding value
value-append n [] ds = omega arith
value-append n (create i ∷ cs) ds = value-append n cs ds
value-append n (add i a t ∷ cs) ds = grind (arith, value-append n cs ds)
value-append n (observe i a t ∷ cs) ds = value-append n cs ds

-- An instrument is kept under its own name.
abbrev pub Named : Metrics → Type 0
Named s = (k : String) (i : Instrument) → lookup k s.instruments ≡ some i → name_of i ≡ k

insert-Named :
    (s : Metrics) (name : String) (i : Instrument)
    → Named s
    → name_of i ≡ name
    → (k : String) (j : Instrument) → lookup k (insert name i s.instruments) ≡ some j
    → name_of j ≡ k
insert-Named s name i h e k j at =
    ground (arith, lookup-insert k name i s.instruments, eq_iff k name, h k j)

-- OpenTelemetry is installed and makes every instrument.
abbrev pub Working : Otel → Type 0
Working o = (o.imports ≡ true) × ((i : Instrument) → o.creates i ≡ true)

-- There is an instrument of the name, in a state that shows the same sums.
abbrev Found : String → Metrics → Option Instrument × Metrics → Type 0
Found name s (none, s') = ⊥
Found name s (some i, s') =
    (name_of i ≡ name) × Named s' × ((n : String) → value n s'.calls ≡ value n s.calls)

get_meter_lem :
    (o : Otel) (s : Metrics) → Working o → get_meter o s ≡ (true, record s { meter = true })
unfolding get_meter
get_meter_lem o s (h, g) = ground arith

create_instrument-Found :
    (o : Otel) (name : String) (i : Instrument) (s : Metrics)
    → Working o
    → name_of i ≡ name
    → Named s
    → Found name s (create_instrument o name (some i) s)
unfolding value
create_instrument-Found o name i s (h, g) e named =
    rw (g i)
      (e, insert-Named s name i named e, λ n. value-append n s.calls (create i ∷ []) ∙ omega arith)

get_or_create-Found :
    (o : Otel) (name kind : String) (i : Instrument) (s : Metrics)
    → Working o
    → instrument_of name kind ≡ some i
    → name_of i ≡ name
    → Named s
    → Found name s (get_or_create o name kind s)
unfolding get_or_create
get_or_create-Found o name kind i s w k e named = elim (Option-cases (lookup name s.instruments)) [
  | inl h ↦
      rw (h, get_meter_lem o s w, k)
        (create_instrument-Found o name i (record s { meter = true }) w e named)
  | inr (j, h) ↦ rw h (named name j h, named, λ n. refl)
]

-- Every sum has grown by so much.
abbrev Moves : (String → ℕ) → Metrics → Metrics → Type 0
Moves f s s' = Named s' × ((n : String) → value n s'.calls ≡ value n s.calls + f n)

abbrev under : String → ℕ → String → ℕ
under name amount n = if name == n then amount else 0

added-Moves :
    (name : String) (amount : ℕ) (attributes : Dict String) (s : Metrics)
    (r : Option Instrument × Metrics)
    → Found name s r
    → Moves (under name amount) s (added amount attributes r)
unfolding value
added-Moves name amount attributes s (none, s') found = elim found [ ]
added-Moves name amount attributes s (some i, s') (e, named, same) = (
  named,
  λ n. rw (value-append n s'.calls (add i amount attributes ∷ []), same n, e) (omega arith),
)

observed-Moves :
    (name : String) (amount : ℕ) (attributes : Dict String) (s : Metrics)
    (r : Option Instrument × Metrics)
    → Found name s r
    → Moves (λ n. 0) s (observed amount attributes r)
unfolding value
observed-Moves name amount attributes s (none, s') found = elim found [ ]
observed-Moves name amount attributes s (some i, s') (e, named, same) = (
  named,
  λ n. rw (value-append n s'.calls (observe i amount attributes ∷ []), same n) (omega arith),
)

module _ (o : Otel) (w : Working o) where
  add_to-Moves :
      (name kind : String) (i : Instrument) (amount : ℕ) (attributes : Dict String) (s : Metrics)
      → instrument_of name kind ≡ some i
      → name_of i ≡ name
      → Named s
      → Moves (under name amount) s (add_to o name kind amount attributes s)
  unfolding add_to
  add_to-Moves name kind i amount attributes s k e named =
      added-Moves name amount attributes s (get_or_create o name kind s)
        (get_or_create-Found o name kind i s w k e named)

  record_to-Moves :
      (name : String) (amount : ℕ) (attributes : Dict String) (s : Metrics)
      → Named s
      → Moves (λ n. 0) s (record_to o name amount attributes s)
  unfolding record_to
  record_to-Moves name amount attributes s named =
      observed-Moves name amount attributes s (get_or_create o name "histogram" s)
        (get_or_create-Found o name "histogram" (histogram name) s w refl refl named)

then_Moves :
    (f g : String → ℕ) (s s' s'' : Metrics)
    → Moves f s s'
    → Moves g s' s''
    → Moves (λ n. f n + g n) s s''
then_Moves f g s s' s'' (named, h) (named', h') = (named', λ n. h' n ∙ rw (h n) (omega arith))

module _ (o : Otel) (w : Working o) where
  -- A counter and a histogram, one after the other.
  counted_and_timed :
      (name : String) (attributes : Dict String) (latency_name : String) (latency : ℕ)
      (labels : Dict String) (s : Metrics)
      → Named s
      → Moves
          (under name 1)
          s
          (record_to o latency_name latency labels (add_to o name "counter" 1 attributes s))
  counted_and_timed name attributes latency_name latency labels s named =
      let (named', h) =
        add_to-Moves o w name "counter" (counter name) 1 attributes s refl refl named in
      let s' = add_to o name "counter" 1 attributes s in
      let (named'', h') = record_to-Moves o w latency_name latency labels s' named' in
      (named'', λ n. h' n ∙ rw (h n) (omega arith))

-- What a call adds to the sum of a name.
unfoldable pub amount : String → Recording → ℕ
amount n (cache_state circuit_open failures) =
    under "cache.circuit_breaker.state" (one_if circuit_open) n
    + under "cache.consecutive_failures" failures n
amount n (cache_transition before after) = under "cache.circuit_breaker.transitions" 1 n
amount n (opa_decision tool allowed latency) = under "opa.decisions.total" 1 n
amount n (opa_circuit_state circuit_open failures) =
    under "opa.circuit_breaker.state" (one_if circuit_open) n
amount n (mcp_tool_call tool outcome latency url) = under "mcp.tool_calls.total" 1 n

unfoldable pub total : String → List (Otel × Recording) → ℕ
unfolding amount
total n [] = 0
total n ((o, r) ∷ rs) = amount n r + total n rs

record_one-Moves :
    (o : Otel) (r : Recording) (s : Metrics)
    → Working o
    → Named s
    → Moves (λ n. amount n r) s (record_one o r s)
unfolding amount record_one record_cache_state record_cache_transition record_opa_decision
    record_opa_circuit_state record_mcp_tool_call
record_one-Moves o (cache_state circuit_open failures) s w named =
    let state : String = "cache.circuit_breaker.state" in
    let failed : String = "cache.consecutive_failures" in
    let s' = add_to o state "gauge" (one_if circuit_open) redis_cache s in
    let h =
      add_to-Moves o w state "gauge" (up_down_counter state) (one_if circuit_open) redis_cache s
        refl refl named in
    then_Moves (under state (one_if circuit_open)) (under failed failures) s s'
      (add_to o failed "gauge" failures redis_cache s') h
      (add_to-Moves o w failed "gauge" (up_down_counter failed) failures redis_cache s' refl refl
        h.0)
record_one-Moves o (cache_transition before after) s w named =
    add_to-Moves o w "cache.circuit_breaker.transitions" "counter"
      (counter "cache.circuit_breaker.transitions") 1
      (("from_state", before) ∷ ("to_state", after) ∷ []) s refl refl named
record_one-Moves o (opa_decision tool allowed latency) s w named =
    counted_and_timed o w "opa.decisions.total"
      (("tool", tool) ∷ ("decision", if allowed then "allow" else "deny") ∷ [])
      "opa.latency.seconds" latency (("tool", tool) ∷ []) s named
record_one-Moves o (opa_circuit_state circuit_open failures) s w named =
    add_to-Moves o w "opa.circuit_breaker.state" "gauge"
      (up_down_counter "opa.circuit_breaker.state") (one_if circuit_open)
      (("component", "opa") ∷ []) s refl refl named
record_one-Moves o (mcp_tool_call tool outcome latency url) s w named =
    let attrs = ("tool", tool) ∷ ("outcome", outcome) ∷ [] in
    counted_and_timed o w "mcp.tool_calls.total" (with_bridge url attrs) "mcp.tool_latency.seconds"
      latency attrs s named

record_all-Moves :
    (rs : List (Otel × Recording)) (s : Metrics)
    → All (λ x. Working x.0) rs
    → Named s
    → Moves (λ n. total n rs) s (record_all rs s)
unfolding record_all total
record_all-Moves [] s w named = (named, λ n. omega arith)
record_all-Moves ((o, r) ∷ rs) s (w, ws) named =
    let h = record_one-Moves o r s w named in
    then_Moves (λ n. amount n r) (λ n. total n rs) s (record_one o r s)
      (record_all rs (record_one o r s)) h (record_all-Moves rs (record_one o r s) ws h.0)

initial-Named : Named initial
unfolding lookup
initial-Named k i h = cc

-- While OpenTelemetry works, every counter and gauge shows the sum of what was reported under its
-- name since the module was imported. So the gauge `cache.circuit_breaker.state` shows the number
-- of reports of an open circuit, and `cache.consecutive_failures` the sum of the reported numbers:
-- a report of a closed circuit adds nothing, and neither of them goes down.
pub record_all-total :
    (rs : List (Otel × Recording)) (n : String)
    → All (λ x. Working x.0) rs
    → value n (record_all rs initial).calls ≡ total n rs
unfolding value
record_all-total rs n w = (record_all-Moves rs initial w initial-Named).1 n ∙ omega arith
