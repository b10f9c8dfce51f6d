-- ===== src/Agents/Prompted.antt =====
-- What the two modifiers of platform_sdk/agent.py and platform_sdk/services/agent_builder.py promise
-- of the system prompt and of the token limit.
use ai_platform_sdk.Prelude.{
  ℕ, ◌+◌, ◌≤◌, String, ◌≡◌, ◌≢◌, refl, Bool, true, false, Option, none, some, List, [], ◌∷◌, arith,
  eq_iff, length, leb, ltb, ◌&&◌, keep, Bool-cases, inl, inr,
}
use ai_platform_sdk.Compaction.{
  Message, State, listed, messages_of, min_guard, tiktoken_count, compaction_modifier,
}
use ai_platform_sdk.Agents.{
  type_error, built, build_specialist, begins_system, with_prompt, agent_modifier, builder_modifier,
}

-- `include_system=True`: a system message at the beginning stays there.
abbrev pub KeepsSystem : (ℕ → List Message → List Message) → Type 0
KeepsSystem trim =
    (limit : ℕ) (messages : List Message)
    → begins_system messages ≡ true
    → begins_system (trim limit messages) ≡ true

begins_system-with_prompt :
    (prompt : String) (messages : List Message)
    → prompt ≢ ""
    → begins_system (with_prompt prompt messages) ≡ true
unfolding with_prompt
begins_system-with_prompt prompt messages h = ground (arith, eq_iff prompt "")

begins_system-min_guard :
    (messages trimmed : List Message)
    → begins_system messages ≡ true
    → begins_system trimmed ≡ true
    → begins_system (min_guard messages trimmed) ≡ true
unfolding min_guard keep
begins_system-min_guard [] trimmed h h' = cc
begins_system-min_guard (m ∷ ms) trimmed h h' =
    elim (Bool-cases (ltb (length trimmed) 2 && leb 2 (length (m ∷ ms)))) [
      | inl e ↦ rw (e, h) refl
      | inr e ↦ rw e h'
    ]

begins_system-compaction_modifier :
    (counter : List Message → ℕ) (trim : ℕ → List Message → List Message) (enabled : Bool)
    (limit : ℕ) (messages : List Message)
    → KeepsSystem trim
    → begins_system messages ≡ true
    → begins_system (compaction_modifier counter trim enabled limit (listed messages)) ≡ true
unfolding compaction_modifier
begins_system-compaction_modifier counter trim enabled limit messages keeps h =
    ground
      (arith, begins_system-min_guard messages (trim limit messages) h (keeps limit messages h))

-- With a system prompt, what goes to the model begins with a system message in both ways, whatever
-- the conversation, the limit and the counter, if the trim keeps one at the beginning.
pub modifiers_begin_system :
    (counter : List Message → ℕ) (trim : ℕ → List Message → List Message) (enabled : Bool)
    (limit : ℕ) (prompt : String) (state : State)
    → KeepsSystem trim
    → prompt ≢ ""
    → (begins_system (agent_modifier counter trim enabled limit prompt state) ≡ true)
      × (begins_system (builder_modifier counter trim enabled limit prompt state) ≡ true)
unfolding agent_modifier builder_modifier
modifiers_begin_system counter trim enabled limit prompt state keeps h = (
  begins_system-compaction_modifier counter trim enabled limit
      (with_prompt prompt (messages_of state)) keeps
      (begins_system-with_prompt prompt (messages_of state) h),
  begins_system-with_prompt prompt (compaction_modifier counter trim enabled limit state) h,
)

-- `max_tokens`: what a trim leaves is within the limit.
abbrev pub TrimsWithin : (String → ℕ) → (ℕ → List Message → List Message) → Type 0
TrimsWithin encoded trim =
    (limit : ℕ) (messages : List Message) → tiktoken_count encoded (trim limit messages) ≤ limit

compacted_within :
    (encoded : String → ℕ) (trim : ℕ → List Message → List Message) (limit : ℕ)
    (messages : List Message)
    → TrimsWithin encoded trim
    → 2 ≤ length (trim limit messages)
    → tiktoken_count encoded
        (compaction_modifier (tiktoken_count encoded) trim true limit (listed messages))
      ≤ limit
unfolding compaction_modifier min_guard
compacted_within encoded trim limit messages within two = ground (arith, within limit messages)

prompt_on_top :
    (encoded : String → ℕ) (prompt : String) (messages : List Message)
    → prompt ≢ ""
    → begins_system messages ≡ false
    → tiktoken_count encoded (with_prompt prompt messages)
      ≡ encoded prompt + tiktoken_count encoded messages
unfolding with_prompt tiktoken_count
prompt_on_top encoded prompt messages h e = rw e (ground (arith, eq_iff prompt ""))

-- The two ways differ in the limit: with the prompt compacted along, what goes to the model is
-- within it where the trim leaves two messages or more; with the prompt put before the compacted messages, the tokens of the prompt come on
-- top of those of the messages, unless these begin with a system message.
pub modifiers_limit :
    (encoded : String → ℕ) (trim : ℕ → List Message → List Message) (limit : ℕ) (prompt : String)
    (state : State)
    → TrimsWithin encoded trim
    → 2 ≤ length (trim limit (with_prompt prompt (messages_of state)))
    → prompt ≢ ""
    → let counter = tiktoken_count encoded in
      let compacted = compaction_modifier counter trim true limit state in
      (counter (agent_modifier counter trim true limit prompt state) ≤ limit)
      × (begins_system compacted ≡ false
          → counter (builder_modifier counter trim true limit prompt state)
            ≡ encoded prompt + counter compacted)
unfolding agent_modifier builder_modifier
modifiers_limit encoded trim limit prompt state within two h = (
  compacted_within encoded trim limit (with_prompt prompt (messages_of state)) within two,
  λ e.
      prompt_on_top encoded prompt
        (compaction_modifier (tiktoken_count encoded) trim true limit state) h e,
)

-- An override of the model never takes effect: a specialist that is built has the model of the
-- configuration, and another model raises.
pub build_specialist_route :
    (model_override : Option String) (model_route : String)
    → ((r : String) → build_specialist model_override model_route ≡ built r → r ≡ model_route)
      × ((m : String)
          → model_override ≡ some m
          → m ≢ ""
          → m ≢ model_route
          → build_specialist model_override model_route ≡ type_error)
unfolding build_specialist
build_specialist_route none model_route = (λ r h. ground arith, λ m h. cc)
build_specialist_route (some s) model_route =
    (λ r h. ground arith, λ m h p q. ground (arith, eq_iff s "", eq_iff s model_route))
