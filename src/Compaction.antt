-- ===== src/Compaction.antt =====
-- platform_sdk/compaction.py: what of the conversation goes to the model. The encoding of a text
-- and `trim_messages` are third-party and are arguments.
pub mod Budget
pub mod Counter
pub mod Limit
use Prim.Native.String.{count}
use ai_platform_sdk.Prelude.{
  ℕ, ◌+◌, ◌/◌, max, String, Bool, true, false, not, Option, none, some, List, [], ◌∷◌, ◌++◌, ltb,
  leb, length, get_last?, keep, ◌&&◌, if◌then◌else◌,
}

-- A message: whether it is a `SystemMessage`, and its content as a text.
pub record Message : Type 0 where
  pub is_system : Bool
  pub content : String

abbrev pub not_system : Message → Bool
not_system m = not m.is_system

-- `_tiktoken_count`, by the number of tokens of a text.
unfoldable pub tiktoken_count : (String → ℕ) → List Message → ℕ
tiktoken_count encoded [] = 0
tiktoken_count encoded (m ∷ ms) = encoded m.content + tiktoken_count encoded ms

-- `_heuristic_count`, by the number of characters of a text.
unfoldable pub heuristic_count : List Message → ℕ
heuristic_count [] = 0
heuristic_count (m ∷ ms) = max 1 (count m.content / 4) + heuristic_count ms

-- `_make_token_counter`: with the encoding where `tiktoken` is installed, else the heuristic.
unfoldable pub make_token_counter : Option (String → ℕ) → List Message → ℕ
unfolding tiktoken_count heuristic_count
make_token_counter none = heuristic_count
make_token_counter (some encoded) = tiktoken_count encoded

-- `_get_token_counter`, with the module's `_token_counter` as state.
unfoldable pub get_token_counter :
    Option (String → ℕ) → Option (List Message → ℕ) → (List Message → ℕ) × Option (List Message → ℕ)
unfolding make_token_counter
get_token_counter encoding none =
    let counter = make_token_counter encoding in (counter, some counter)
get_token_counter encoding (some counter) = (counter, some counter)

-- `[non_system[-1]] if non_system else []`
abbrev pub last_of : Option Message → List Message
last_of none = []
last_of (some m) = m ∷ []

-- The guard behind the trim: a conversation that it cut below two messages becomes the system
-- messages and the last other one.
unfoldable pub min_guard : List Message → List Message → List Message
min_guard messages trimmed =
    if ltb (length trimmed) 2 && leb 2 (length messages)
    then keep Message.is_system messages ++ last_of (get_last? (keep not_system messages))
    else trimmed

pub data State : Type 0 where
  listed : List Message → State
  keyed : Option (List Message) → State

-- `state if isinstance(state, list) else state.get("messages", [])`
abbrev pub messages_of : State → List Message
messages_of (listed ms) = ms
messages_of (keyed none) = []
messages_of (keyed (some ms)) = ms

module _ (counter : List Message → ℕ) (trim_messages : ℕ → List Message → List Message) where
  -- `TokenAwareCompactionModifier.apply`
  unfoldable pub apply : ℕ → List Message → List Message
  unfolding min_guard
  apply token_limit [] = []
  apply token_limit (m ∷ ms) =
      if leb (counter (m ∷ ms)) token_limit
      then m ∷ ms
      else min_guard (m ∷ ms) (trim_messages token_limit (m ∷ ms))

  -- The modifier that `make_compaction_modifier` returns.
  unfoldable pub compaction_modifier : Bool → ℕ → State → List Message
  unfolding min_guard
  compaction_modifier enable_compaction limit state =
      let messages = messages_of state in
      if not enable_compaction
      then messages
      else if leb (counter messages) limit
      then messages
      else min_guard messages (trim_messages limit messages)
