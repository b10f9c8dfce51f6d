-- ===== src/Prompts.antt =====
-- platform_sdk/prompt_manager.py: prompts fetched from LangFuse and cached. How a fetch ends is an
-- argument, and so is the clock: `before` is its reading at the look into the cache and `after`
-- the one where the result is stored.
pub mod Caching
pub mod Refinement
use ai_platform_sdk.Prelude.{
  ℕ, ◌+◌, String, ◌<>◌, Bool, true, false, not, ◌||◌, Option, none, some, List, [], ◌∷◌, ltb, keep,
  if◌then◌else◌,
}
use ai_platform_sdk.Prelude.Texts.{starts_with}
use ai_platform_sdk.Prelude.Dict.{Dict, lookup, insert}

-- A text prompt, or a chat prompt: its messages by role and content.
pub data Prompt : Type 0 where
  text_prompt : String → Prompt
  chat_prompt : List (String × String) → Prompt

pub record PromptManager : Type 0 where
  pub ttl_seconds : ℕ
  pub cache : Dict (Prompt × ℕ)
  pub configured : Bool

-- How `langfuse.get_prompt` ends: a prompt object whose `compile` gives the prompt, one without
-- `compile` and its `str`, or an exception.
pub data Fetch : Type 0 where
  compiled : Prompt → Fetch
  uncompiled : String → Fetch
  failed : Fetch

-- The decimal text of a version is an argument of the calls; `None` and no label print as "None".
abbrev pub shown : Option String → String
shown none = "None"
shown (some s) = s

abbrev pub text_key : String → Option String → Option String → String
text_key name version label = ("text:" <> name <> ":") <> (shown version <> ":" <> shown label)

abbrev pub chat_key : String → Option String → Option String → String
chat_key name version label = ("chat:" <> name <> ":") <> (shown version <> ":" <> shown label)

-- `_is_cached_valid`, with the prompt that is then returned.
abbrev pub valid : ℕ → ℕ → Option (Prompt × ℕ) → Option Prompt
valid now ttl none = none
valid now ttl (some (p, timestamp)) = if ltb now (timestamp + ttl) then some p else none

unfoldable pub cached_valid : ℕ → String → PromptManager → Option Prompt
cached_valid now key pm = valid now pm.ttl_seconds (lookup key pm.cache)

-- `fallback or ""` and `fallback or []`
abbrev pub text_fallback : Option String → Prompt
text_fallback none = text_prompt ""
text_fallback (some s) = text_prompt s

abbrev pub chat_fallback : Option (List (String × String)) → Prompt
chat_fallback none = chat_prompt []
chat_fallback (some ms) = chat_prompt ms

abbrev pub text_result : Bool → Fetch → Option String → Prompt
text_result false fetch fallback = text_fallback fallback
text_result true (compiled p) fallback = p
text_result true (uncompiled s) fallback = text_prompt s
text_result true failed fallback = text_fallback fallback

abbrev pub chat_result : Bool → Fetch → Option (List (String × String)) → Prompt
chat_result false fetch fallback = chat_fallback fallback
chat_result true (compiled p) fallback = p
chat_result true (uncompiled s) fallback = chat_fallback fallback
chat_result true failed fallback = chat_fallback fallback

-- `self._cache[cache_key] = (result, time.time())`
abbrev pub remember : ℕ → String → Prompt → PromptManager → PromptManager
remember after key result pm = record pm { cache = insert key (result, after) pm.cache }

-- The cached prompt, or the result, which is stored.
abbrev pub served_or_stored :
    Option Prompt → ℕ → String → Prompt → PromptManager → Prompt × PromptManager
served_or_stored (some p) after key result pm = (p, pm)
served_or_stored none after key result pm = (result, remember after key result pm)

unfoldable pub get_prompt :
    ℕ
    → ℕ
    → Fetch
    → String
    → Option String
    → Option String
    → Option String
    → PromptManager
    → Prompt × PromptManager
unfolding cached_valid
get_prompt before after fetch name version label fallback pm =
    let key = text_key name version label in
    served_or_stored (cached_valid before key pm) after key
      (text_result pm.configured fetch fallback) pm

unfoldable pub get_chat_prompt :
    ℕ
    → ℕ
    → Fetch
    → String
    → Option String
    → Option String
    → Option (List (String × String))
    → PromptManager
    → Prompt × PromptManager
unfolding cached_valid
get_chat_prompt before after fetch name version label fallback pm =
    let key = chat_key name version label in
    served_or_stored (cached_valid before key pm) after key
      (chat_result pm.configured fetch fallback) pm

-- Whether an entry is one of those of a name.
unfoldable pub belongs : String → String × (Prompt × ℕ) → Bool
unfolding starts_with
belongs name (key, entry) =
    starts_with ("text:" <> name <> ":") key || starts_with ("chat:" <> name <> ":") key

abbrev pub remaining : String → Dict (Prompt × ℕ) → Dict (Prompt × ℕ)
remaining name cache = keep (λ e. not (belongs name e)) cache

unfoldable pub invalidate_cache : Option String → PromptManager → PromptManager
unfolding belongs keep
invalidate_cache none pm = record pm { cache = [] }
invalidate_cache (some name) pm = record pm { cache = remaining name pm.cache }
