-- ===== src/Prompts/Refinement.antt =====
-- The cache of platform_sdk/prompt_manager.py against its specification, a function from keys to
-- prompts with the times at which they were stored.
use text.Mathlib.TextPositions.{eq_refl}
use ai_platform_sdk.Prelude.{
  ℕ, String, ◌<>◌, ◌≡◌, refl, ap, ◌∙◌, ◌+◌, Bool, true, false, not, leb, ◌||◌, Option, none, some,
  List, [], ◌∷◌, keep, arith, ◌==◌, eq_iff, Bool-cases, inl, inr, if◌then◌else◌,
}
use ai_platform_sdk.Prelude.Texts.{starts_with}
use ai_platform_sdk.Prelude.Dict.{Dict, lookup, lookup-insert, lookup-nil}
use ai_platform_sdk.Prompts.{
  Prompt, text_prompt, chat_prompt, PromptManager, Fetch, compiled, uncompiled, failed, text_key,
  chat_key, valid, cached_valid, text_result, chat_result, served_or_stored, get_prompt,
  get_chat_prompt, belongs, invalidate_cache,
}

-- The key and the outcome of one call: the times are those of the look into the cache and of the
-- storing.
pub data Op : Type 0 where
  text_call : ℕ → ℕ → Fetch → String → Option String → Option String → Option String → Op
  chat_call :
      ℕ → ℕ → Fetch → String → Option String → Option String → Option (List (String × String)) → Op
  invalidate : Option String → Op

abbrev pub answered : Prompt × PromptManager → Option Prompt × PromptManager
answered (p, pm) = (some p, pm)

unfoldable pub step : Op → PromptManager → Option Prompt × PromptManager
step (text_call before after fetch name version label fallback) pm =
    answered (get_prompt before after fetch name version label fallback pm)
step (chat_call before after fetch name version label fallback) pm =
    answered (get_chat_prompt before after fetch name version label fallback pm)
step (invalidate name) pm = (none, invalidate_cache name pm)

-- The answers of a sequence of calls, and the manager after them.
unfoldable pub run : List Op → PromptManager → List (Option Prompt) × PromptManager
unfolding step
run [] pm = ([], pm)
run (op ∷ ops) pm =
    let (answer, pm') = step op pm in let (answers, pm'') = run ops pm' in (answer ∷ answers, pm'')

abbrev pub Memory : Type 0
Memory = String → Option (Prompt × ℕ)

-- The specification. What LangFuse gives, if it is configured and gives anything that can be used.
abbrev pub given_text : Bool → Fetch → Option Prompt
given_text true (compiled p) = some p
given_text true (uncompiled s) = some (text_prompt s)
given_text _ _ = none

abbrev pub given_chat : Bool → Fetch → Option Prompt
given_chat true (compiled p) = some p
given_chat _ _ = none

-- Else the fallback, and without one the empty prompt.
abbrev pub text_answer : Option Prompt → Option String → Prompt
text_answer (some p) fallback = p
text_answer none (some s) = text_prompt s
text_answer none none = text_prompt ""

abbrev pub chat_answer : Option Prompt → Option (List (String × String)) → Prompt
chat_answer (some p) fallback = p
chat_answer none (some ms) = chat_prompt ms
chat_answer none none = chat_prompt []

-- What was stored less than the time to live ago is answered.
abbrev pub remembered : ℕ → ℕ → Option (Prompt × ℕ) → Option Prompt
remembered now ttl none = none
remembered now ttl (some (p, stored)) = if leb (stored + ttl) now then none else some p

abbrev pub recall : Option Prompt → ℕ → String → Prompt → Memory → Option Prompt × Memory
recall (some p) after key result m = (some p, m)
recall none after key result m = (some result, λ k. if k == key then some (result, after) else m k)

abbrev pub named : String → String → Bool
named name key =
    starts_with ("text:" <> name <> ":") key || starts_with ("chat:" <> name <> ":") key

module _ (ttl : ℕ) (configured : Bool) where
  unfoldable pub specified : Op → Memory → Option Prompt × Memory
  specified (text_call before after fetch name version label fallback) m =
      let key = text_key name version label in
      recall (remembered before ttl (m key)) after key
        (text_answer (given_text configured fetch) fallback) m
  specified (chat_call before after fetch name version label fallback) m =
      let key = chat_key name version label in
      recall (remembered before ttl (m key)) after key
        (chat_answer (given_chat configured fetch) fallback) m
  specified (invalidate none) m = (none, λ k. none)
  specified (invalidate (some name)) m = (none, λ k. if named name k then none else m k)

  unfoldable pub replay : List Op → Memory → List (Option Prompt) × Memory
  unfolding specified
  replay [] m = ([], m)
  replay (op ∷ ops) m =
      let (answer, m') = specified op m in
      let (answers, m'') = replay ops m' in (answer ∷ answers, m'')

  abbrev pub Represents : PromptManager → Memory → Type 0
  Represents pm m =
      (pm.ttl_seconds ≡ ttl)
      × (pm.configured ≡ configured)
      × ((k : String) → lookup k pm.cache ≡ m k)

lookup-remaining :
    (name key : String) (d : Dict (Prompt × ℕ))
    → lookup key (keep (λ e. not (belongs name e)) d)
      ≡ (if named name key then none else lookup key d)
unfolding lookup keep belongs
lookup-remaining name key [] = ground arith
lookup-remaining name key ((k, v) ∷ d) = elim (Bool-cases (key == k)) [
  | inl e ↦ rw⁻¹ ((eq_iff key k).0 e) (ground (arith, eq_refl key, lookup-remaining name key d))
  | inr e ↦ ground (arith, e, lookup-remaining name key d)
]

valid-remembered : (now ttl : ℕ) (o : Option (Prompt × ℕ)) → valid now ttl o ≡ remembered now ttl o
valid-remembered now ttl none = refl
valid-remembered now ttl (some (p, stored)) = ground arith

text_result-answer :
    (configured : Bool) (fetch : Fetch) (fallback : Option String)
    → text_result configured fetch fallback ≡ text_answer (given_text configured fetch) fallback
text_result-answer false fetch none = refl
text_result-answer false fetch (some s) = refl
text_result-answer true (compiled p) fallback = refl
text_result-answer true (uncompiled s) fallback = refl
text_result-answer true failed none = refl
text_result-answer true failed (some s) = refl

chat_result-answer :
    (configured : Bool) (fetch : Fetch) (fallback : Option (List (String × String)))
    → chat_result configured fetch fallback ≡ chat_answer (given_chat configured fetch) fallback
chat_result-answer false fetch none = refl
chat_result-answer false fetch (some ms) = refl
chat_result-answer true (compiled p) fallback = refl
chat_result-answer true (uncompiled s) none = refl
chat_result-answer true (uncompiled s) (some ms) = refl
chat_result-answer true failed none = refl
chat_result-answer true failed (some ms) = refl

module _ (ttl : ℕ) (configured : Bool) where
  looked_up :
      (now : ℕ) (key : String) (pm : PromptManager) (m : Memory)
      → Represents ttl configured pm m
      → cached_valid now key pm ≡ remembered now ttl (m key)
  unfolding cached_valid
  looked_up now key pm m (t, c, h) = rw (t, h key) (valid-remembered now ttl (m key))

  served :
      (before after : ℕ) (key : String) (result : Prompt) (pm : PromptManager) (m : Memory)
      → Represents ttl configured pm m
      → let (p, pm') = served_or_stored (cached_valid before key pm) after key result pm in
        let (a, m') = recall (remembered before ttl (m key)) after key result m in
        (some p ≡ a) × Represents ttl configured pm' m'
  served before after key result pm m (t, c, h) =
      rw (looked_up before key pm m (t, c, h)) (go (remembered before ttl (m key)))
    where
      go :
          (o : Option Prompt)
          → let (p, pm') = served_or_stored o after key result pm in
            let (a, m') = recall o after key result m in
            (some p ≡ a) × Represents ttl configured pm' m'
      go (some p) = (refl, (t, c, h))
      go none =
          (refl, (t, c, λ k. ground (arith, lookup-insert k key (result, after) pm.cache, h k)))

  step-Represents :
      (op : Op) (pm : PromptManager) (m : Memory)
      → Represents ttl configured pm m
      → let (answer, pm') = step op pm in
        let (expected, m') = specified ttl configured op m in
        (answer ≡ expected) × Represents ttl configured pm' m'
  unfolding step specified get_prompt get_chat_prompt invalidate_cache
  step-Represents (text_call before after fetch name version label fallback) pm m (t, c, h) =
      rw (ap (λ b. text_result b fetch fallback) c ∙ text_result-answer configured fetch fallback) (
        served before after (text_key name version label)
          (text_answer (given_text configured fetch) fallback) pm m (t, c, h))
  step-Represents (chat_call before after fetch name version label fallback) pm m (t, c, h) =
      rw (ap (λ b. chat_result b fetch fallback) c ∙ chat_result-answer configured fetch fallback) (
        served before after (chat_key name version label)
          (chat_answer (given_chat configured fetch) fallback) pm m (t, c, h))
  step-Represents (invalidate none) pm m (t, c, h) = (refl, (t, c, λ k. lookup-nil k))
  step-Represents (invalidate (some name)) pm m (t, c, h) =
      (refl, (t, c, λ k. ground (arith, lookup-remaining name k pm.cache, h k)))

  -- Any sequence of calls on a manager answers as the specification does. A call answers what was
  -- stored last under its key, if that is less than the time to live ago; or else what LangFuse gives,
  -- and where that is nothing the fallback, which is then what is stored. An invalidation forgets
  -- every key that begins with the name, or all.
  pub run_refines :
      (ops : List Op) (pm : PromptManager) (m : Memory)
      → Represents ttl configured pm m
      → let (answers, pm') = run ops pm in
        let (expected, m') = replay ttl configured ops m in
        (answers ≡ expected) × Represents ttl configured pm' m'
  unfolding run replay
  run_refines [] pm m r = (refl, r)
  run_refines (op ∷ ops) pm m r =
      let (same, r') = step-Represents op pm m r in
      let (rest, r'') = run_refines ops (step op pm).1 (specified ttl configured op m).1 r' in
      (rw (same, rest) refl, r'')
