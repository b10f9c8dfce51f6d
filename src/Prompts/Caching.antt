-- ===== src/Prompts/Caching.antt =====
-- What the cache of platform_sdk/prompt_manager.py promises.
use text.Mathlib.TextPositions.{eq_refl}
use ai_platform_sdk.Prelude.{
  ℕ, ◌+◌, ◌<◌, String, ◌<>◌, ◌≡◌, refl, Bool, true, false, not, Option, none, some, [], ◌∷◌, keep,
  arith, eq_iff,
}
use ai_platform_sdk.Prelude.Texts.{starts_with, starts_with-append}
use ai_platform_sdk.Prelude.Dict.{Dict, lookup, lookup-insert}
use ai_platform_sdk.Prompts.{
  Prompt, PromptManager, Fetch, text_key, chat_key, cached_valid, shown, text_result, remember,
  get_prompt, belongs, invalidate_cache,
}

get_prompt_fetched :
    (before after : ℕ) (fetch : Fetch) (name : String) (version label fallback : Option String)
    (pm : PromptManager)
    → cached_valid before (text_key name version label) pm ≡ none
    → get_prompt before after fetch name version label fallback pm ≡ (
      text_result pm.configured fetch fallback,
      remember after (text_key name version label) (text_result pm.configured fetch fallback) pm,
    )
unfolding get_prompt
get_prompt_fetched before after fetch name version label fallback pm old = ground arith

get_prompt_stored :
    (before after at : ℕ) (fetch : Fetch) (name : String) (version label fallback : Option String)
    (pm : PromptManager) (p : Prompt)
    → before < at + pm.ttl_seconds
    → get_prompt before after fetch name version label fallback
        (remember at (text_key name version label) p pm)
      ≡ (p, remember at (text_key name version label) p pm)
unfolding get_prompt cached_valid
get_prompt_stored before after at fetch name version label fallback pm p soon =
    let key = text_key name version label in
    ground (arith, lookup-insert key key (p, at) pm.cache, eq_refl key)

-- Within the time to live, the first answer stands: after a call that had to fetch, a call with
-- the same name, version and label returns the same prompt and changes nothing, whatever LangFuse
-- would answer and whatever fallback the second call brings.
pub get_prompt_again :
    (before after before' after' : ℕ) (fetch fetch' : Fetch) (name : String)
    (version label fallback fallback' : Option String) (pm : PromptManager)
    → cached_valid before (text_key name version label) pm ≡ none
    → before' < after + pm.ttl_seconds
    → let (p, pm') = get_prompt before after fetch name version label fallback pm in
      get_prompt before' after' fetch' name version label fallback' pm' ≡ (p, pm')
unfolding get_prompt cached_valid
get_prompt_again before after before' after' fetch fetch' name version label fallback fallback' pm
      old soon =
    rw (get_prompt_fetched before after fetch name version label fallback pm old) (
      get_prompt_stored before' after' after fetch' name version label fallback' pm
        (text_result pm.configured fetch fallback) soon)

lookup-keep :
    {V : Type 0} (test : String × V → Bool) (key : String) (d : Dict V)
    → ((v : V) → test (key, v) ≡ false)
    → lookup key (keep test d) ≡ none
unfolding lookup keep
lookup-keep test key [] h = refl
lookup-keep test key ((k, v) ∷ d) h = ground (arith, lookup-keep test key d h, eq_iff key k, h v)

prefixed :
    (kind name : String) (version label : Option String)
    → starts_with
        (kind <> name <> ":")
        ((kind <> name <> ":") <> (shown version <> ":" <> shown label))
      ≡ true
prefixed kind name version label =
    starts_with-append (kind <> name <> ":") (shown version <> ":" <> shown label)

forgotten :
    (now : ℕ) (name key : String) (pm : PromptManager)
    → ((v : Prompt × ℕ) → not (belongs name (key, v)) ≡ false)
    → cached_valid now key (invalidate_cache (some name) pm) ≡ none
unfolding cached_valid invalidate_cache
forgotten now name key pm h = rw (lookup-keep (λ e. not (belongs name e)) key pm.cache h) refl

-- After the prompts of a name are invalidated, none of its text or chat prompts is served from
-- the cache, at any version, label and time.
pub invalidate_cache-cached_valid :
    (now : ℕ) (name : String) (version label : Option String) (pm : PromptManager)
    → (cached_valid now (text_key name version label) (invalidate_cache (some name) pm) ≡ none)
      × (cached_valid now (chat_key name version label) (invalidate_cache (some name) pm) ≡ none)
unfolding belongs
invalidate_cache-cached_valid now name version label pm = (
  forgotten now name (text_key name version label) pm
      (λ v. ground (arith, prefixed "text:" name version label)),
  forgotten now name (chat_key name version label) pm
      (λ v. ground (arith, prefixed "chat:" name version label)),
)
