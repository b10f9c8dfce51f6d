-- ===== src/Tools/Cache/Denied.antt =====
-- The decorators of platform_sdk/cache.py and authorized_tool.py on one tool: `cached_tool` around
-- `authorized_tool`.
use ai_platform_sdk.Prelude.{
  String, ◌≡◌, refl, ap, ◌∙◌, Bool, true, false, Option, none, some, arith, Option-cases, inl, inr,
}
use ai_platform_sdk.Prelude.Dict.{Dict}
use ai_platform_sdk.Json.{Json, obj}
use ai_platform_sdk.Tools.Errors.{JsonText, error_fields, is_error_response}
use ai_platform_sdk.Tools.Authorized.{ToolSpec, wrapper}
use ai_platform_sdk.Tools.Authorized.Guard.{wrapper_denied}
use ai_platform_sdk.Tools.Cache.{
  Redis, cache_get, Times, World, cached_call, run_uncached, store_result,
}

module _ (R : Redis) (json : JsonText) {S : Type 0} (decide : String → Dict Json → S → Bool × S)
    (ready : Bool) (spec : ToolSpec) (kwargs : Dict Json) where
  -- The authorized tool, as the function that is cached.
  abbrev pub guarded : (Dict Json → S → Option String × S) → S → Option String × S
  guarded fn s = let (text, s') = wrapper json decide fn ready spec kwargs s in (some text, s')

  -- What is stored, or else another answer.
  abbrev pub stored_or : Option String → String → String
  stored_or none text = text
  stored_or (some v) text = v

  cached_call_error :
      (fn : Dict Json → S → Option String × S) (t : Times) (key : String) (w : World R S)
      → is_error_response json (wrapper json decide fn ready spec kwargs w.inner).0 ≡ true
      → ((cached_call R json (guarded fn) t key w).0
          ≡ some (
              stored_or
                (cache_get R t.get_started t.get_ended key w.cache w.server).0
                (wrapper json decide fn ready spec kwargs w.inner).0))
        × ((cached_call R json (guarded fn) t key w).1.server ≡ w.server)
  unfolding cached_call
  cached_call_error fn t key w bad =
      elim (Option-cases (cache_get R t.get_started t.get_ended key w.cache w.server).0) [
        | inl absent ↦ ground arith
        | inr (v, found) ↦ rw (found, cached_call) (refl, refl)
      ]

  store_result_local :
      (f f' : S → Option String × S) (t : Times) (key : String) (o : Option String) (w : World R S)
      → store_result R json f t key o w ≡ store_result R json f' t key o w
  unfolding store_result
  store_result_local f f' t key none w = refl
  store_result_local f f' t key (some v) w = refl

  run_uncached_local :
      (f f' : S → Option String × S) (t : Times) (key : String) (w : World R S)
      → f w.inner ≡ f' w.inner
      → run_uncached R json f t key w ≡ run_uncached R json f' t key w
  unfolding run_uncached
  run_uncached_local f f' t key w same =
      ap (λ r. store_result R json f t key r.0 (record w { inner = r.1 })) same
      ∙ store_result_local f f' t key (f' w.inner).0 (record w { inner = (f' w.inner).1 })

  -- A cached call depends on the function only at its present state.
  cached_call_local :
      (f f' : S → Option String × S) (t : Times) (key : String) (w : World R S)
      → f w.inner ≡ f' w.inner
      → cached_call R json f t key w ≡ cached_call R json f' t key w
  unfolding cached_call
  cached_call_local f f' t key w same =
      let got = cache_get R t.get_started t.get_ended key w.cache w.server in
      elim (Option-cases got.0) [
        | inl absent ↦
            rw (absent, cached_call)
              (run_uncached_local f f' t key (record w { cache = got.1 }) same)
        | inr (v, found) ↦ rw (found, cached_call) refl
      ]

  -- Under a policy that now denies the tool on every input, a cached and authorized tool answers with
  -- what is stored under its key, or else with the refusal, which is recognised as an error. Either
  -- way nothing is stored, and neither the answer nor what is left behind depends on the function.
  pub cached_call_denied :
      (fn fn' : Dict Json → S → Option String × S) (t : Times) (key : String) (w : World R S)
      → ((code message : String)
          → json.loads (json.dumps (error_fields code message))
            ≡ some (obj (error_fields code message)))
      → ((k : Dict Json) → (decide spec.tool_name k w.inner).0 ≡ false)
      → let refusal = (wrapper json decide fn ready spec kwargs w.inner).0 in
        ((cached_call R json (guarded fn) t key w).0
          ≡ some (stored_or (cache_get R t.get_started t.get_ended key w.cache w.server).0 refusal))
        × (is_error_response json refusal ≡ true)
        × ((cached_call R json (guarded fn) t key w).1.server ≡ w.server)
        × (cached_call R json (guarded fn) t key w ≡ cached_call R json (guarded fn') t key w)
  cached_call_denied fn fn' t key w reads denies =
      let (same, bad) = wrapper_denied json decide fn fn' ready spec kwargs w.inner reads denies in
      let (answer, kept) = cached_call_error fn t key w bad in
      (
        answer,
        bad,
        kept,
        cached_call_local (guarded fn) (guarded fn') t key w (ap (λ r. (some r.0, r.1)) same),
      )
