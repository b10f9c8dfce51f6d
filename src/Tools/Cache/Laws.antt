-- ===== src/Tools/Cache/Laws.antt =====
-- A cached tool answers as the tool does, and a stored answer is served.
use ai_platform_sdk.Prelude.{
  ◌<◌, String, ◌≡◌, refl, ◌⊎◌, inl, inr, true, false, Option, none, some, [], ◌∷◌, arith, ◌==◌,
  eq_iff, Bool-cases, Option-cases,
}
use ai_platform_sdk.Prelude.Dict.{Dict, insert, update, has_key}
use ai_platform_sdk.Json.{Json, str}
use ai_platform_sdk.Resilience.{is_open, record_success}
use ai_platform_sdk.Tools.Errors.{JsonText, is_error_response}
use ai_platform_sdk.Tools.Cache.{
  Redis, miss, bytes, bypassed, make_cache_key, cache_get, Times, World, cached_call,
}

module _ (R : Redis) (json : JsonText) {F : Type 0} (fn : F → Option String × F) where
  -- Unless it finds a stored answer, a cached tool gives the answer of the function, or its
  -- exception, and the function has its effect once; so an outage of the cache, at the reading
  -- or at the writing, changes no answer.
  pub cached_call_transparent :
      (t : Times) (key : String) (w : World R F)
      → (cache_get R t.get_started t.get_ended key w.cache w.server).0 ≡ none
      → ((cached_call R json fn t key w).0 ≡ (fn w.inner).0)
        × ((cached_call R json fn t key w).1.inner ≡ (fn w.inner).1)
  unfolding cached_call
  cached_call_transparent t key w absent = ground arith

  abbrev pub Stores : Times → String → World R F → Type 0
  Stores t key w =
      ((cached_call R json fn t key w).1.server ≡ w.server)
      ⊎ ((v : String) × ((fn w.inner).0 ≡ some v)
          × (is_error_response json v ≡ false)
          × ((cached_call R json fn t key w).1.server ≡ (R.setex key w.cache.ttl v w.server).1))

  -- What a call leaves at the server: what was there, or what storing the function's result, which
  -- then is no error, under the key of the call makes of it.
  pub cached_call-Stores : (t : Times) (key : String) (w : World R F) → Stores t key w
  cached_call-Stores t key w = go (fn w.inner).0 refl
    where
      fresh :
          (v : String) → (fn w.inner).0 ≡ some v → is_error_response json v ≡ false → Stores t key w
      fresh v e good =
          elim (Bool-cases (
            bypassed t.set_started
              (cache_get R t.get_started t.get_ended key w.cache w.server).1)) [
                | inl skip ↦ inl (unfold cached_call in ground arith)
                | inr go_on ↦
                    elim (Option-cases
                      (cache_get R t.get_started t.get_ended key w.cache w.server).0) [
                        | inl absent ↦ inr (v, e, good, unfold cached_call in ground arith)
                        | inr found ↦ inl (let hit = found.1 in unfold cached_call in ground arith)
                      ]
              ]

      go : (o : Option String) → (fn w.inner).0 ≡ o → Stores t key w
      go none e = inl (unfold cached_call in ground arith)
      go (some v) e = elim (Bool-cases (is_error_response json v)) [
        | inl bad ↦ inl (unfold cached_call in ground arith)
        | inr good ↦ fresh v e good
      ]

  -- A stored answer is served: when the reading finds nothing and the storing of the function's
  -- result succeeds, a later call under the same key, at any times, returns that result and does
  -- not run the function, provided that the server gives back what it was given.
  pub cached_call_served :
      (t t' : Times) (key v : String) (w : World R F)
      → w.cache.has_redis ≡ true
      → 0 < w.cache.cb.failure_threshold
      → is_open t.get_started w.cache.cb ≡ false
      → R.fetch key w.server ≡ miss
      → (fn w.inner).0 ≡ some v
      → is_error_response json v ≡ false
      → (R.setex key w.cache.ttl v w.server).0 ≡ true
      → R.fetch key (R.setex key w.cache.ttl v w.server).1 ≡ bytes (some v)
      → let after = (cached_call R json fn t key w).1 in
        ((cached_call R json fn t' key after).0 ≡ some v)
        × ((cached_call R json fn t' key after).1.inner ≡ after.inner)
  unfolding cached_call is_open record_success
  cached_call_served t t' key v w connected pos closed absent result good stored gives_back =
      ground arith

-- A dict that is updated by one with its first key keeps nothing of that key's value.
update_overrides {ℓ} :
    {V : Type ℓ} (k : String) (a b : V) (d e : Dict V)
    → has_key k e ≡ true
    → update ((k, a) ∷ d) e ≡ update ((k, b) ∷ d) e
unfolding update has_key
update_overrides k a b d [] h = cc
update_overrides k a b d ((j, v) ∷ e) h = elim (Bool-cases (j == k)) [
  | inl same ↦ rw same
  | inr other ↦
      rw other (update_overrides k a b (insert j v d) e (ground (arith, eq_iff k j, eq_iff j k)))
]

-- Two tools that are called with the same arguments, one of which is named `fn`, get one key.
pub make_cache_key_collision :
    (dumps : Dict Json → String) (digest : String → String) (f g : String) (kwargs : Dict Json)
    → has_key "fn" kwargs ≡ true
    → make_cache_key dumps digest f kwargs ≡ make_cache_key dumps digest g kwargs
unfolding make_cache_key
make_cache_key_collision dumps digest f g kwargs h =
    rw (update_overrides "fn" (str f) (str g) [] kwargs h)
