-- ===== src/Models/Cached.antt =====
-- The envelopes of platform_sdk/models.py under the decorator of platform_sdk/cache.py.
use ai_platform_sdk.Prelude.{String, ◌≡◌, true, Option, none, some, arith}
use ai_platform_sdk.Json
use ai_platform_sdk.Json.{Json, Fields, obj}
use ai_platform_sdk.Tools.Errors.{JsonText, is_error_response}
use ai_platform_sdk.Tools.Cache.{Redis, cache_get, Times, World, cached_call}
use ai_platform_sdk.Models.{ToolResponse, to_fields}

module _ (json : JsonText) (model_dump_json : Fields → String) where
  -- The text of an envelope is taken for an error, as it has the key `error` in any case.
  is_error_response-to_fields :
      (r : ToolResponse)
      → json.loads (model_dump_json (to_fields r)) ≡ some (obj (to_fields r))
      → is_error_response json (model_dump_json (to_fields r)) ≡ true
  unfolding is_error_response to_fields Json.has
  is_error_response-to_fields r reads = ground arith

module _ (R : Redis) (json : JsonText) {F : Type 0} (fn : F → Option String × F)
    (model_dump_json : Fields → String) where
  -- A tool that answers with an envelope, of a success too, is never cached: what it answers is not
  -- stored, so that the tool runs at every call that finds no stored answer, if the envelope's
  -- text reads back as its fields.
  pub cached_call-to_fields :
      (t : Times) (key : String) (w : World R F) (r : ToolResponse)
      → json.loads (model_dump_json (to_fields r)) ≡ some (obj (to_fields r))
      → (fn w.inner).0 ≡ some (model_dump_json (to_fields r))
      → (cache_get R t.get_started t.get_ended key w.cache w.server).0 ≡ none
      → ((cached_call R json fn t key w).0 ≡ some (model_dump_json (to_fields r)))
        × ((cached_call R json fn t key w).1.server ≡ w.server)
        × ((cached_call R json fn t key w).1.inner ≡ (fn w.inner).1)
  unfolding cached_call
  cached_call-to_fields t key w r reads answers absent =
      ground (arith, is_error_response-to_fields json model_dump_json r reads)
