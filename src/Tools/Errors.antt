-- ===== src/Tools/Errors.antt =====
-- The error convention of platform_sdk/authorized_tool.py. `json.dumps` and `json.loads` are the
-- parameter `JsonText`.
use ai_platform_sdk.Prelude.{String, ◌≡◌, Bool, true, false, Option, some, arith, if◌then◌else◌}
use text.Mathlib.Text.{starts_with}
use ai_platform_sdk.Json
use ai_platform_sdk.Json.{Json, Fields, str, obj, end, field}

pub record JsonText : Type 0 where
  pub dumps : Fields → String
  -- `none` where `json.loads` raises a `JSONDecodeError`. A text that is nested too deep for it, whose
  -- `RecursionError` nothing catches, is outside of the model.
  pub loads : String → Option Json

unfoldable pub error_fields : String → String → Fields
error_fields code message = field "error" (str code) (field "message" (str message) end)

-- `isinstance(data, dict) and "error" in data`
unfoldable pub is_error_data : Option Json → Bool
is_error_data (some (obj d)) = Json.has "error" d
is_error_data _ = false

module _ (json : JsonText) where
  unfoldable pub make_error : String → String → String
  unfolding error_fields
  make_error code message = json.dumps (error_fields code message)

  unfoldable pub is_error_response : String → Bool
  unfolding is_error_data
  is_error_response response =
      if starts_with response "ERROR:" then true else is_error_data (json.loads response)

  -- Every error that `make_error` writes, and that `json.loads` reads back, is recognised.
  pub is_error_response-make_error :
      (code message : String)
      → json.loads (json.dumps (error_fields code message)) ≡ some (obj (error_fields code message))
      → is_error_response (make_error code message) ≡ true
  unfolding is_error_response make_error Json.has
  is_error_response-make_error code message reads = ground arith
