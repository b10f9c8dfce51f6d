-- ===== src/Models.antt =====
-- The envelope of platform_sdk/models.py in which a tool answers. What Pydantic writes and reads is
-- the JSON object of the fields, a field that is `None` included; the text of the object is a
-- parameter, and so are the conversions of a value of another type than the declared one.
pub mod Reading
pub mod Crm
pub mod Payments
pub mod News
pub mod Summaries
pub mod Envelope
pub mod Cached
use ai_platform_sdk.Prelude.{String, ℕ, Bool, true, false, Option, none, some}
use ai_platform_sdk.Json
use ai_platform_sdk.Json.{Json, null, bool, nat, str, obj, arr, Fields, end, field}
use ai_platform_sdk.Config.Models.{ℤ, pos, negsuc}

pub record ErrorDetail : Type 0 where
  pub code : String
  pub message : String
  pub retryable : Bool
  pub retry_after_seconds : Option ℤ

pub record ToolResponse : Type 0 where
  pub success : Bool
  pub data_fields : Option Fields
  pub error : Option ErrorDetail
  pub schema_version : ℤ
  pub timestamp : String

-- The helper constructors, at the time that they are called.
unfoldable pub make_tool_success : String → Fields → ToolResponse
make_tool_success now d = record {
  success = true;
  data_fields = some d;
  error = none;
  schema_version = pos 1;
  timestamp = now;
}

unfoldable pub make_tool_error : String → String → String → Bool → Option ℤ → ToolResponse
make_tool_error now code message retryable retry_after_seconds = record {
  success = false;
  data_fields = none;
  error = some (record {
    code = code;
    message = message;
    retryable = retryable;
    retry_after_seconds = retry_after_seconds;
  });
  schema_version = pos 1;
  timestamp = now;
}

abbrev pub of_int : ℤ → Json
of_int (pos n) = nat n
of_int (negsuc n) = Json.negsuc n

abbrev pub of_option {ℓ} : {A : Type ℓ} → (A → Json) → Option A → Json
of_option f none = null
of_option f (some v) = f v

-- `model_dump`
unfoldable pub error_json : ErrorDetail → Json
error_json e = obj (
    field "code" (str e.code) (
      field "message" (str e.message) (
        field "retryable" (bool e.retryable)
          (field "retry_after_seconds" (of_option of_int e.retry_after_seconds) end))))

unfoldable pub to_fields : ToolResponse → Fields
unfolding error_json
to_fields r = field "success" (bool r.success) (
    field "data" (of_option obj r.data_fields) (
      field "error" (of_option error_json r.error) (
        field "schema_version" (of_int r.schema_version)
          (field "timestamp" (str r.timestamp) end))))

-- What Pydantic makes of a value that does not have the declared type; `none` is a validation error.
pub record Lax : Type 0 where
  pub to_bool : Json → Option Bool
  pub to_int : Json → Option ℤ
  pub to_str : Json → Option String

infixl 5 ◌>>=◌
abbrev pub ◌>>=◌ {ℓ κ} : {A : Type ℓ} {B : Type κ} → Option A → (A → Option B) → Option B
none >>= f = none
some v >>= f = f v

abbrev pub as_dict : Json → Option Fields
as_dict (obj d) = some d
as_dict v = none

-- A required field, and one with a default.
abbrev pub required {ℓ} : {A : Type ℓ} → (Json → Option A) → Option Json → Option A
required read none = none
required read (some v) = read v

abbrev pub defaulted {ℓ} : {A : Type ℓ} → A → (Json → Option A) → Option Json → Option A
defaulted default read none = some default
defaulted default read (some v) = read v

-- A field that may be `None`.
abbrev pub optional {ℓ} : {A : Type ℓ} → (Json → Option A) → Json → Option (Option A)
optional read null = some none
optional read v = read v >>= λ a. some (some a)

module _ (lax : Lax) where
  abbrev pub as_bool : Json → Option Bool
  as_bool (bool b) = some b
  as_bool v = lax.to_bool v

  abbrev pub as_int : Json → Option ℤ
  as_int (nat n) = some (pos n)
  as_int (Json.negsuc n) = some (negsuc n)
  as_int v = lax.to_int v

  abbrev pub as_str : Json → Option String
  as_str (str s) = some s
  as_str v = lax.to_str v

  unfoldable pub error_of : Json → Option ErrorDetail
  unfolding Json.get
  error_of v = do
    d ← as_dict v
    code ← required as_str (Json.get "code" d)
    message ← required as_str (Json.get "message" d)
    retryable ← defaulted false as_bool (Json.get "retryable" d)
    after ← defaulted none (optional as_int) (Json.get "retry_after_seconds" d)
    some (record {
      code = code;
      message = message;
      retryable = retryable;
      retry_after_seconds = after;
    })

  -- `model_validate`, at a time; a field that is not declared is ignored.
  unfoldable pub from_fields : String → Fields → Option ToolResponse
  unfolding Json.get error_of
  from_fields now d = do
    success ← required as_bool (Json.get "success" d)
    data_fields ← defaulted none (optional as_dict) (Json.get "data" d)
    error ← defaulted none (optional error_of) (Json.get "error" d)
    schema_version ← defaulted (pos 1) as_int (Json.get "schema_version" d)
    timestamp ← defaulted now as_str (Json.get "timestamp" d)
    some (record {
      success = success;
      data_fields = data_fields;
      error = error;
      schema_version = schema_version;
      timestamp = timestamp;
    })
