-- ===== src/Models/Envelope.antt =====
-- What is written of an envelope of platform_sdk/models.py is read back.
use ai_platform_sdk.Prelude.{String, ◌≡◌, refl, Option, none, some}
use ai_platform_sdk.Json
use ai_platform_sdk.Json.{Json, Fields, obj}
use ai_platform_sdk.Models.{
  ErrorDetail, ToolResponse, of_option, error_json, to_fields, Lax, optional, error_of, from_fields,
}
use ai_platform_sdk.Models.Reading.{as_int-of_int, optional-int, optional-dict}

module _ (lax : Lax) where
  error_of-error_json : (e : ErrorDetail) → error_of lax (error_json e) ≡ some e
  unfolding error_of error_json Json.get
  error_of-error_json e = rw (optional-int lax e.retry_after_seconds) refl

  optional_error :
      (o : Option ErrorDetail) → optional (error_of lax) (of_option error_json o) ≡ some o
  unfolding error_json
  optional_error none = refl
  optional_error (some e) = rw (error_of-error_json e) refl

  -- Every envelope that a tool writes is read back as it was, on success and on error, at whatever
  -- time it is read, with no conversion of a value.
  pub from_fields-to_fields :
      (now : String) (r : ToolResponse) → from_fields lax now (to_fields r) ≡ some r
  unfolding from_fields to_fields Json.get
  from_fields-to_fields now r =
      rw (optional-dict r.data_fields)
        (rw (optional_error r.error) (rw (as_int-of_int lax r.schema_version) refl))
