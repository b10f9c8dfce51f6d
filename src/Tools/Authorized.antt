-- ===== src/Tools/Authorized.antt =====
-- `authorized_tool` of platform_sdk/authorized_tool.py. The policy engine and the decorated
-- function are arguments that act on a state; a function that raises gives `none`.
pub mod Guard
pub mod Outage
use ai_platform_sdk.Prelude.{
  ℕ, zero, suc, ◌≤◌, String, ◌<>◌, ◌≡◌, refl, Bool, true, false, not, ◌||◌, Option, none, some,
  List, [], ◌∷◌, arith, ◌==◌, eq_iff, if◌then◌else◌, strip, truncate,
}
use ai_platform_sdk.Prelude.Dict.{Dict, lookup, insert, lookup-insert}
use ai_platform_sdk.Json.{Json, str, truthy}
use ai_platform_sdk.Tools.Errors.{JsonText, make_error}

-- The decorator's arguments. `str_of` is Python's `str()` of a value that is no text.
pub record ToolSpec : Type 0 where
  pub tool_name : String
  pub require_input : Option String
  pub max_input_length : ℕ
  pub str_of : Json → String

abbrev text_of : (Json → String) → Json → String
text_of str_of (str s) = s
text_of str_of v = str_of v

abbrev or_empty : Option Json → Json
or_empty none = str ""
or_empty (some v) = v

-- The validation: `none` for an input that is empty or blank, or else the arguments with the
-- required one stripped and truncated.
unfoldable pub validate : ToolSpec → Option String → Dict Json → Option (Dict Json)
validate spec none kwargs = some kwargs
validate spec (some name) kwargs =
    if name == ""
    then some kwargs
    else let value = or_empty (lookup name kwargs) in
      let text = text_of spec.str_of value in
      if not (truthy value) || strip text == ""
      then none
      else some (insert name (str (truncate spec.max_input_length (strip text))) kwargs)

module _ (json : JsonText) {S : Type 0} (authorize : String → Dict Json → S → Bool × S)
    (fn : Dict Json → S → Option String × S) where
  -- The call of the function, with what it raises turned into an error.
  unfoldable pub guarded_call : Dict Json → S → String × S
  guarded_call kwargs s =
      let (result, s') = fn kwargs s in
      elim result [
        | some text ↦ (text, s')
        | none ↦
            (make_error json "database_error" "A database error occurred. Please try again.", s')
      ]

  unfoldable pub authorized_call : ToolSpec → Dict Json → S → String × S
  unfolding guarded_call
  authorized_call spec kwargs s =
      let (allowed, s') = authorize spec.tool_name kwargs s in
      if allowed
      then guarded_call kwargs s'
      else (make_error json "unauthorized" "Execution blocked by policy engine.", s')

  invalid_input : Option String → String
  invalid_input none = make_error json "invalid_input" " must not be empty."
  invalid_input (some name) = make_error json "invalid_input" (name <> " must not be empty.")

  -- `wrapper`, with whether the reference to the OPA client is set.
  unfoldable pub wrapper : Bool → ToolSpec → Dict Json → S → String × S
  unfolding authorized_call invalid_input
  wrapper false spec kwargs s =
      (make_error json "service_not_initialised" "OPA client not ready.", s)
  wrapper true spec kwargs s = elim (validate spec spec.require_input kwargs) [
    | none ↦ (invalid_input spec.require_input, s)
    | some kwargs' ↦ authorized_call spec kwargs' s
  ]
